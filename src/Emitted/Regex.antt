-- ===== src/Emitted/Regex.antt =====
-- The regular expressions of the emitted C, `regex_new` to `regex_free` in `emit_runtime` of
-- compiler/dmc.cpp, where the system has them. They are kept in the places of the buffers.
use demonic_c.Base.{
  ℕ, ◌+◌, ◌≤◌, ◌<◌, ◌≡◌, refl, Bool, true, false, ◌||◌, ◌&&◌, [], Option, none, some, if◌then◌else◌,
  leb, length, get_elem?, get_elem?-set_elem, set_elem, arith,
}
use demonic_c.Text.{Bytes}
use demonic_c.Emitted.Handles.{returns, undefined, minus_one}
use demonic_c.Emitted.Memory.{Pointer, null, compiled, Buffer, Memory, Call, put_buffer}

-- What the system tells of a pattern: whether `regcomp` takes it, and whether `regexec` finds it in a text.
pub record Patterns : Type 0 where
  pub regcomp : Bytes → Bool
  pub regexec : Bytes → Bytes → Bool

-- `pattern ? pattern : ""`.
abbrev pattern_of : Option Bytes → Bytes
pattern_of none = []
pattern_of (some pattern) = pattern

-- `_dmc_mem[h]`, which no test guards.
abbrev on_any : (Buffer → Call) → Option Buffer → Call
on_any k none t = undefined
on_any k (some b) t = if t.dangling then undefined else k b t

unfoldable at_any : ℕ → (Buffer → Call) → Call
at_any h k t = on_any k (get_elem? t.buffers h) t

module _ (system : Patterns) where
  -- `room` tells whether `malloc` succeeds. The number of the next handle is an `int`.
  unfoldable regex_new : Bool → Option Bytes → Call
  unfolding set_elem
  regex_new room pattern t =
      if room && system.regcomp (pattern_of pattern)
      then (if leb 2147483647 t.next || t.dangling || leb (length t.buffers) t.next
          then undefined
          else returns t.next (record t {
            buffers =
                set_elem t.buffers t.next
                  (record { pointer = compiled (pattern_of pattern); size = 0 });
            next = t.next + 1;
          }))
      else returns minus_one t

  -- `r && text && regexec(…) == 0`. What is no `regex_t` is undefined.
  abbrev match_on : Option Bytes → Pointer → Call
  match_on text null t = returns 0 t
  match_on none pointer t = returns 0 t
  match_on (some text) (compiled pattern) t =
      returns (if system.regexec pattern text then 1 else 0) t
  match_on (some text) _ t = undefined

  unfoldable regex_match : ℕ → Option Bytes → Call
  unfolding at_any
  regex_match h text = at_any h (λ b. match_on text b.pointer)

abbrev free_regex : ℕ → Buffer → Pointer → Call
free_regex h b null t = returns minus_one t
free_regex h b (compiled pattern) t = returns 0 (put_buffer h (record b { pointer = null }) t)
free_regex h b _ t = undefined

unfoldable regex_free : ℕ → Call
unfolding at_any put_buffer
regex_free h = at_any h (λ b. free_regex h b b.pointer)

-- Where there is no place for the next handle, as in a program that has no buffer yet, `regex_new` of a
-- pattern that is taken is undefined.
regex_new_outside :
    (system : Patterns) (pattern : Option Bytes) (t : Memory)
    → system.regcomp (pattern_of pattern) ≡ true
    → length t.buffers ≤ t.next
    → regex_new system true pattern t ≡ undefined
unfolding regex_new
regex_new_outside system pattern t taken outside =
    let refused : (leb 2147483647 t.next || t.dangling || leb (length t.buffers) t.next) ≡ true =
      ground (arith, outside) in
    rw (taken, refused) refl

-- Where there is a place, `regex_new` gives the next handle, on which `regex_match` then tells whether
-- `regexec` finds the pattern.
regex_match-regex_new :
    (system : Patterns) (pattern text : Bytes) (t : Memory)
    → system.regcomp pattern ≡ true
    → t.dangling ≡ false
    → t.next < length t.buffers
    → t.next < 2147483647
    → (t' : Memory) × (regex_new system true (some pattern) t ≡ returns t.next t')
      × (regex_match system t.next (some text) t'
          ≡ returns (if system.regexec pattern text then 1 else 0) t')
unfolding regex_new regex_match at_any
regex_match-regex_new system pattern text t taken whole inside few =
    let low : leb 2147483647 t.next ≡ false = ground (arith, few) in
    let place : leb (length t.buffers) t.next ≡ false = ground (arith, inside) in
    let b : Buffer = record { pointer = compiled pattern; size = 0 } in
    (
      record t { buffers = set_elem t.buffers t.next b; next = t.next + 1 },
      rw (taken, low, whole, place) refl,
      rw (get_elem?-set_elem t.buffers t.next b inside, whole) refl,
    )
