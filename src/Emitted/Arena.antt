-- ===== src/Emitted/Arena.antt =====
-- The arenas of the emitted C, `arena_new` to `arena_free`, in `emit_runtime` of
-- compiler/dmc.cpp.
use demonic_c.Base.{
  ℕ, ◌+◌, ◌^◌, ◌%◌, ◌≤◌, ◌<◌, ◌≡◌, Bool, false, ◌||◌, List, Option, none, some, if◌then◌else◌, ltb,
  leb, length, get_elem?, set_elem, replicate, arith, get_elem?-set_elem, get_elem?-length,
}
use demonic_c.Text.{Bytes}
use demonic_c.Emitted.Handles.{Effect, returns, undefined}

-- `_dmc_arenas[h]`, where a null pointer is `none`, with `_dmc_arena_sz[h]`, which is the number of
-- bytes that are allocated but for the one of an empty arena, and `_dmc_arena_top[h]`.
pub record Arena : Type 0 where
  pub bytes : Option Bytes
  pub size : ℕ
  pub top : ℕ

-- The three arrays of 1024, and `_dmc_next`, which counts files, buffers and other handles too.
pub record Arenas : Type 0 where
  pub slots : List Arena
  pub next : ℕ

-- A result is the `long long` of its 64 bits.
abbrev pub failure : ℕ
failure = 18446744073709551615

abbrev pub Call : Type 0
Call = Arenas → Effect Arenas ℕ

abbrev pub is_negative : ℕ → Bool
is_negative n = leb (2 ^ 63) n

abbrev pub no_arenas : Arenas
no_arenas = record { slots = replicate 1024 (record { bytes = none; size = 0; top = 0 }); next = 1 }

unfoldable pub put_arena : ℕ → Arena → Arenas → Arenas
unfolding set_elem
put_arena handle a t = record t { slots = set_elem t.slots handle a }

-- `initial` is what `malloc` leaves in the bytes, `none` where it fails.
unfoldable pub arena_new : Option Bytes → ℕ → Call
unfolding put_arena
arena_new initial size t =
    if is_negative size
    then returns failure t
    else if ltb t.next (length t.slots)
    then returns t.next
        (record (put_arena t.next (record { bytes = initial; size = size; top = 0 }) t) {
          next = t.next + 1;
        })
    else undefined

abbrev pub on_arena : (Arena → Call) → Option Arena → Call
on_arena k none t = undefined
on_arena k (some a) t = k a t

abbrev pub on_bytes : (Bytes → Call) → Option Bytes → Call
on_bytes k none t = returns failure t
on_bytes k (some bytes) t = k bytes t

-- `if (!_dmc_arenas[h] …) return -1;`
unfoldable pub with_arena : ℕ → (Arena → Bytes → Call) → Call
with_arena handle k t = on_arena (λ a. on_bytes (k a) a.bytes) (get_elem? t.slots handle) t

-- A sum of 2^63 or more is a signed overflow.
unfoldable pub alloc_in : ℕ → ℕ → Arena → Call
unfolding put_arena
alloc_in handle n a t =
    if is_negative n
    then returns failure t
    else if is_negative (a.top + n)
    then undefined
    else if ltb a.size (a.top + n)
    then returns failure t
    else returns a.top (put_arena handle (record a { top = a.top + n }) t)

unfoldable pub arena_alloc : ℕ → ℕ → Call
unfolding with_arena alloc_in
arena_alloc handle n = with_arena handle (λ a _. alloc_in handle n a)

-- The guard of a read or write of the byte `i` behind `off`.
abbrev pub guarded : ℕ → ℕ → Arena → Call → Call
guarded off i a k t =
    if is_negative off || is_negative i
    then returns failure t
    else if is_negative (off + i)
    then undefined
    else if leb a.size (off + i)
    then returns failure t
    else k t

abbrev pub byte_or_undefined : Option ℕ → Call
byte_or_undefined none t = undefined
byte_or_undefined (some b) t = returns b t

unfoldable pub arena_write : ℕ → ℕ → ℕ → ℕ → Call
unfolding with_arena put_arena set_elem
arena_write handle off i v = with_arena handle λ a bytes. guarded off i a (λ t.
    returns 0 (put_arena handle (record a { bytes = some (set_elem bytes (off + i) (v % 256)) }) t))

unfoldable pub arena_read : ℕ → ℕ → ℕ → Call
unfolding with_arena
arena_read handle off i =
    with_arena handle (λ a bytes. guarded off i a (byte_or_undefined (get_elem? bytes (off + i))))

unfoldable pub arena_reset : ℕ → Call
unfolding with_arena put_arena
arena_reset handle =
    with_arena handle (λ a _ t. returns 0 (put_arena handle (record a { top = 0 }) t))

unfoldable pub arena_top : ℕ → Call
unfolding with_arena
arena_top handle = with_arena handle (λ a _ t. returns a.top t)

unfoldable pub arena_free : ℕ → Call
unfolding with_arena put_arena
arena_free handle =
    with_arena handle
      (λ a _ t. returns 0 (put_arena handle (record { bytes = none; size = 0; top = 0 }) t))

-- An arena that is in use.
pub record InUse (t : Arenas) (h : ℕ) (a : Arena) (bytes : Bytes) : Type 0 where
  pub there : get_elem? t.slots h ≡ some a
  pub live : a.bytes ≡ some bytes

-- On an arena in use with room for `n` and then `m` bytes more, less than 2^63 bytes in all, two
-- allocations in a row succeed: the first range begins at the top of the arena, and the second where
-- the first ends.
pub arena_alloc-arena_alloc :
    (h n m : ℕ) (t : Arenas) {a : Arena} {bytes : Bytes}
    → InUse t h a bytes
    → n < 2 ^ 63
    → m < 2 ^ 63
    → a.top + n + m ≤ a.size
    → a.size < 2 ^ 63
    → (t' : Arenas) × (t'' : Arenas) × (arena_alloc h n t ≡ returns a.top t')
      × (arena_alloc h m t' ≡ returns (a.top + n) t'')
unfolding arena_alloc alloc_in with_arena put_arena
arena_alloc-arena_alloc h n m t {a} {bytes} u small tiny fits bound =
    let first = record a { top = a.top + n } in
    let second = record a { top = a.top + n + m } in
    let t' = put_arena h first t in
    let there : get_elem? t'.slots h ≡ some first =
      get_elem?-set_elem t.slots h first (get_elem?-length t.slots h u.there) in
    let p1 : leb (2 ^ 63) n ≡ false = ground arith in
    let p2 : leb (2 ^ 63) (a.top + n) ≡ false = ground arith in
    let p3 : ltb a.size (a.top + n) ≡ false = ground arith in
    let q1 : leb (2 ^ 63) m ≡ false = ground arith in
    let q2 : leb (2 ^ 63) (a.top + n + m) ≡ false = ground arith in
    let q3 : ltb a.size (a.top + n + m) ≡ false = ground arith in
    (t', put_arena h second t', rw (u.there, u.live, p1, p2, p3), rw (there, u.live, q1, q2, q3))
