-- ===== src/Emitted/Memory/Valid.antt =====
-- Valid buffers of the emitted C, and the steps that keep them so.
use demonic_c.Base.{
  if◌then◌else◌, ◌||◌, ◌&&◌, not, ◌==◌, ℕ, zero, suc, ◌+◌, ◌-◌, ◌≤◌, ◌<◌, ◌≡◌, inl, inr, refl,
  subst, Bool, true, false, List, [], ◌∷◌, ◌++◌, some, ltb, leb, length, get_elem?, set_elem,
  replicate, length-append, length-replicate, if_intro, Option-cases, All, All-append, arith,
}
use demonic_c.Text.{Bytes}
use demonic_c.Emitted.Handles.{Effect, returns, minus_one}
use demonic_c.Emitted.Memory.{
  Pointer, null, allocated, mapped, Buffer, Memory, no_buffer, Call, new_cap, resize_mem, Resize,
  fits, fails, dangles, resize_files, with_buffers, ensure, give, take_handle, is_negative,
  with_place, put_buffer,
}

-- A pointer that can be used with that size: a null pointer, which `mem_write` and `mem_read` do not
-- follow whatever the size, or as many bytes of `calloc` or of the program's own.
pub data IsPointer (size : ℕ) : Pointer → Type 0 where
  is_null : IsPointer size null
  is_allocated : {bytes : Bytes} → length bytes ≡ size → IsPointer size (allocated bytes)
  is_mapped : {bytes : Bytes} → length bytes ≡ size → IsPointer size (mapped bytes)

abbrev pub IsBuffer : Buffer → Type 0
IsBuffer b = IsPointer b.size b.pointer

abbrev pub IsMemory : Memory → Type 0
IsMemory t = (t.dangling ≡ false) × All IsBuffer t.buffers

-- A call that returns, with valid buffers and at most one handle more.
pub data Keeps (t : Memory) : Effect Memory ℕ → Type 0 where
  keeps : {r : ℕ} {t' : Memory} → IsMemory t' → t'.next ≤ t.next + 1 → Keeps t (returns r t')

All-set_elem :
    (bs : List Buffer) (h : ℕ) (b : Buffer)
    → All IsBuffer bs
    → IsBuffer b
    → All IsBuffer (set_elem bs h b)
unfolding set_elem
All-set_elem [] h b all v = tt
All-set_elem (x ∷ bs) zero b (p, ps) v = (v, ps)
All-set_elem (x ∷ bs) (suc h) b (p, ps) v = (p, All-set_elem bs h b ps v)

All-replicate : (n : ℕ) → All IsBuffer (replicate n no_buffer)
All-replicate zero = tt
All-replicate (suc n) = (is_null, All-replicate n)

-- The places behind `_dmc_resize_mem`, where its calls of `realloc` both succeed or both fail.
data Resized (need : ℕ) : Resize → Type 0 where
  resized : {bs : List Buffer} → need ≤ length bs → All IsBuffer bs → Resized need (fits bs)
  unchanged : Resized need fails

grown_mem-Resized :
    (grown : Bool) (need : ℕ) (bs : List Buffer)
    → leb need (length bs) ≡ false
    → All IsBuffer bs
    → Resized need (
        if grown && grown
        then fits (bs ++ replicate (new_cap (length bs) need - length bs) no_buffer)
        else if (grown || grown) && not (length bs == 0)
        then dangles
        else fails)
grown_mem-Resized true need bs e all =
    let more = new_cap (length bs) need - length bs in
    let pads : List Buffer = replicate more no_buffer in
    let size : length (bs ++ pads) ≡ length bs + length pads = length-append bs pads in
    let pad : length pads ≡ more = length-replicate more no_buffer in
    resized (ground arith) (All-append IsBuffer bs pads all (All-replicate more))
grown_mem-Resized false need bs e all = unchanged

resize_mem-Resized :
    (grown : Bool) (need : ℕ) (bs : List Buffer)
    → All IsBuffer bs
    → Resized need (resize_mem grown grown need bs)
unfolding resize_mem
resize_mem-Resized grown need bs all =
    if_intro (Resized need) (leb need (length bs)) (λ e. resized (ground arith) all)
      (λ e. grown_mem-Resized grown need bs e all)

module _ (t : Memory) (b : Buffer) (v : IsBuffer b) where
  give-Keeps :
      (h : ℕ) (r : Bool × Memory)
      → IsMemory r.1
      → r.1.next ≤ t.next + 1
      → (r.0 ≡ true → h < length r.1.buffers)
      → Keeps t (give b h r)
  unfolding set_elem
  give-Keeps h (false, u) all n room = keeps all n
  give-Keeps h (true, u) all n room =
      let inside : ltb h (length u.buffers) ≡ true = let lt = room refl in ground arith in
      rw inside (keeps (all.0, All-set_elem u.buffers h b all.1 v) n)

  ensured-Keeps :
      (files_grown : Bool) (h : ℕ) (u : Memory) {o : Resize}
      → IsMemory u
      → u.next ≤ t.next + 1
      → Resized (h + 1) o
      → Keeps t (give b h (with_buffers files_grown h u o))
  ensured-Keeps files_grown h u all n unchanged = keeps all n
  ensured-Keeps files_grown h u all n (resized {bs} room all') =
      elim (Option-cases (resize_files files_grown (h + 1) u.file_slots)) [
        | inl e ↦ rw e (keeps (all.0, all') n)
        | inr (slots, e) ↦ rw e (
            give-Keeps h (true, record u { buffers = bs; file_slots = slots }) (all.0, all') n
              (λ _. omega (arith, room)))
      ]

  pub take_handle-Keeps :
      (grown files_grown : Bool)
      → IsMemory t
      → t.next < 2147483647
      → Keeps t (take_handle grown grown files_grown b t)
  unfolding take_handle ensure
  take_handle-Keeps grown files_grown all few =
      let in_range : leb 2147483647 t.next ≡ false = ground (arith, few) in
      if_intro (Keeps t) (leb 2147483647 t.next || t.dangling)
        (λ e. absurd (cc (rw (in_range, all.0) at e)))
        (λ _.
          ensured-Keeps files_grown t.next (record t { next = t.next + 1 }) all (omega arith)
            (resize_mem-Resized grown (t.next + 1) t.buffers all.1))

get_elem?-All :
    (bs : List Buffer) (h : ℕ) {b : Buffer} → All IsBuffer bs → get_elem? bs h ≡ some b → IsBuffer b
get_elem?-All [] h all e = absurd (cc e)
get_elem?-All (x ∷ bs) zero (p, ps) e = let same : x ≡ _ = cc e in subst IsBuffer same p
get_elem?-All (x ∷ bs) (suc h) (p, ps) e = get_elem?-All bs h ps e

module _ (t : Memory) (all : IsMemory t) where
  pub returned : (r : ℕ) → Keeps t (returns r t)
  returned r = keeps all (omega arith)

  pub with_place-Keeps :
      (h : ℕ) (k : Buffer → Call)
      → ((b : Buffer) → IsBuffer b → get_elem? t.buffers h ≡ some b → Keeps t (k b t))
      → Keeps t (with_place h k t)
  unfolding with_place
  with_place-Keeps h k each =
      if_intro (Keeps t) (is_negative h) (λ _. returned minus_one)
        (λ _. elim (Option-cases (get_elem? t.buffers h)) [
          | inl e ↦ rw e (returned minus_one)
          | inr (b, e) ↦ rw e (
              if_intro (Keeps t) t.dangling (λ freed. absurd (cc (freed, all.0)))
                (λ _. each b (get_elem?-All t.buffers h all.1 e) e))
        ])

  pub put_buffer-Keeps :
      (h : ℕ) (b : Buffer) (r : ℕ) → IsBuffer b → Keeps t (returns r (put_buffer h b t))
  unfolding put_buffer
  put_buffer-Keeps h b r v = keeps (all.0, All-set_elem t.buffers h b all.1 v) (omega arith)
