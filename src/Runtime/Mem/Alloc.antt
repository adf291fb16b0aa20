-- ===== src/Runtime/Mem/Alloc.antt =====
-- New buffers of runtime/mem/dmc_mem.c.
use demonic_c.Base.{
  ℕ, ◌<◌, ◌≡◌, ◌≢◌, refl, sym, ap, ◌∙◌, Bool, true, Option, none, some, get_elem?, replicate, arith,
  length-replicate, get_elem?-replicate, ltb, ◌==◌, ◌||◌, if_intro,
}
use demonic_c.Runtime.Core.{dmc_memory, buffer, Slot, Table, fail}
use demonic_c.Runtime.Core.Valid.{IsTable}
use demonic_c.Runtime.Core.Valid.Reserve.{Reserved, reserved, refused, reserve-Reserved}
use demonic_c.Runtime.Mem.{max_size, mem_alloc, mem_read}
use demonic_c.Runtime.Mem.Laws.{mem_read-Buffer}

module _ {F : Type 0} where
  -- A buffer that was just allocated.
  new_slot : ℕ → Slot F
  new_slot n = record { kind = dmc_memory; value = buffer (replicate n 0); size = n }

  -- What an allocation leaves: a refusal with no handle, or a handle that was not in use.
  data Allocated (n : ℕ) (t : Table F) : Option ℕ × Table F → Type 0 where
    no_handle : {t' : Table F} → Allocated n t (none, t')
    fresh :
        {h : ℕ} {t' : Table F}
        → h ≡ t.used
        → get_elem? t'.slots h ≡ some (new_slot n)
        → ((g : ℕ) (s : Slot F)
            → g ≢ h
            → get_elem? t.slots g ≡ some s
            → get_elem? t'.slots g ≡ some s)
        → Allocated n t (some h, t')

  Reserved-Allocated :
      (n : ℕ) (t : Table F) {r : Option ℕ × Table F} → Reserved (new_slot n) t r → Allocated n t r
  Reserved-Allocated n t (reserved v new _ there others) = fresh new there others
  Reserved-Allocated n t (refused v) = no_handle

  mem_alloc-Allocated :
      (allocated grown : Bool) (n : ℕ) (t : Table F)
      → IsTable t
      → Allocated n t (mem_alloc allocated grown n t)
  unfolding mem_alloc fail new_slot
  mem_alloc-Allocated allocated grown n t v =
      if_intro (Allocated n t) (n == 0 || ltb max_size n) (λ _. no_handle)
        λ _.
          if_intro (Allocated n t) allocated
            (λ _.
              Reserved-Allocated n t
                (reserve-Reserved grown (new_slot n) t (length-replicate n 0) v))
            (λ _. no_handle)

  Allocated-zero :
      {n : ℕ} {t t' : Table F} {h : ℕ} {r : Option ℕ × Table F}
      → Allocated n t r
      → r ≡ (some h, t')
      → (h ≡ t.used) × (get_elem? t'.slots h ≡ some (new_slot n))
  Allocated-zero no_handle e = absurd (cc (ap (λ (r : Option ℕ × Table F). r.0) e))
  Allocated-zero {n} {t} {t'} {h} (fresh {h = k} {t' = u} new there others) e =
      let same : some k ≡ some h = ap (λ (r : Option ℕ × Table F). r.0) e in
      let table : u ≡ t' = ap (λ (r : Option ℕ × Table F). r.1) e in
      let key : k ≡ h = cc same in (sym key ∙ new, cc (there, key, table))

  -- Where `dmc_mem_alloc` succeeds on a valid table, the handle is the first unused one, and each byte of
  -- the buffer, up to the size asked for, reads as 0.
  pub mem_alloc-zeros :
      (allocated grown : Bool) (n : ℕ) (t : Table F) (h : ℕ) (t' : Table F) (i : ℕ)
      → IsTable t
      → mem_alloc allocated grown n t ≡ (some h, t')
      → i < n
      → (h ≡ t.used) × (mem_read true h i t' ≡ (some 0, t'))
  unfolding new_slot
  mem_alloc-zeros allocated grown n t h t' i v e inside =
      let new = Allocated-zero (mem_alloc-Allocated allocated grown n t v) e in
      (
        new.0,
        mem_read-Buffer h i t' (record { there = new.1; kind = refl }) (ground arith)
            (get_elem?-replicate n 0 i inside),
      )
