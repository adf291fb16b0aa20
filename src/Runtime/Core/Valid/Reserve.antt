-- ===== src/Runtime/Core/Valid/Reserve.antt =====
-- What `dmc_ensure_capacity` and `dmc_reserve` leave in the table of handles.
use demonic_c.Base.{
  ℕ, ◌+◌, ◌-◌, ◌≤◌, ◌<◌, ◌≡◌, ◌≢◌, refl, sym, ap, ◌∙◌, Bool, List, [], ◌++◌, append-nil, Option,
  none, some, if_intro, ltb, leb, length, get_elem?, replicate, arith, length-append,
  length-replicate, get_elem?-set_elem, get_elem?-set_elem_other, get_elem?-append,
}
use demonic_c.Text.{codes}
use demonic_c.Runtime.Core.{
  dmc_none, same_kind, Slot, max_handles, Table, empty_slot, fail, new_capacity, at_least_min,
  ensure_capacity, put_slot, reserve_in, reserve,
}
use demonic_c.Runtime.Core.Valid.{
  IsSound, IsTable, set_error-IsTable, grow-IsTable, put_slot-IsTable, new_capacity-bounds,
}

module _ {F : Type 0} where
  -- What `dmc_ensure_capacity` leaves: room, with the same slots in front and the same number used, or
  -- a valid table still.
  pub data Ensured (needed : ℕ) (t : Table F) : Option (Unit {0}) × Table F → Type 0 where
    room :
        {a : Unit {0}} {t' : Table F}
        → IsTable t'
        → needed ≤ length t'.slots
        → t'.used ≡ t.used
        → (more : List (Slot F)) → t'.slots ≡ t.slots ++ more
        → Ensured needed t (some a, t')
    no_room : {t' : Table F} → IsTable t' → Ensured needed t (none, t')

  pub ensure_capacity-Ensured :
      (grown : Bool) (needed : ℕ) (t : Table F)
      → IsTable t
      → Ensured needed t (ensure_capacity grown needed t)
  unfolding ensure_capacity fail
  ensure_capacity-Ensured grown needed t v =
      if_intro (Ensured needed t) (ltb max_handles (at_least_min needed))
        (λ _. no_room (set_error-IsTable (codes "handle table would exceed maximum size") t v))
        λ small.
          if_intro (Ensured needed t) (leb (at_least_min needed) (length t.slots))
            (λ fits. room v (ground arith) refl [] (sym (append-nil t.slots)))
            λ full.
              if_intro (Ensured needed t) grown
                (λ _.
                  let n = at_least_min needed in
                  let enough : needed ≤ n = ground arith in
                  let bounds =
                    new_capacity-bounds (length t.slots) n (ground arith) (ground arith) in
                  let c = new_capacity (length t.slots) n in
                  let more = replicate (c - length t.slots) (empty_slot {F = F}) in
                  room (grow-IsTable c t (ground (arith, bounds)) bounds.1 v)
                    (omega (
                      arith,
                      bounds,
                      length-append t.slots more,
                      length-replicate (c - length t.slots) (empty_slot {F = F}),
                    ))
                    refl more refl)
                (λ _. no_room (set_error-IsTable (codes "out of memory growing handle table") t v))

  -- What `dmc_reserve` of a valid slot leaves: the slot behind a handle that was free, or a valid table
  -- still.
  pub data Reserved (slot : Slot F) (t : Table F) : Option ℕ × Table F → Type 0 where
    reserved :
        {h : ℕ} {t' : Table F}
        → IsTable t'
        → h ≡ t.used
        → t'.used ≡ t.used + 1
        → get_elem? t'.slots h ≡ some slot
        → ((i : ℕ) (s : Slot F)
            → i ≢ h
            → get_elem? t.slots i ≡ some s
            → get_elem? t'.slots i ≡ some s)
        → Reserved slot t (some h, t')
    refused : {t' : Table F} → IsTable t' → Reserved slot t (none, t')

  put_slot-Reserved :
      (slot : Slot F) (t : Table F) {a : Unit {0}} {t₁ : Table F}
      → IsSound slot
      → Ensured (t.used + 1) t (some a, t₁)
      → Reserved slot t (some t₁.used, put_slot slot t₁)
  unfolding put_slot
  put_slot-Reserved slot t {t₁ = t₁} s (room v enough same more whole) =
      let inside : t₁.used < length t₁.slots = omega arith in
      reserved (put_slot-IsTable slot t₁ s inside v) same (omega arith)
        (get_elem?-set_elem t₁.slots t₁.used slot inside)
        λ i old other e.
          get_elem?-set_elem_other t₁.slots t₁.used i slot (λ p. other (sym p))
          ∙ (ap (λ xs. get_elem? xs i) whole ∙ get_elem?-append t.slots more i e)

  pub reserve-Reserved :
      (grown : Bool) (slot : Slot F) (t : Table F)
      → IsSound slot
      → IsTable t
      → Reserved slot t (reserve grown slot t)
  unfolding reserve
  reserve-Reserved grown slot t s v =
      if_intro (Reserved slot t) (same_kind slot.kind dmc_none)
        (λ _. refused (set_error-IsTable (codes "invalid handle kind") t v))
        λ _. reserve_in-Reserved slot t s (ensure_capacity-Ensured grown (t.used + 1) t v)
    where
      reserve_in-Reserved :
          (slot : Slot F) (t : Table F) {r : Option (Unit {0}) × Table F}
          → IsSound slot
          → Ensured (t.used + 1) t r
          → Reserved slot t (reserve_in slot r)
      reserve_in-Reserved slot t s (room v enough same more whole) =
          put_slot-Reserved slot t s (room v enough same more whole)
      reserve_in-Reserved slot t s (no_room v) = refused v
