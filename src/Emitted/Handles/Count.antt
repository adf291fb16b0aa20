-- ===== src/Emitted/Handles/Count.antt =====
-- How many handles `vec_new`, `queue_new` and `map_new` of the emitted C give out.
use demonic_c.Base.{
  ℕ, zero, suc, ◌+◌, ◌<◌, ◌≡◌, refl, subst, ap, ◌∙◌, false, true, some, ltb, leb, length, set_elem,
  length-set_elem, arith,
}
use demonic_c.Emitted.Handles.{Effect, returns, undefined, Handles, no_objects, new}

module _ {A : Type 0} (fresh : A) where
  -- A further call, where the allocations succeed.
  abbrev pub again : Effect (Handles A) ℕ → Effect (Handles A) ℕ
  again (returns h t) = new true true fresh t
  again undefined = undefined

  -- The last of a number of calls behind the first, from the empty table.
  unfoldable pub calls : ℕ → Effect (Handles A) ℕ
  unfolding new
  calls zero = new true true fresh no_objects
  calls (suc n) = again (calls n)

  -- The 64 places of the first allocation, with that handle to come.
  record IsFirst (next : ℕ) (t : Handles A) : Type 0 where
    places : length t.objects ≡ 64
    number : t.next ≡ next

  data Gives (h : ℕ) : Effect (Handles A) ℕ → Type 0 where
    gives : {k : ℕ} {t : Handles A} → k ≡ h → IsFirst (h + 1) t → Gives h (returns k t)

  new-Gives : (h : ℕ) (t : Handles A) → h < 64 → IsFirst h t → Gives h (new true true fresh t)
  unfolding new
  new-Gives h t low v =
      let few : leb 2147483647 t.next ≡ false = ground (arith, low, v.number) in
      let enough : leb t.next (length t.objects) ≡ true = ground (arith, low, v.number, v.places) in
      let inside : ltb t.next (length t.objects) ≡ true = ground (arith, low, v.number, v.places) in
      let kept : length (set_elem t.objects t.next (some fresh)) ≡ length t.objects =
        length-set_elem t.objects t.next (some fresh) in
      rw (few, enough, inside)
        (gives v.number (record { places = kept ∙ v.places; number = omega (arith, v.number) }))

  calls-Gives : (n : ℕ) → n < 63 → Gives (n + 1) (calls n)
  unfolding calls new set_elem
  calls-Gives zero low = gives refl (record { places = refl; number = refl })
  calls-Gives (suc n) low = once_more (calls-Gives n (omega (arith, low)))
    where
      once_more : {e : Effect (Handles A) ℕ} → Gives (n + 1) e → Gives (suc n + 1) (again e)
      once_more (gives {t = t} same v) =
          subst (λ h. Gives h (new true true fresh t)) (omega arith)
            (new-Gives (n + 1 + 1) t (omega (arith, low)) v)

  again-last : {e : Effect (Handles A) ℕ} → Gives 63 e → again e ≡ undefined
  unfolding new
  again-last (gives {t = t} same v) =
      let few : leb 2147483647 t.next ≡ false = ground (arith, v.number) in
      let enough : leb t.next (length t.objects) ≡ true = ground (arith, v.number, v.places) in
      let behind : ltb t.next (length t.objects) ≡ false = ground (arith, v.number, v.places) in
      rw (few, enough, behind) refl

  -- Of the calls of `new` on an empty table, where the allocations succeed, the first 63 give the handles
  -- from 1 to 63, and the behaviour of the 64th is undefined.
  pub calls_end :
      (n : ℕ) → n < 63 → (t : Handles A) × (calls n ≡ returns (n + 1) t) × (calls 63 ≡ undefined)
  unfolding calls
  calls_end n low = given (calls-Gives n low)
    where
      given :
          {e : Effect (Handles A) ℕ}
          → Gives (n + 1) e
          → (t : Handles A) × (e ≡ returns (n + 1) t) × (calls 63 ≡ undefined)
      given (gives {t = t} same v) =
          (t, ap (λ k. returns k t) same, again-last (calls-Gives 62 (omega arith)))
