-- ===== src/Emitted/Handles.antt =====
-- The tables of handles that the emitted C keeps for vectors, queues and maps: `_dmc_resize_vec`,
-- `vec_new` and the guards of the other functions, and the same for `queue` and `map`.
pub mod Count
use demonic_c.Base.{
  ℕ, ◌+◌, ◌-◌, ◌*◌, ◌^◌, ◌%◌, ◌≤◌, ◌<◌, ◌≡◌, ◌⊎◌, inr, refl, Bool, List, [], ◌++◌, Option, none,
  some, if◌then◌else◌, if_intro, ltb, leb, ◌==◌, length, get_elem?, set_elem, length-set_elem,
  replicate, length-replicate, length-append, arith,
}

-- What a C function does: it returns, with the memory it leaves, or its behaviour is undefined.
pub data Effect (T A : Type 0) : Type 0 where
  returns : A → T → Effect T A
  undefined : Effect T A

-- The `int` of a number.
abbrev pub to_int : ℕ → ℕ
to_int n = n % 2 ^ 32

abbrev pub minus_one : ℕ
minus_one = 4294967295

-- `_dmc_vecs` with its `_dmc_vec_cap` pointers, where `none` is null, and `_dmc_vec_next`.
pub record Handles (A : Type 0) : Type 0 where
  pub objects : List (Option A)
  pub next : ℕ

abbrev pub no_objects : {A : Type 0} → Handles A
no_objects = record { objects = []; next = 1 }

abbrev pub resized_to : ℕ → ℕ → ℕ
resized_to capacity need =
    let doubled = if capacity == 0 then 64 else capacity * 2 in
    if ltb doubled need then need else doubled

module _ {A : Type 0} where
  -- `grown` tells whether `realloc` succeeds.
  unfoldable pub resize : Bool → ℕ → List (Option A) → Option (List (Option A))
  resize grown need objects =
      if leb need (length objects)
      then some objects
      else if grown
      then some (objects ++ replicate (resized_to (length objects) need - length objects) none)
      else none

  -- `_dmc_vecs[h] = v` behind the call of `_dmc_resize_vec`. `_dmc_vec_next` is one ahead by then.
  unfoldable pub place : A → ℕ → Handles A → Option (List (Option A)) → Effect (Handles A) ℕ
  unfolding set_elem
  place fresh handle t none = returns minus_one (record t { next = handle + 1 })
  place fresh handle t (some objects) =
      if ltb handle (length objects)
      then returns handle
          (record { objects = set_elem objects handle (some fresh); next = handle + 1 })
      else undefined

  -- `allocated` tells whether `calloc` succeeds. The number of the next handle is an `int`.
  unfoldable pub new : Bool → Bool → A → Handles A → Effect (Handles A) ℕ
  unfolding resize place
  new allocated grown fresh t =
      if allocated
      then (if leb 2147483647 t.next
          then undefined
          else place fresh t.next t (resize grown t.next t.objects))
      else returns minus_one t

  abbrev pub on_object :
      (A → Handles A → Effect (Handles A) ℕ) → Handles A → Option (Option A) → Effect (Handles A) ℕ
  on_object k t none = undefined
  on_object k t (some none) = returns minus_one t
  on_object k t (some (some v)) = k v t

  -- `_dmc_vec *v = _dmc_vecs[h]; if (!v) return -1;`, where a handle out of range is not looked for.
  unfoldable pub with_object :
      ℕ → (A → Handles A → Effect (Handles A) ℕ) → Handles A → Effect (Handles A) ℕ
  with_object handle k t = on_object k t (get_elem? t.objects handle)

  -- The same where a handle out of range gives -1.
  unfoldable pub with_checked :
      ℕ → (A → Handles A → Effect (Handles A) ℕ) → Handles A → Effect (Handles A) ℕ
  with_checked handle k t =
      if leb (2 ^ 63) handle
      then returns minus_one t
      else if leb (length t.objects) handle
      then returns minus_one t
      else on_object k t (get_elem? t.objects handle)

  -- `*v = …`, seen from the table.
  unfoldable pub put_object : ℕ → Option A → Handles A → Handles A
  unfolding set_elem
  put_object handle v t = record t { objects = set_elem t.objects handle v }

  -- The table has not been allocated yet, or has its first 64 places and has given out no more.
  abbrev pub IsHandles : Handles A → Type 0
  IsHandles t = (length t.objects ≡ 0) ⊎ ((length t.objects ≡ 64) × (t.next ≤ 64))

  -- What `new` does: it gives the next handle, which is below 64, or none.
  pub data Given (t : Handles A) : Effect (Handles A) ℕ → Type 0 where
    given : {h : ℕ} {t' : Handles A} → h ≡ t.next → h < 64 → IsHandles t' → Given t (returns h t')
    not_given : {t' : Handles A} → IsHandles t' → Given t (returns minus_one t')
    behind : Given t undefined

  place-Given :
      (fresh : A) (objects : List (Option A)) (t : Handles A)
      → (t.next < length objects → length objects ≡ 64)
      → Given t (place fresh t.next t (some objects))
  unfolding place
  place-Given fresh objects t h =
      if_intro (Given t) (ltb t.next (length objects))
        (λ e.
          let inside : t.next < length objects = ground arith in
          let size : length objects ≡ 64 = h inside in
          let same : length (set_elem objects t.next (some fresh)) ≡ length objects =
            length-set_elem objects t.next (some fresh) in
          given refl (omega arith) (inr (omega arith, omega arith)))
        (λ e. behind)

  resize-Given :
      (grown : Bool) (fresh : A) (t : Handles A)
      → IsHandles t
      → Given t (place fresh t.next t (resize grown t.next t.objects))
  unfolding resize place
  resize-Given grown fresh t v =
      if_intro (λ o. Given t (place fresh t.next t o)) (leb t.next (length t.objects))
        (λ e. place-Given fresh t.objects t (λ inside. ground (arith, v)))
        λ e.
          if_intro (λ o. Given t (place fresh t.next t o)) grown
            (λ _.
              let more = resized_to (length t.objects) t.next - length t.objects in
              let pads : List (Option A) = replicate more none in
              let padded = t.objects ++ pads in
              let size : length padded ≡ length t.objects + length pads =
                length-append t.objects pads in
              let pad : length pads ≡ more = length-replicate more none in
              place-Given fresh padded t (λ inside. ground (arith, v)))
            (λ _. not_given (ground (arith, v)))

  -- From a valid table, whether the allocations succeed or not, `new` leaves a valid table and returns
  -- -1 or the next handle, which is below 64, or its behaviour is undefined.
  new-Given :
      (allocated grown : Bool) (fresh : A) (t : Handles A)
      → IsHandles t
      → Given t (new allocated grown fresh t)
  unfolding new
  new-Given allocated grown fresh t v =
      if_intro (Given t) allocated
        (λ _.
          if_intro (Given t) (leb 2147483647 t.next) (λ _. behind)
            (λ _. resize-Given grown fresh t v))
        (λ _. not_given v)
