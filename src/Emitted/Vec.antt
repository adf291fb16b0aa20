-- ===== src/Emitted/Vec.antt =====
-- The vectors of the emitted C, `vec_new` to `vec_free` in `emit_runtime` of compiler/dmc.cpp.
use demonic_c.Base.{
  ℕ, ◌*◌, ◌^◌, ◌<◌, ◌≡◌, ◌≢◌, sym, inl, inr, Bool, true, false, ◌||◌, List, [], ◌∷◌, ◌++◌, Option,
  none, some, if◌then◌else◌, leb, ◌==◌, length, get_elem?, set_elem, arith, Bool-cases,
  get_elem?-set_elem, get_elem?-set_elem_other, get_elem?-length, get_elem?-append_last,
  get_elem?-append,
}
use demonic_c.Emitted.Handles.{
  Effect, returns, undefined, to_int, minus_one, Handles, new, with_object, with_checked,
  put_object,
}

-- `data` with its `len` elements, and `cap`.
pub record Vec : Type 0 where
  pub items : List ℕ
  pub capacity : ℕ

abbrev pub Call : Type 0
Call = Handles Vec → Effect (Handles Vec) ℕ

-- `allocated` and `grown` tell whether `calloc` and `realloc` succeed.
unfoldable pub vec_new : Bool → Bool → Call
unfolding new
vec_new allocated grown = new allocated grown (record { items = []; capacity = 0 })

unfoldable pub vec_len : ℕ → Call
unfolding with_checked
vec_len handle = with_checked handle (λ v t. returns (to_int (length v.items)) t)

abbrev pub larger : ℕ → ℕ
larger capacity = if capacity == 0 then 4 else capacity * 2

-- `v->data[v->len++] = x`, behind a `realloc` where the vector is full. The source does not look at the
-- result of `realloc`, and writes to the null pointer.
unfoldable pub push_in : Bool → ℕ → ℕ → Vec → Call
unfolding put_object
push_in grown handle x v t =
    if length v.items == v.capacity
    then (if grown
        then returns 0 (
            put_object handle
              (some (record { items = v.items ++ (x ∷ []); capacity = larger v.capacity })) t)
        else undefined)
    else returns 0 (put_object handle (some (record v { items = v.items ++ (x ∷ []) })) t)

unfoldable pub vec_push : Bool → ℕ → ℕ → Call
unfolding with_object push_in
vec_push grown handle x = with_object handle (push_in grown handle x)

-- The element, which an `int` holds on the way out, if `i` is in range.
abbrev pub element : Option ℕ → ℕ
element none = minus_one
element (some x) = to_int x

abbrev pub out_of_range : ℕ → List ℕ → Bool
out_of_range i items = leb (2 ^ 63) i || leb (length items) i

unfoldable pub get_in : ℕ → Vec → Call
get_in i v t =
    if out_of_range i v.items
    then returns minus_one t
    else returns (element (get_elem? v.items i)) t

unfoldable pub vec_get : ℕ → ℕ → Call
unfolding with_object get_in
vec_get handle i = with_object handle (get_in i)

unfoldable pub set_in : ℕ → ℕ → ℕ → Vec → Call
unfolding put_object set_elem
set_in handle i x v t =
    if out_of_range i v.items
    then returns minus_one t
    else returns 0 (put_object handle (some (record v { items = set_elem v.items i x })) t)

unfoldable pub vec_set : ℕ → ℕ → ℕ → Call
unfolding with_object set_in
vec_set handle i x = with_object handle (set_in handle i x)

unfoldable pub vec_free : ℕ → Call
unfolding with_object put_object
vec_free handle = with_object handle (λ v t. returns 0 (put_object handle none t))

-- A vector that is in use, by its elements.
pub record HasItems (t : Handles Vec) (h : ℕ) (xs : List ℕ) : Type 0 where
  pub capacity : ℕ
  pub there : get_elem? t.objects h ≡ some (some (record { items = xs; capacity = capacity }))

put_object-HasItems :
    (t : Handles Vec) (h c : ℕ) {xs : List ℕ} (ys : List ℕ)
    → HasItems t h xs
    → HasItems (put_object h (some (record { items = ys; capacity = c })) t) h ys
unfolding put_object
put_object-HasItems t h c ys v = record {
  capacity = c;
  there = get_elem?-set_elem t.objects h _ (get_elem?-length t.objects h v.there);
}

put_object-others :
    (t : Handles Vec) (h : ℕ) (v : Option Vec) (g : ℕ)
    → g ≢ h
    → get_elem? (put_object h v t).objects g ≡ get_elem? t.objects g
unfolding put_object
put_object-others t h v g apart = get_elem?-set_elem_other t.objects h g v (λ p. apart (sym p))

-- What a push leaves: the vector with one more element, and every other object as it was.
pub record Pushed (h x : ℕ) (xs : List ℕ) (t t' : Handles Vec) : Type 0 where
  pub grew : HasItems t' h (xs ++ (x ∷ []))
  pub others : (g : ℕ) → g ≢ h → get_elem? t'.objects g ≡ get_elem? t.objects g

-- Where `realloc` succeeds, `vec_push` on a vector in use returns 0, appends the value to the elements
-- of the vector, and changes no other vector.
pub vec_push-Pushed :
    (h x : ℕ) (t : Handles Vec) {xs : List ℕ}
    → HasItems t h xs
    → (t' : Handles Vec) × (vec_push true h x t ≡ returns 0 t') × Pushed h x xs t t'
unfolding vec_push push_in with_object
vec_push-Pushed h x t {xs} v = elim (Bool-cases (length xs == v.capacity)) [
  | inl full ↦ (
    put_object h (some (record { items = xs ++ (x ∷ []); capacity = larger v.capacity })) t,
    rw (v.there, full),
    record { grew = put_object-HasItems t h _ _ v; others = put_object-others t h _ },
  )
  | inr room ↦ (
    put_object h (some (record { items = xs ++ (x ∷ []); capacity = v.capacity })) t,
    rw (v.there, room),
    record { grew = put_object-HasItems t h _ _ v; others = put_object-others t h _ },
  )
]

vec_get-HasItems :
    (h i : ℕ) (t : Handles Vec) {xs : List ℕ} {x : ℕ}
    → HasItems t h xs
    → i < 2 ^ 63
    → get_elem? xs i ≡ some x
    → vec_get h i t ≡ returns (to_int x) t
unfolding vec_get get_in with_object
vec_get-HasItems h i t {xs} {x} v small e =
    let positive : leb (2 ^ 63) i ≡ false = ground arith in
    let bound : i < length xs = get_elem?-length xs i e in
    let inside : leb (length xs) i ≡ false = ground arith in rw (v.there, positive, inside, e)

-- Behind a push, `vec_get` at the old length gives the low 32 bits of the value that was pushed, and at
-- every smaller index the low 32 bits of the element that was there before, for a vector of less than
-- 2^63 elements.
pub vec_get-vec_push :
    (h x : ℕ) (t : Handles Vec) {xs : List ℕ}
    → HasItems t h xs
    → length xs < 2 ^ 63
    → (t' : Handles Vec) × (vec_push true h x t ≡ returns 0 t')
      × (vec_get h (length xs) t' ≡ returns (to_int x) t')
      × ((i y : ℕ) → get_elem? xs i ≡ some y → vec_get h i t' ≡ returns (to_int y) t')
vec_get-vec_push h x t {xs} v small =
    let (t', e, p) = vec_push-Pushed h x t v in
    (
      t',
      e,
      vec_get-HasItems h (length xs) t' p.grew small (get_elem?-append_last xs x),
      λ i y there.
          let bound : i < length xs = get_elem?-length xs i there in
          vec_get-HasItems h i t' p.grew (omega arith) (get_elem?-append xs (x ∷ []) i there),
    )
