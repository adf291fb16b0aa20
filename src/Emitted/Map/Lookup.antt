-- ===== src/Emitted/Map/Lookup.antt =====
-- The maps of the emitted C keep the last value of each key.
use demonic_c.Base.{
  ℕ, ◌+◌, ◌%◌, ◌<◌, ◌≡◌, ◌≢◌, ◌⊎◌, ◌∙◌, sym, ap, subst, inl, inr, refl, true, List, [], ◌∷◌, Option,
  none, some, ◌==◌, length, get_elem?, set_elem, replicate, arith, Bool-cases, get_elem?-set_elem,
  get_elem?-set_elem_other, get_elem?-length, length-set_elem, get_elem?-some, get_elem?-replicate,
}
use native.Mathlib.Nat.{mod-lt}
use demonic_c.Emitted.Handles.{Effect, returns, undefined, to_int, Handles, with_object, put_object}
use demonic_c.Emitted.Vec.{element}
use demonic_c.Emitted.Map.{Chain, Map, find, with_node, set_bucket, set_in, map_set, map_get}
use demonic_c.Emitted.Map.Chains.{Holds, front-Holds, Replaced, absent, replaced, replace-Replaced}

-- The value of a key in a table of buckets.
abbrev found_in : ℕ → Option Chain → Option ℕ
found_in k none = none
found_in k (some c) = find k c

abbrev value_of : ℕ → ℕ → List Chain → Option ℕ
value_of capacity k buckets = found_in k (get_elem? buckets (k % capacity))

-- The value of a key in a map.
abbrev looked_up : ℕ → ℕ → Option (List Chain) → Option ℕ
looked_up capacity k none = none
looked_up capacity k (some buckets) = value_of capacity k buckets

abbrev lookup : Map → ℕ → Option ℕ
lookup m k = looked_up m.capacity k m.buckets

-- A map that has no buckets yet, or one for each remainder.
pub record Bucketed (m : Map) (buckets : List Chain) : Type 0 where
  pub filled : m.buckets ≡ some buckets
  pub size : length buckets ≡ m.capacity
  pub positive : 0 < m.capacity

abbrev pub IsMap : Map → Type 0
IsMap m = (m.buckets ≡ none) ⊎ ((buckets : List Chain) × Bucketed m buckets)

bucket_there :
    (k capacity : ℕ) (buckets : List Chain)
    → length buckets ≡ capacity
    → 0 < capacity
    → (c : Chain) × (get_elem? buckets (k % capacity) ≡ some c)
bucket_there k capacity buckets size positive =
    let inside : k % capacity < capacity = mod-lt k positive in
    get_elem?-some buckets (k % capacity) (omega arith)

map_get-lookup :
    (h k : ℕ) (t : Handles Map) {m : Map}
    → get_elem? t.objects h ≡ some (some m)
    → IsMap m
    → map_get h k t ≡ returns (element (lookup m k)) t
unfolding map_get with_object
map_get-lookup h k t {m} there v = elim v [
  | inl empty ↦ rw (there, empty)
  | inr (buckets, b) ↦
      let (c, e) = bucket_there k m.capacity buckets b.size b.positive in rw (there, b.filled, e)
]

with_node-Holds :
    (key value : ℕ) (c : Chain) (m : Map) {o : Option Chain}
    → Replaced key value c o
    → (after : Chain) × (m' : Map) × (with_node true key value c o m ≡ some (after, m'))
      × Holds key value c after
      × (m'.capacity ≡ m.capacity)
with_node-Holds key value c m absent =
    ((key, value) ∷ c, record m { used = m.used + 1 }, refl, front-Holds key value c, refl)
with_node-Holds key value c m (replaced {after} h) = (after, m, refl, h, refl)

-- A write of one bucket, as every key sees it.
value_of-write :
    (key value capacity : ℕ) (buckets : List Chain) {c after : Chain}
    → get_elem? buckets (key % capacity) ≡ some c
    → Holds key value c after
    → (k : ℕ) → k ≢ key
    → value_of capacity k (set_elem buckets (key % capacity) after) ≡ value_of capacity k buckets
value_of-write key value capacity buckets {c} {after} e h k apart =
    let inside = get_elem?-length buckets (key % capacity) e in
    elim (Bool-cases (k % capacity == key % capacity)) [
      | inl p ↦
          let same : k % capacity ≡ key % capacity = ground (arith, p) in
          ap (λ i. found_in k (get_elem? (set_elem buckets (key % capacity) after) i)) same
          ∙ (ap (found_in k) (get_elem?-set_elem buckets (key % capacity) after inside)
              ∙ (h.others k apart
                  ∙ sym (ap (λ i. found_in k (get_elem? buckets i)) same ∙ ap (found_in k) e)))
      | inr p ↦
          let other : key % capacity ≢ k % capacity = λ q. ground (arith, p, q) in
          ap (found_in k)
            (get_elem?-set_elem_other buckets (key % capacity) (k % capacity) after other)
    ]

-- The map behind a write of a key.
pub record Written (h key value : ℕ) (before : ℕ → Option ℕ) (t' : Handles Map) : Type 0 where
  after : Map
  there : get_elem? t'.objects h ≡ some (some after)
  valid : IsMap after
  same : lookup after key ≡ some value
  others : (k : ℕ) → k ≢ key → lookup after k ≡ before k

set_bucket-Written :
    (h key value : ℕ) (m : Map) (buckets : List Chain) (t : Handles Map) {old : Option Map}
    → get_elem? t.objects h ≡ some old
    → length buckets ≡ m.capacity
    → 0 < m.capacity
    → (t' : Handles Map) × (set_bucket true h key value m buckets
          (get_elem? buckets (key % m.capacity))
          t
        ≡ returns 0 t')
      × Written h key value (λ k. value_of m.capacity k buckets) t'
unfolding put_object
set_bucket-Written h key value m buckets t there size positive =
    let (c, e) = bucket_there key m.capacity buckets size positive in
    let (after, m', made, holds, cap) =
      with_node-Holds key value c m (replace-Replaced key value c) in
    let inside = get_elem?-length buckets (key % m.capacity) e in
    let new = set_elem buckets (key % m.capacity) after in
    let result = record m' { buckets = some new } in
    (
      put_object h (some result) t,
      rw (e, made) refl,
      record {
        after = result;
        there = get_elem?-set_elem t.objects h _ (get_elem?-length t.objects h there);
        valid = inr (
          new,
          record {
            filled = refl;
            size = length-set_elem buckets (key % m.capacity) after ∙ (size ∙ sym cap);
            positive = subst (λ n. 0 < n) (sym cap) positive;
          },
        );
        same =
            ap (λ n. value_of n key new) cap
            ∙ (ap (found_in key) (get_elem?-set_elem buckets (key % m.capacity) after inside)
                ∙ holds.same);
        others = λ k apart.
            ap (λ n. value_of n k new) cap
            ∙ value_of-write key value m.capacity buckets e holds k apart;
      },
    )

abbrev eight : List Chain
eight = replicate 8 []

eight-none : (k : ℕ) → value_of 8 k eight ≡ none
unfolding find
eight-none k =
    let inside : k % 8 < 8 = omega arith in
    ap (found_in k) (get_elem?-replicate 8 [] (k % 8) inside)

map_set-set_in :
    (h key value : ℕ) (t : Handles Map) {m : Map} (buckets : Option (List Chain))
    → get_elem? t.objects h ≡ some (some m)
    → m.buckets ≡ buckets
    → map_set true true h key value t ≡ set_in true true h key value m buckets t
unfolding map_set with_object
map_set-set_in h key value t {m} buckets there e =
    rw there (ap (λ b. set_in true true h key value m b t) e)

map_set-Written :
    (h key value : ℕ) (t : Handles Map) {m : Map}
    → get_elem? t.objects h ≡ some (some m)
    → IsMap m
    → (t' : Handles Map) × (map_set true true h key value t ≡ returns 0 t')
      × Written h key value (lookup m) t'
unfolding set_in
map_set-Written h key value t {m} there v = elim v [
  | inl empty ↦
      let fresh = record m { capacity = 8 } in
      let (t', e, w) = set_bucket-Written h key value fresh eight t there refl (omega arith) in
      (
        t',
        map_set-set_in h key value t none there empty ∙ e,
        record {
          after = w.after;
          there = w.there;
          valid = w.valid;
          same = w.same;
          others = λ k apart.
              w.others k apart ∙ (eight-none k ∙ sym (ap (looked_up m.capacity k) empty));
        },
      )
  | inr (buckets, b) ↦
      let (t', e, w) = set_bucket-Written h key value m buckets t there b.size b.positive in
      (
        t',
        map_set-set_in h key value t (some buckets) there b.filled ∙ e,
        record {
          after = w.after;
          there = w.there;
          valid = w.valid;
          same = w.same;
          others = λ k apart. w.others k apart ∙ sym (ap (looked_up m.capacity k) b.filled);
        },
      )
]

-- What a function returns, if it does.
abbrev pub result_of : {T A : Type 0} → Effect T A → Option A
result_of (returns a t) = some a
result_of undefined = none

-- On a map in use, where the allocations succeed, `map_set` returns 0. Behind it `map_get` of the key
-- gives the low 32 bits of the value, and of every other key what it gave before. The map stays valid.
pub map_get-map_set :
    (h key value : ℕ) (t : Handles Map) {m : Map}
    → get_elem? t.objects h ≡ some (some m)
    → IsMap m
    → (t' : Handles Map) × (map_set true true h key value t ≡ returns 0 t')
      × (map_get h key t' ≡ returns (to_int value) t')
      × ((k : ℕ) → k ≢ key → result_of (map_get h k t') ≡ result_of (map_get h k t))
      × (m' : Map) × (get_elem? t'.objects h ≡ some (some m'))
      × IsMap m'
map_get-map_set h key value t {m} there v =
    let (t', e, w) = map_set-Written h key value t there v in
    (
      t',
      e,
      map_get-lookup h key t' w.there w.valid ∙ ap (λ o. returns (element o) t') w.same,
      λ k apart.
          ap result_of (map_get-lookup h k t' w.there w.valid)
          ∙ (ap (λ o. some (element o)) (w.others k apart)
              ∙ sym (ap result_of (map_get-lookup h k t there v))),
      w.after,
      w.there,
      w.valid,
    )
