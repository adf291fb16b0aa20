-- ===== src/Emitted/Map.antt =====
-- The maps of the emitted C, `map_new` to `map_free` in `emit_runtime` of compiler/dmc.cpp.
pub mod Chains
pub mod Lookup
use demonic_c.Base.{
  ℕ, ◌+◌, ◌%◌, Bool, true, false, List, [], ◌∷◌, Option, none, some, if◌then◌else◌, ◌==◌, get_elem?,
  set_elem, replicate,
}
use demonic_c.Emitted.Handles.{
  Effect, returns, undefined, to_int, minus_one, Handles, new, with_object, put_object,
}
use demonic_c.Emitted.Vec.{element}

-- The nodes of a bucket, with their keys and values.
abbrev pub Chain : Type 0
Chain = List (ℕ × ℕ)

pub record Map : Type 0 where
  pub capacity : ℕ
  pub used : ℕ
  pub buckets : Option (List Chain)

abbrev pub Call : Type 0
Call = Handles Map → Effect (Handles Map) ℕ

unfoldable pub map_new : Bool → Bool → Call
unfolding new
map_new allocated grown = new allocated grown (record { capacity = 0; used = 0; buckets = none })

abbrev pub or_behind : ℕ × ℕ → Option Chain → Option Chain
or_behind node none = none
or_behind node (some rest) = some (node ∷ rest)

-- The bucket with the value of a key replaced, if the key stands in it.
unfoldable pub replace : ℕ → ℕ → Chain → Option Chain
replace key value [] = none
replace key value (n ∷ ns) =
    let rest = replace key value ns in
    if n.0 == key then some ((n.0, value) ∷ ns) else or_behind n rest

unfoldable pub find : ℕ → Chain → Option ℕ
find key [] = none
find key (n ∷ ns) = let rest = find key ns in if n.0 == key then some n.1 else rest

-- `allocated` tells whether `malloc` gives a node: the source writes to it at once.
abbrev pub with_node : Bool → ℕ → ℕ → Chain → Option Chain → Map → Option (Chain × Map)
with_node allocated key value chain (some replaced) m = some (replaced, m)
with_node true key value chain none m = some ((key, value) ∷ chain, record m { used = m.used + 1 })
with_node false key value chain none m = none

abbrev pub put_bucket : ℕ → ℕ → List Chain → Option (Chain × Map) → Call
put_bucket handle index buckets none t = undefined
put_bucket handle index buckets (some r) t =
    returns 0
      (put_object handle (some (record (r.1) { buckets = some (set_elem buckets index r.0) })) t)

abbrev pub set_bucket : Bool → ℕ → ℕ → ℕ → Map → List Chain → Option Chain → Call
set_bucket allocated handle key value m buckets none t = undefined
set_bucket allocated handle key value m buckets (some chain) t =
    put_bucket handle (key % m.capacity) buckets
      (with_node allocated key value chain (replace key value chain) m) t

-- `calloced` tells whether the eight buckets are given.
unfoldable pub set_in : Bool → Bool → ℕ → ℕ → ℕ → Map → Option (List Chain) → Call
unfolding replace put_object set_elem
set_in calloced allocated handle key value m (some buckets) t =
    set_bucket allocated handle key value m buckets (get_elem? buckets (key % m.capacity)) t
set_in calloced allocated handle key value m none t =
    if calloced
    then set_bucket allocated handle key value (record m { capacity = 8 }) (replicate 8 [])
        (get_elem? (replicate 8 []) (key % 8)) t
    else undefined

unfoldable pub map_set : Bool → Bool → ℕ → ℕ → ℕ → Call
unfolding with_object set_in
map_set calloced allocated handle key value =
    with_object handle (λ m t. set_in calloced allocated handle key value m m.buckets t)

abbrev pub in_bucket : (Chain → ℕ) → Option Chain → Call
in_bucket read none t = undefined
in_bucket read (some chain) t = returns (read chain) t

-- The bucket of a key is read, or a map without buckets gives `otherwise`.
abbrev pub in_buckets : (Chain → ℕ) → ℕ → ℕ → Map → Option (List Chain) → Call
in_buckets read otherwise key m none t = returns otherwise t
in_buckets read otherwise key m (some buckets) t =
    in_bucket read (get_elem? buckets (key % m.capacity)) t

unfoldable pub map_get : ℕ → ℕ → Call
unfolding with_object find
map_get handle key =
    with_object handle (λ m t. in_buckets (λ c. element (find key c)) minus_one key m m.buckets t)

abbrev pub is_found : Option ℕ → ℕ
is_found none = 0
is_found (some _) = 1

-- A null map gives 0.
abbrev pub zero_for : Effect (Handles Map) ℕ → Option (Option Map) → Effect (Handles Map) ℕ
zero_for (returns n t) (some none) = returns 0 t
zero_for e _ = e

unfoldable pub map_has : ℕ → ℕ → Call
unfolding with_object find
map_has handle key t =
    zero_for
      (with_object handle (λ m u. in_buckets (λ c. is_found (find key c)) 0 key m m.buckets u) t)
      (get_elem? t.objects handle)

unfoldable pub map_len : ℕ → Call
unfolding with_object
map_len handle = with_object handle (λ m t. returns (to_int m.used) t)

unfoldable pub map_free : ℕ → Call
unfolding with_object put_object
map_free handle = with_object handle (λ m t. returns 0 (put_object handle none t))
