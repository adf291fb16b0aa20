-- ===== src/Emitted/Map/Chains.antt =====
-- One bucket of a map of the emitted C, behind a write of a key.
use demonic_c.Base.{
  ℕ, ◌≡◌, ◌≢◌, ap, inl, inr, true, false, [], ◌∷◌, Option, none, some, if◌then◌else◌, ◌==◌, arith,
  Bool-cases,
}
use demonic_c.Emitted.Map.{Chain, or_behind, replace, find}

-- What a bucket holds behind a write of a key.
pub record Holds (key value : ℕ) (before after : Chain) : Type 0 where
  pub same : find key after ≡ some value
  pub others : (k : ℕ) → k ≢ key → find k after ≡ find k before

pub front-Holds : (key value : ℕ) (c : Chain) → Holds key value c ((key, value) ∷ c)
unfolding find
front-Holds key value c =
    let self : (key == key) ≡ true = ground arith in
    record {
      same = rw self;
      others = λ k apart. let other : (key == k) ≡ false = ground (arith, apart) in rw other;
    }

behind-Holds :
    (key value : ℕ) (n : ℕ × ℕ) {before after : Chain}
    → n.0 ≢ key
    → Holds key value before after
    → Holds key value (n ∷ before) (n ∷ after)
unfolding find
behind-Holds key value n apart h =
    let other : (n.0 == key) ≡ false = ground (arith, apart) in
    record {
      same = rw other h.same;
      others = λ k q. ap (λ o. if n.0 == k then some n.1 else o) (h.others k q);
    }

-- What `replace` gives: no bucket where the key does not stand in it, or the bucket behind the write.
pub data Replaced (key value : ℕ) (c : Chain) : Option Chain → Type 0 where
  absent : Replaced key value c none
  replaced : {after : Chain} → Holds key value c after → Replaced key value c (some after)

or_behind-Replaced :
    (key value : ℕ) (n : ℕ × ℕ) (c : Chain) {o : Option Chain}
    → n.0 ≢ key
    → Replaced key value c o
    → Replaced key value (n ∷ c) (or_behind n o)
or_behind-Replaced key value n c apart absent = absent
or_behind-Replaced key value n c apart (replaced h) = replaced (behind-Holds key value n apart h)

here-Holds :
    (key value : ℕ) (n : ℕ × ℕ) (c : Chain) → n.0 ≡ key → Holds key value (n ∷ c) ((n.0, value) ∷ c)
unfolding find
here-Holds key value n c e =
    let self : (n.0 == key) ≡ true = ground (arith, e) in
    record {
      same = rw self;
      others = λ k apart. let other : (n.0 == k) ≡ false = ground (arith, e, apart) in rw other;
    }

pub replace-Replaced : (key value : ℕ) (c : Chain) → Replaced key value c (replace key value c)
unfolding replace
replace-Replaced key value [] = absent
replace-Replaced key value (n ∷ c) = elim (Bool-cases (n.0 == key)) [
  | inl e ↦
      let same : n.0 ≡ key = ground (arith, e) in rw e (replaced (here-Holds key value n c same))
  | inr e ↦
      let apart : n.0 ≢ key = λ p. ground (arith, e, p) in
      rw e (or_behind-Replaced key value n c apart (replace-Replaced key value c))
]
