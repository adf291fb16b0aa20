-- ===== src/Emitted/Queue/Ring.antt =====
-- A ring of cells, as the emitted C goes around it, and its cells as a list.
use demonic_c.Base.{
  ℕ, zero, suc, ◌+◌, ◌%◌, ◌≤◌, ◌<◌, ◌≡◌, ◌≢◌, ◌⊎◌, sym, ap, subst, inl, inr, refl, true, false,
  List, [], ◌∷◌, ◌++◌, if◌then◌else◌, ltb, ◌==◌, length, arith, Bool-cases,
}
use native.Mathlib.Nat.{mod-eq_of_lt, mod_self}

-- The `n` cells from `start` on, around a ring of `c`.
unfoldable pub ring : (ℕ → ℕ) → ℕ → ℕ → ℕ → List ℕ
ring cells c start zero = []
ring cells c start (suc n) = cells start ∷ ring cells c ((start + 1) % c) n

-- The place `n` steps behind `start`.
unfoldable pub advance : ℕ → ℕ → ℕ → ℕ
advance c start zero = start
advance c start (suc n) = advance c ((start + 1) % c) n

pub length-ring : (cells : ℕ → ℕ) (c start n : ℕ) → length (ring cells c start n) ≡ n
unfolding ring
length-ring cells c start zero = refl
length-ring cells c start (suc n) = ap suc (length-ring cells c ((start + 1) % c) n)

-- One step around the ring.
step_cases :
    (c start : ℕ)
    → start < c
    → ((start + 1) % c ≡ start + 1) × (start + 1 < c) ⊎ ((start + 1) % c ≡ 0) × (start + 1 ≡ c)
step_cases c start h = elim (Bool-cases (ltb (start + 1) c)) [
  | inl e ↦ let small : start + 1 < c = ground arith in inl (mod-eq_of_lt small, small)
  | inr e ↦
      let whole : start + 1 ≡ c = ground arith in
      inr (subst (λ n. n % c ≡ 0) (sym whole) (mod_self c), whole)
]

pub step_lt : (c start : ℕ) → start < c → (start + 1) % c < c
step_lt c start h = elim (step_cases c start h) [
  | inl (e, small) ↦ omega arith
  | inr (e, whole) ↦ omega arith
]

-- Fewer steps than the ring has places, or as many: the place, with at most one time around.
pub advance_cases :
    (c start n : ℕ)
    → start < c
    → n ≤ c
    → (advance c start n < c)
      × ((advance c start n ≡ start + n) ⊎ (advance c start n + c ≡ start + n))
unfolding advance
advance_cases c start zero h k = (h, inl (omega arith))
advance_cases c start (suc n) h k =
    let (bound, places) = advance_cases c ((start + 1) % c) n (step_lt c start h) (omega arith) in
    (
      bound,
      elim (step_cases c start h) [
        | inl (e, small) ↦ elim places [ inl p ↦ inl (omega arith) | inr p ↦ inr (omega arith) ]
        | inr (e, whole) ↦ elim places [ inl p ↦ inr (omega arith) | inr p ↦ absurd (omega arith) ]
      ],
    )

advance_other : (c start n : ℕ) → start < c → n < c → n ≢ 0 → advance c start n ≢ start
advance_other c start n h k positive p =
    let (bound, places) = advance_cases c start n h (omega arith) in
    elim places [ inl q ↦ omega arith | inr q ↦ omega arith ]

pub advance_round : (c start : ℕ) → start < c → advance c start c ≡ start
advance_round c start h =
    let (bound, places) = advance_cases c start c h (omega arith) in
    elim places [ inl q ↦ absurd (omega arith) | inr q ↦ omega arith ]

pub advance-suc : (c start n : ℕ) → advance c start (suc n) ≡ (advance c start n + 1) % c
unfolding advance
advance-suc c start zero = refl
advance-suc c start (suc n) = advance-suc c ((start + 1) % c) n

-- A cell that is written at the end of the ring.
pub ring-write :
    (cells : ℕ → ℕ) (c start n last x : ℕ)
    → start < c
    → n < c
    → last ≡ advance c start n
    → ring (λ i. if i == last then x else cells i) c start (suc n)
      ≡ ring cells c start n ++ (x ∷ [])
unfolding ring advance
ring-write cells c start zero last x h k e =
    let same : (start == last) ≡ true = ground (arith, e) in rw same
ring-write cells c start (suc n) last x h k e =
    let apart : advance c start (suc n) ≢ start = advance_other c start (suc n) h k (λ p. cc p) in
    let other : (start == last) ≡ false = ground (arith, e, apart) in
    rw (other, ring-write cells c ((start + 1) % c) n last x (step_lt c start h) (omega arith) e)

pub ring-none : (cells : ℕ → ℕ) (c start n : ℕ) → n ≡ 0 → ring cells c start n ≡ []
unfolding ring
ring-none cells c start zero e = refl
ring-none cells c start (suc n) e = cc

pub ring-cons :
    (cells : ℕ → ℕ) (c start n : ℕ) {y : ℕ} {ys : List ℕ}
    → ring cells c start (suc n) ≡ y ∷ ys
    → (cells start ≡ y) × (ring cells c ((start + 1) % c) n ≡ ys)
unfolding ring
ring-cons cells c start n e = (cc e, cc e)
