-- ===== src/Base/Update.antt =====
-- One element of a list replaced, by its index.
use Prim.Native.Nat.{ℕ, zero, suc, ◌≤◌, ◌<◌}
use mathlib.Core.Path.{◌≡◌, refl, ap, subst}
use mathlib.Core.Logic.{◌≢◌}
use mathlib.Core.List.{List, [], ◌∷◌, ◌++◌}
use mathlib.Core.Option.{some}
use native.Mathlib.Omega.{arith}
use demonic_c.Base.Lists.{length, get_elem?, drop, take, replicate, All}

module _ {ℓ} {A : Type ℓ} where
  -- `xs[i] = a`; a list that ends before stays as it is.
  unfoldable pub set_elem : List A → ℕ → A → List A
  set_elem [] i a = []
  set_elem (x ∷ xs) zero a = a ∷ xs
  set_elem (x ∷ xs) (suc i) a = x ∷ set_elem xs i a

  pub length-set_elem : (xs : List A) (i : ℕ) (a : A) → length (set_elem xs i a) ≡ length xs
  unfolding set_elem
  length-set_elem [] i a = refl
  length-set_elem (x ∷ xs) zero a = refl
  length-set_elem (x ∷ xs) (suc i) a = ap suc (length-set_elem xs i a)

  pub get_elem?-set_elem :
      (xs : List A) (i : ℕ) (a : A) → i < length xs → get_elem? (set_elem xs i a) i ≡ some a
  unfolding set_elem
  get_elem?-set_elem [] i a h = absurd (omega arith)
  get_elem?-set_elem (x ∷ xs) zero a h = refl
  get_elem?-set_elem (x ∷ xs) (suc i) a h = get_elem?-set_elem xs i a (omega arith)

  pub get_elem?-set_elem_other :
      (xs : List A) (i j : ℕ) (a : A) → i ≢ j → get_elem? (set_elem xs i a) j ≡ get_elem? xs j
  unfolding set_elem
  get_elem?-set_elem_other [] i j a h = refl
  get_elem?-set_elem_other (x ∷ xs) zero zero a h = absurd (h refl)
  get_elem?-set_elem_other (x ∷ xs) zero (suc j) a h = refl
  get_elem?-set_elem_other (x ∷ xs) (suc i) zero a h = refl
  get_elem?-set_elem_other (x ∷ xs) (suc i) (suc j) a h =
      get_elem?-set_elem_other xs i j a (λ e. h (ap suc e))

  pub get_elem?-length : (xs : List A) (i : ℕ) {a : A} → get_elem? xs i ≡ some a → i < length xs
  get_elem?-length [] i e = cc
  get_elem?-length (x ∷ xs) zero e = omega arith
  get_elem?-length (x ∷ xs) (suc i) e = omega (arith, get_elem?-length xs i e)

  pub get_elem?-append :
      (xs ys : List A) (i : ℕ) {a : A} → get_elem? xs i ≡ some a → get_elem? (xs ++ ys) i ≡ some a
  get_elem?-append [] ys i e = cc
  get_elem?-append (x ∷ xs) ys zero e = e
  get_elem?-append (x ∷ xs) ys (suc i) e = get_elem?-append xs ys i e

  pub drop-set_elem :
      (n : ℕ) (xs : List A) (i : ℕ) (a : A) → i < n → drop n (set_elem xs i a) ≡ drop n xs
  unfolding set_elem
  drop-set_elem zero xs i a h = absurd (omega arith)
  drop-set_elem (suc n) [] i a h = refl
  drop-set_elem (suc n) (x ∷ xs) zero a h = refl
  drop-set_elem (suc n) (x ∷ xs) (suc i) a h = drop-set_elem n xs i a (omega arith)

module _ {ℓ κ} {A : Type ℓ} (P : A → Type κ) where
  pub All-get_elem? : (xs : List A) (i : ℕ) {a : A} → All P xs → get_elem? xs i ≡ some a → P a
  All-get_elem? [] i h e = cc
  All-get_elem? (x ∷ xs) zero h e = subst P (cc) h.0
  All-get_elem? (x ∷ xs) (suc i) h e = All-get_elem? xs i h.1 e

  pub All-set_elem : (xs : List A) (i : ℕ) (a : A) → All P xs → P a → All P (set_elem xs i a)
  unfolding set_elem
  All-set_elem [] i a h p = tt
  All-set_elem (x ∷ xs) zero a h p = (p, h.1)
  All-set_elem (x ∷ xs) (suc i) a h p = (h.0, All-set_elem xs i a h.1 p)

  pub All-replicate : (n : ℕ) (a : A) → P a → All P (replicate n a)
  All-replicate zero a p = tt
  All-replicate (suc n) a p = (p, All-replicate n a p)

  pub All-drop-set_elem :
      (n : ℕ) (xs : List A) (i : ℕ) (a : A)
      → All P (drop n xs)
      → P a
      → All P (drop n (set_elem xs i a))
  unfolding set_elem
  All-drop-set_elem zero xs i a h p = All-set_elem xs i a h p
  All-drop-set_elem (suc n) [] i a h p = tt
  All-drop-set_elem (suc n) (x ∷ xs) zero a h p = h
  All-drop-set_elem (suc n) (x ∷ xs) (suc i) a h p = All-drop-set_elem n xs i a h p

  pub All-drop-one : (xs : List A) → All P xs → All P (drop 1 xs)
  All-drop-one [] h = tt
  All-drop-one (x ∷ xs) h = h.1

  -- The element at an index from `n` on.
  pub All-drop-get_elem? :
      (n : ℕ) (xs : List A) (i : ℕ) {a : A}
      → All P (drop n xs)
      → n ≤ i
      → get_elem? xs i ≡ some a
      → P a
  All-drop-get_elem? zero xs i h k e = All-get_elem? xs i h e
  All-drop-get_elem? (suc n) [] i h k e = cc
  All-drop-get_elem? (suc n) (x ∷ xs) zero h k e = absurd (omega arith)
  All-drop-get_elem? (suc n) (x ∷ xs) (suc i) h k e = All-drop-get_elem? n xs i h (omega arith) e

  pub All-drop-append :
      (n : ℕ) (xs ys : List A) → All P (drop n xs) → All P ys → All P (drop n (xs ++ ys))
  All-drop-append zero [] ys h k = k
  All-drop-append zero (x ∷ xs) ys h k = (h.0, All-drop-append zero xs ys h.1 k)
  All-drop-append (suc n) (x ∷ xs) ys h k = All-drop-append n xs ys h k
  All-drop-append (suc n) [] [] h k = tt
  All-drop-append (suc n) [] (y ∷ ys) h k = All-drop-append n [] ys (drop-nil-All n) k.1
    where
      drop-nil-All : (m : ℕ) → All P (drop m [])
      drop-nil-All zero = tt
      drop-nil-All (suc m) = tt

module _ {ℓ} {A : Type ℓ} where
  pub get_elem?-replicate : (n : ℕ) (a : A) (i : ℕ) → i < n → get_elem? (replicate n a) i ≡ some a
  get_elem?-replicate zero a i h = absurd (omega arith)
  get_elem?-replicate (suc n) a zero h = refl
  get_elem?-replicate (suc n) a (suc i) h = get_elem?-replicate n a i (omega arith)

  pub length-take_le : (n : ℕ) (xs : List A) → length (take n xs) ≤ n
  length-take_le zero xs = omega arith
  length-take_le (suc n) [] = omega arith
  length-take_le (suc n) (x ∷ xs) =
      let h : length (take n xs) ≤ n = length-take_le n xs in omega arith

  pub get_elem?-append_last :
      (xs : List A) (x : A) → get_elem? (xs ++ (x ∷ [])) (length xs) ≡ some x
  get_elem?-append_last [] x = refl
  get_elem?-append_last (y ∷ xs) x = get_elem?-append_last xs x

  pub get_elem?-some : (xs : List A) (i : ℕ) → i < length xs → (a : A) × (get_elem? xs i ≡ some a)
  get_elem?-some [] i h = absurd (omega arith)
  get_elem?-some (x ∷ xs) zero h = (x, refl)
  get_elem?-some (x ∷ xs) (suc i) h = get_elem?-some xs i (omega arith)
