-- ===== src/Parser/Fold/Value.antt =====
-- The values of the literals that `try_fold` reads and writes.
use demonic_c.Base.{
  leb, ℕ, zero, suc, ◌+◌, ◌-◌, ◌*◌, ◌/◌, ◌%◌, ◌^◌, ◌≤◌, ◌<◌, ◌≡◌, ◌≢◌, refl, ◌∙◌, true, false, [],
  ◌∷◌, ◌++◌, ltb, ◌==◌, Bool-cases, inl, inr, arith,
}
use demonic_c.Text.{Bytes, codes, isdigit, eqb, to_string_from, to_string}
use demonic_c.Parser.Fold.{
  all_digits, is_int_literal, digits_from, digits_value, long_bound, Folded, folded, fold_values,
  try_fold,
}

digits_from-append :
    (n : ℕ) (a b : Bytes) → digits_from n (a ++ b) ≡ digits_from (digits_from n a) b
unfolding digits_from
digits_from-append n [] b = refl
digits_from-append n (c ∷ a) b = digits_from-append (10 * n + (c - b'0')) a b

all_digits-append :
    (a b : Bytes) → all_digits a ≡ true → all_digits b ≡ true → all_digits (a ++ b) ≡ true
all_digits-append [] b p q = q
all_digits-append (c ∷ a) b p q = ground (arith, all_digits-append a b)

digit-isdigit : (d : ℕ) → d < 10 → isdigit (d + b'0') ≡ true
digit-isdigit d h = ground arith

pub to_string_from-small : (f n : ℕ) → ltb n 10 ≡ true → to_string_from (suc f) n ≡ (n + b'0') ∷ []
unfolding to_string_from
to_string_from-small f n e = rw (to_string_from, e) refl

pub to_string_from-large :
    (f n : ℕ)
    → ltb n 10 ≡ false
    → to_string_from (suc f) n ≡ to_string_from f (n / 10) ++ ((n % 10 + b'0') ∷ [])
unfolding to_string_from
to_string_from-large f n e = rw (to_string_from, e) refl

digits_from-single : (n d : ℕ) → digits_from n ((d + b'0') ∷ []) ≡ 10 * n + d
unfolding digits_from
digits_from-single n d = omega arith

to_string_from-value : (f n : ℕ) → n < f → digits_from 0 (to_string_from f n) ≡ n
to_string_from-value zero n h = absurd (omega arith)
to_string_from-value (suc f) n h = elim (Bool-cases (ltb n 10)) [
  | inl e ↦ rw (to_string_from-small f n e) (digits_from-single 0 n ∙ omega arith)
  | inr e ↦
      let less : 10 ≤ n = ground arith in
      rw
        (
          to_string_from-large f n e,
          digits_from-append 0 (to_string_from f (n / 10)) ((n % 10 + b'0') ∷ []),
          to_string_from-value f (n / 10) (omega arith),
        )
        (digits_from-single (n / 10) (n % 10) ∙ omega arith)
]

to_string_from-digits : (f n : ℕ) → all_digits (to_string_from f n) ≡ true
unfolding to_string_from
to_string_from-digits zero n = refl
to_string_from-digits (suc f) n = elim (Bool-cases (ltb n 10)) [
  | inl e ↦ rw (to_string_from-small f n e) (rw (digit-isdigit n (ground arith)))
  | inr e ↦ rw (to_string_from-large f n e) (
      all_digits-append (to_string_from f (n / 10)) _ (to_string_from-digits f (n / 10))
        (rw (digit-isdigit (n % 10) (omega arith))))
]

is_literal : (t : Bytes) → all_digits t ≡ true → digits_from 0 t ≢ 0 → is_int_literal t ≡ true
unfolding is_int_literal digits_from
is_literal [] p q = absurd (q refl)
is_literal (c ∷ cs) p q = p

to_string-literal : (n : ℕ) → is_int_literal (to_string n) ≡ true
unfolding to_string is_int_literal
to_string-literal zero = refl
to_string-literal (suc n) =
    is_literal (to_string_from (suc (suc n)) (suc n)) (to_string_from-digits (suc (suc n)) (suc n))
      (λ z. omega (arith, z, to_string_from-value (suc (suc n)) (suc n) (omega arith)))

-- `to_string` of a number is a literal, and its value is the number.
pub to_string-value :
    (n : ℕ) → (is_int_literal (to_string n) ≡ true) × (digits_value (to_string n) ≡ n)
unfolding to_string
to_string-value n = (to_string-literal n, to_string_from-value (suc n) n (omega arith))

-- `r` is the text of the number `n`.
pub record FoldsTo (r : Folded) (n : ℕ) : Type 0 where
  pub text : Bytes
  pub result : r ≡ folded text
  pub literal : is_int_literal text ≡ true
  pub value : digits_value text ≡ n

folded-FoldsTo : (n : ℕ) → FoldsTo (folded (to_string n)) n
folded-FoldsTo n =
    let (literal, value) = to_string-value n in
    record { text = to_string n; result = refl; literal = literal; value = value }

-- The value of a C operator on two `long long` that are not negative, where it has one and it is not
-- negative.
pub data Computes : Bytes → ℕ → ℕ → ℕ → Type 0 where
  sum : {a b : ℕ} → a + b < long_bound → Computes (codes "+") a b (a + b)
  difference : {a b : ℕ} → b ≤ a → Computes (codes "-") a b (a - b)
  product : {a b : ℕ} → a * b < long_bound → Computes (codes "*") a b (a * b)
  quotient : {a b : ℕ} → 0 < b → Computes (codes "/") a b (a / b)
  remainder : {a b : ℕ} → 0 < b → Computes (codes "%") a b (a % b)
  less : {a b : ℕ} → a < b → Computes (codes "<") a b 1
  not_less : {a b : ℕ} → b ≤ a → Computes (codes "<") a b 0
  equal : {a : ℕ} → Computes (codes "==") a a 1
  unequal : {a b : ℕ} → a ≢ b → Computes (codes "==") a b 0
  differing : {a b : ℕ} → a ≢ b → Computes (codes "!=") a b 1
  not_differing : {a : ℕ} → Computes (codes "!=") a a 0
  at_most : {a b : ℕ} → a ≤ b → Computes (codes "<=") a b 1
  not_at_most : {a b : ℕ} → b < a → Computes (codes "<=") a b 0
  greater : {a b : ℕ} → b < a → Computes (codes ">") a b 1
  not_greater : {a b : ℕ} → a ≤ b → Computes (codes ">") a b 0
  at_least : {a b : ℕ} → b ≤ a → Computes (codes ">=") a b 1
  not_at_least : {a b : ℕ} → a < b → Computes (codes ">=") a b 0
  shifted : {a b : ℕ} → b < 64 → Computes (codes ">>") a b (a / 2 ^ b)
  first_false : {b : ℕ} → Computes (codes "&&") 0 b 0
  second_false : {a : ℕ} → Computes (codes "&&") a 0 0
  first_true : {a b : ℕ} → 0 < a → Computes (codes "||") a b 1
  second_true : {a b : ℕ} → 0 < b → Computes (codes "||") a b 1
  both : {a b : ℕ} → 0 < a → 0 < b → Computes (codes "&&") a b 1
  neither : Computes (codes "||") 0 0 0

fold_values-Computes : {op : Bytes} {a b n : ℕ} → Computes op a b n → FoldsTo (fold_values a op b) n
unfolding fold_values eqb
fold_values-Computes (sum {a} {b} h) =
    let fits : ltb (a + b) long_bound ≡ true = ground arith in rw fits (folded-FoldsTo (a + b))
fold_values-Computes (difference {a} {b} h) =
    let above : ltb a b ≡ false = ground arith in rw above (folded-FoldsTo (a - b))
fold_values-Computes (product {a} {b} h) =
    let fits : ltb (a * b) long_bound ≡ true = ground arith in rw fits (folded-FoldsTo (a * b))
fold_values-Computes (quotient {a} {b} h) =
    let some : (b == 0) ≡ false = ground arith in rw some (folded-FoldsTo (a / b))
fold_values-Computes (remainder {a} {b} h) =
    let some : (b == 0) ≡ false = ground arith in rw some (folded-FoldsTo (a % b))
fold_values-Computes (less {a} {b} h) =
    let holds : ltb a b ≡ true = ground arith in rw holds (folded-FoldsTo 1)
fold_values-Computes (not_less {a} {b} h) =
    let fails : ltb a b ≡ false = ground arith in rw fails (folded-FoldsTo 0)
fold_values-Computes (equal {a}) =
    let holds : (a == a) ≡ true = ground arith in rw holds (folded-FoldsTo 1)
fold_values-Computes (unequal {a} {b} h) =
    let fails : (a == b) ≡ false = ground arith in rw fails (folded-FoldsTo 0)
fold_values-Computes (both {a} {b} h k) =
    let some : (a == 0) ≡ false = ground arith in
    let more : (b == 0) ≡ false = ground arith in rw (some, more) (folded-FoldsTo 1)
fold_values-Computes (differing {a} {b} h) =
    let fails : (a == b) ≡ false = ground arith in rw fails (folded-FoldsTo 1)
fold_values-Computes (not_differing {a}) =
    let holds : (a == a) ≡ true = ground arith in rw holds (folded-FoldsTo 0)
fold_values-Computes (at_most {a} {b} h) =
    let holds : leb a b ≡ true = ground arith in rw holds (folded-FoldsTo 1)
fold_values-Computes (not_at_most {a} {b} h) =
    let fails : leb a b ≡ false = ground arith in rw fails (folded-FoldsTo 0)
fold_values-Computes (greater {a} {b} h) =
    let holds : ltb b a ≡ true = ground arith in rw holds (folded-FoldsTo 1)
fold_values-Computes (not_greater {a} {b} h) =
    let fails : ltb b a ≡ false = ground arith in rw fails (folded-FoldsTo 0)
fold_values-Computes (at_least {a} {b} h) =
    let holds : leb b a ≡ true = ground arith in rw holds (folded-FoldsTo 1)
fold_values-Computes (not_at_least {a} {b} h) =
    let fails : leb b a ≡ false = ground arith in rw fails (folded-FoldsTo 0)
fold_values-Computes (shifted {a} {b} h) =
    let fits : ltb b 64 ≡ true = ground arith in rw fits (folded-FoldsTo (a / 2 ^ b))
fold_values-Computes (first_false {b}) = folded-FoldsTo 0
fold_values-Computes (second_false {a}) = elim (Bool-cases (a == 0)) [
  | inl e ↦ rw e (folded-FoldsTo 0)
  | inr e ↦ rw e (folded-FoldsTo 0)
]
fold_values-Computes (first_true {a} {b} h) =
    let more : (a == 0) ≡ false = ground arith in rw more (folded-FoldsTo 1)
fold_values-Computes (second_true {a} {b} h) =
    let more : (b == 0) ≡ false = ground arith in
    elim (Bool-cases (a == 0)) [
      | inl e ↦ rw (e, more) (folded-FoldsTo 1)
      | inr e ↦ rw e (folded-FoldsTo 1)
    ]
fold_values-Computes neither = folded-FoldsTo 0

-- An operator between two literals that fit a `long long` is folded to a literal whose value is the
-- operator's value on theirs: for `+`, `-`, `*` where the result fits and is not negative, for `/` and
-- `%` where the divisor is not zero, for `>>` by less than 64, and for the comparisons, `&&` and `||`.
pub try_fold-Computes :
    (left op right : Bytes) {n : ℕ}
    → is_int_literal left ≡ true
    → is_int_literal right ≡ true
    → digits_value left < long_bound
    → digits_value right < long_bound
    → Computes op (digits_value left) (digits_value right) n
    → FoldsTo (try_fold left op right) n
unfolding try_fold
try_fold-Computes left op right p q h k c =
    let fits : ltb (digits_value left) long_bound ≡ true = ground arith in
    let fits_too : ltb (digits_value right) long_bound ≡ true = ground arith in
    rw (p, q, fits, fits_too) (fold_values-Computes c)
