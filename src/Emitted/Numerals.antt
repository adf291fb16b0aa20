-- ===== src/Emitted/Numerals.antt =====
-- The numerals of the emitted C, `text_from_int` and `text_to_int` in `emit_runtime` of compiler/dmc.cpp.
use demonic_c.Base.{
  ℕ, zero, suc, ◌+◌, ◌-◌, ◌/◌, ◌%◌, ◌^◌, ◌≤◌, ◌<◌, ◌≡◌, refl, ◌∙◌, ap, true, false, [], ◌∷◌, ◌++◌,
  Option, none, some, if◌then◌else◌, ltb, leb, ◌==◌, length, length-append, take, take_all,
  Bool-cases, inl, inr, if_intro, arith,
}
use demonic_c.Text.{Bytes, codes, isspace, isdigit, to_string_from, to_string}
use demonic_c.Parser.Fold.{all_digits, is_int_literal, digits_value}
use demonic_c.Parser.Fold.Value.{to_string_from-small, to_string_from-large, to_string-value}
use demonic_c.Packages.Semver.{digits_of}

-- `snprintf(buf, sizeof(buf), "%lld", x)` with 32 bytes. The result is the string that is there then.
unfoldable pub text_from_int : ℕ → Bytes
text_from_int x =
    take 31 (if leb (2 ^ 63) x then codes "-" ++ to_string (2 ^ 64 - x) else to_string x)

unfoldable behind_spaces : Bytes → Bytes
behind_spaces [] = []
behind_spaces (c ∷ cs) = if isspace c then behind_spaces cs else c ∷ cs

-- The digits in front, and nothing else.
abbrev number_in : Bytes → ℕ
number_in s = digits_value (digits_of s).0

abbrev fitting : ℕ → Option ℕ
fitting n = if ltb n (2 ^ 63) then some n else none

abbrev negated : ℕ → Option ℕ
negated n = if leb n (2 ^ 63) then some ((2 ^ 64 - n) % 2 ^ 64) else none

unfoldable signed : Bytes → Option ℕ
unfolding digits_of
signed [] = some 0
signed (c ∷ cs) =
    if c == b'-'
    then negated (number_in cs)
    else if c == b'+'
    then fitting (number_in cs)
    else fitting (number_in (c ∷ cs))

-- `atoll`. A number that no `long long` holds is undefined, and is `none`.
unfoldable pub text_to_int : Bytes → Option ℕ
unfolding behind_spaces signed
text_to_int s = signed (behind_spaces s)

digits_of-all : (s : Bytes) → all_digits s ≡ true → (digits_of s).0 ≡ s
unfolding digits_of
digits_of-all [] h = refl
digits_of-all (c ∷ cs) h = elim (Bool-cases (isdigit c)) [
  | inl e ↦ rw e (ap (◌∷◌ c) (digits_of-all cs (cc (rw e at h))))
  | inr e ↦ absurd (cc (rw e at h))
]

to_string_from-length : (k f n : ℕ) → n < 10 ^ suc k → length (to_string_from f n) ≤ suc k
unfolding to_string_from
to_string_from-length k zero n h = omega arith
to_string_from-length zero (suc f) n h =
    let small : ltb n 10 ≡ true = ground (arith, h) in
    rw (to_string_from-small f n small) (omega arith)
to_string_from-length (suc k) (suc f) n h = elim (Bool-cases (ltb n 10)) [
  | inl e ↦ rw (to_string_from-small f n e) (omega arith)
  | inr e ↦
      let rest = to_string_from f (n / 10) in
      let size : length (rest ++ ((n % 10 + b'0') ∷ [])) ≡ length rest + 1 =
        length-append rest ((n % 10 + b'0') ∷ []) in
      rw (to_string_from-large f n e)
        (omega (arith, size, to_string_from-length k f (n / 10) (omega (arith, h))))
]

to_string-short : (n : ℕ) → n < 2 ^ 64 → length (to_string n) ≤ 20
unfolding to_string
to_string-short n h = to_string_from-length 19 (suc n) n (omega (arith, h))

number_in-literal : (s : Bytes) → is_int_literal s ≡ true → number_in s ≡ digits_value s
unfolding is_int_literal digits_of
number_in-literal [] h = refl
number_in-literal (c ∷ cs) h = ap digits_value (digits_of-all (c ∷ cs) h)

-- A literal is its own digits, and no sign and no blank is in front of it.
literal-signed :
    (s : Bytes)
    → is_int_literal s ≡ true
    → (behind_spaces s ≡ s) × (signed s ≡ fitting (digits_value s))
unfolding is_int_literal behind_spaces signed
literal-signed [] h = absurd (cc h)
literal-signed (c ∷ cs) h =
    let first : isdigit c ≡ true = ground (arith, h) in
    let minus : (c == b'-') ≡ false = ground (arith, first) in
    let plus : (c == b'+') ≡ false = ground (arith, first) in
    let blank : isspace c ≡ false = ground (arith, first) in
    (rw blank refl, rw (minus, plus) (ap fitting (number_in-literal (c ∷ cs) h)))

text_to_int-fitting : (x : ℕ) → x < 2 ^ 63 → text_to_int (take 31 (to_string x)) ≡ some x
unfolding text_to_int
text_to_int-fitting x h =
    let whole : take 31 (to_string x) ≡ to_string x =
      take_all (to_string x) 31 (omega (arith, to_string-short x (omega (arith, h)))) in
    let is = literal-signed (to_string x) (to_string-value x).0 in
    let fits : ltb x (2 ^ 63) ≡ true = ground (arith, h) in
    rw (whole, is.0, is.1, (to_string-value x).1, fits) refl

text_to_int-negated :
    (m : ℕ)
    → 0 < m
    → m ≤ 2 ^ 63
    → text_to_int (take 31 (codes "-" ++ to_string m)) ≡ some (2 ^ 64 - m)
unfolding text_to_int behind_spaces signed
text_to_int-negated m some_of h =
    let whole : take 30 (to_string m) ≡ to_string m =
      take_all (to_string m) 30 (omega (arith, to_string-short m (omega (arith, h)))) in
    let all : number_in (to_string m) ≡ m =
      number_in-literal (to_string m) (to_string-value m).0 ∙ (to_string-value m).1 in
    let fits : leb m (2 ^ 63) ≡ true = ground (arith, h) in
    rw (whole, all, fits) (ap some (omega (arith, some_of, h)))

-- Every `long long` is read back from its text.
pub text_to_int-text_from_int : (x : ℕ) → x < 2 ^ 64 → text_to_int (text_from_int x) ≡ some x
unfolding text_from_int
text_to_int-text_from_int x h =
    if_intro (λ s. text_to_int (take 31 s) ≡ some x) (leb (2 ^ 63) x)
      (λ e.
        text_to_int-negated (2 ^ 64 - x) (omega (arith, h)) (ground (arith, e))
        ∙ ap some (omega (arith, h)))
      (λ e. text_to_int-fitting x (ground (arith, e)))
