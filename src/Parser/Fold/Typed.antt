-- ===== src/Parser/Fold/Typed.antt =====
-- The types of literals and of what is folded from them.
use demonic_c.Base.{
  ℕ, ◌<◌, ◌≡◌, refl, ap, Bool, true, false, ◌||◌, ◌&&◌, not, List, [], ◌∷◌, ◌++◌, ◌==◌, none, any,
  All, arith, Bool-cases, inl, inr,
}
use demonic_c.Text.{
  Bytes, codes, eqb, eqb_iff, is, isdigit, isalpha, contains-none, rfind-none, find_byte,
  starts_with,
}
use demonic_c.Parser.State.{State, Function, Enum, ok, when◌run◌else◌}
use demonic_c.Parser.Types.{
  scoped_name, c_name, is_enum_value, string_fns, calls_one_of, called_type, selected_field,
  infer_type, is_string_arg,
}
use demonic_c.Parser.Fold.{all_digits, is_int_literal, digits_value, long_bound, folded}
use demonic_c.Parser.Expression.{
  apply_operator, warn_operands, is_equality, use_fold, parenthesised,
}
use demonic_c.Parser.Fold.Value.{Computes, try_fold-Computes}

digits-other :
    (q : ℕ) (t : Bytes) → isdigit q ≡ false → all_digits t ≡ true → All (λ c. (q == c) ≡ false) t
digits-other q [] h d = tt
digits-other q (c ∷ t) h d = (other, digits-other q t h (ground (arith, d)))
  where
    other : (q == c) ≡ false
    other = ground (arith, h, d)

digits-find_byte :
    (q : ℕ) (t : Bytes) → isdigit q ≡ false → all_digits t ≡ true → find_byte q t ≡ none
digits-find_byte q [] h d = refl
digits-find_byte q (c ∷ t) h d =
    let other : (c == q) ≡ false = ground (arith, h, d) in
    let rest = digits-find_byte q t h (ground (arith, d)) in rw (other, rest) refl

-- A text with a byte that is no digit.
no_digits : (a b : Bytes) (q : ℕ) → isdigit q ≡ false → all_digits (a ++ (q ∷ b)) ≡ false
no_digits [] b q h = rw h refl
no_digits (c ∷ a) b q h = let rest = no_digits a b q h in ground (arith, rest)

digits-other_text :
    (t a b : Bytes) (q : ℕ) → isdigit q ≡ false → all_digits t ≡ true → eqb t (a ++ (q ∷ b)) ≡ false
digits-other_text t a b q h d = elim (Bool-cases (eqb t (a ++ (q ∷ b)))) [
  | inl same ↦ absurd (cc (d, ap all_digits ((eqb_iff t (a ++ (q ∷ b))).0 same), no_digits a b q h))
  | inr other ↦ other
]

digits-is_enum_value :
    (enums : List Enum) (t : Bytes) → all_digits t ≡ true → is_enum_value enums t ≡ false
unfolding is_enum_value
digits-is_enum_value [] t d = refl
digits-is_enum_value (e ∷ enums) t d = rw (none_of e.variants, digits-is_enum_value enums t d) refl
  where
    none_of :
        (vs : List Bytes) → any (λ v. eqb t (scoped_name e v) || eqb t (c_name e v)) vs ≡ false
    none_of [] = refl
    none_of (v ∷ vs) =
        rw
          (
            digits-other_text t e.name (codes ":" ++ v) b':' refl d,
            digits-other_text t e.name v b'_' refl d,
            none_of vs,
          )
          refl

front-starts_with : (q c : ℕ) (p t : Bytes) → (q == c) ≡ false → starts_with (q ∷ p) (c ∷ t) ≡ false
unfolding starts_with
front-starts_with q c p t h = rw h refl

digit-calls_one_of :
    (c : ℕ) (t : Bytes) → isdigit c ≡ true → calls_one_of string_fns (c ∷ t) ≡ false
unfolding starts_with
digit-calls_one_of c t h =
    let no_f : (b'f' == c) ≡ false = ground (arith, h) in
    let no_t : (b't' == c) ≡ false = ground (arith, h) in
    let no_p : (b'p' == c) ≡ false = ground (arith, h) in
    let no_s : (b's' == c) ≡ false = ground (arith, h) in
    let no_a : (b'a' == c) ≡ false = ground (arith, h) in rw (no_f, no_t, no_p, no_s, no_a) refl

digits-called_type :
    (functions : List Function) (t : Bytes) → all_digits t ≡ true → called_type functions t ≡ none
digits-called_type functions t d = rw (called_type, digits-find_byte b'(' t refl d) refl

digits-selected_field : (t : Bytes) → all_digits t ≡ true → selected_field t ≡ none
digits-selected_field t d =
    rw (selected_field, rfind-none b')' (codes ".") t (digits-other b')' t refl d)) refl

-- A literal of digits has the type `int`.
infer_type-int : (st : State) (t : Bytes) → is_int_literal t ≡ true → infer_type st t ≡ codes "int"
unfolding infer_type is_int_literal
infer_type-int st [] d = absurd cc
infer_type-int st (c ∷ t) d =
    let digit : isdigit c ≡ true = ground (arith, d) in
    let no_quote : (c == b'"') ≡ false = ground (arith, digit) in
    let no_paren : (b'(' == c) ≡ false = ground (arith, digit) in
    let no_letter : isalpha c ≡ false = ground (arith, digit) in
    let dot = contains-none b'.' [] (c ∷ t) (digits-other b'.' (c ∷ t) refl d) in
    let small_e = contains-none b'e' [] (c ∷ t) (digits-other b'e' (c ∷ t) refl d) in
    let large_e = contains-none b'E' [] (c ∷ t) (digits-other b'E' (c ∷ t) refl d) in
    rw
      (
        digit,
        dot,
        small_e,
        large_e,
        no_quote,
        digits-is_enum_value st.enums (c ∷ t) d,
        front-starts_with b'(' c (codes "&") t no_paren,
        digit-calls_one_of c t digit,
        digits-called_type st.functions (c ∷ t) d,
        digits-selected_field (c ∷ t) d,
        no_letter,
      )
      refl

-- Nor is it a string.
is_string_arg-digits :
    (st : State) (t : Bytes) → is_int_literal t ≡ true → is_string_arg st t ≡ false
unfolding is_string_arg is_int_literal
is_string_arg-digits st [] d = absurd cc
is_string_arg-digits st (c ∷ t) d =
    let digit : isdigit c ≡ true = ground (arith, d) in
    let no_quote : (c == b'"') ≡ false = ground (arith, digit) in
    let no_letter : isalpha c ≡ false = ground (arith, digit) in
    rw
      (
        no_quote,
        digit-calls_one_of c t digit,
        digits-called_type st.functions (c ∷ t) d,
        digits-selected_field (c ∷ t) d,
        no_letter,
      )
      refl

never : (a b : Bool) → (a && (false || false) && b) ≡ false
never true b = refl
never false b = refl

warn_operands-int :
    (left op right : Bytes) (st : State)
    → is_int_literal left ≡ true
    → is_int_literal right ≡ true
    → warn_operands left op right st ≡ ok tt st
unfolding warn_operands when◌run◌else◌ eqb
warn_operands-int left op right st p q =
    rw
      (
        infer_type-int st left p,
        infer_type-int st right q,
        never (not (is op "&&") && not (is op "||")) (not (is_equality op)),
      )
      refl

use_fold-literal :
    (t unfolded : Bytes) (st : State)
    → is_int_literal t ≡ true
    → use_fold (folded t) unfolded st ≡ ok t st
unfolding is_int_literal
use_fold-literal [] unfolded st d = absurd cc
use_fold-literal (c ∷ t) unfolded st d = refl

no_string : (a : Bool) → (a && (false || false)) ≡ false
no_string true = refl
no_string false = refl

-- An operator between two literals, where `try_fold-Computes` gives its value, becomes a text of the
-- type `int` with that value in every state, and no warning is recorded.
pub apply_operator-int :
    (left op right : Bytes) (st : State) {n : ℕ}
    → is_int_literal left ≡ true
    → is_int_literal right ≡ true
    → digits_value left < long_bound
    → digits_value right < long_bound
    → Computes op (digits_value left) (digits_value right) n
    → (text : Bytes) × (apply_operator left op right st ≡ ok text st)
      × (infer_type st text ≡ codes "int")
      × (digits_value text ≡ n)
unfolding apply_operator when◌run◌else◌
apply_operator-int left op right st p q h k c =
    let f = try_fold-Computes left op right p q h k c in
    (
      f.text,
      rw
          (
            warn_operands-int left op right st p q,
            is_string_arg-digits st left p,
            is_string_arg-digits st right q,
            no_string (is_equality op),
            f.result,
          )
          (use_fold-literal f.text (parenthesised left op right) st f.literal),
      infer_type-int st f.text f.literal,
      f.value,
    )
