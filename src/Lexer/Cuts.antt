-- ===== src/Lexer/Cuts.antt =====
-- What the scanning loops of `lex` pass over, as splits of their input.
use demonic_c.Base.{
  ℕ, ◌≡◌, refl, sym, ap, ◌∙◌, subst, Bool, true, not, ◌&&◌, ◌||◌, [], ◌∷◌, ◌++◌, ◌==◌, if_intro,
  &&-eq-true, append_assoc, All, Bool-cases, inl, inr,
}
use demonic_c.Text.{Bytes, isdigit, front_isdigit}
use demonic_c.Lexer.{span, skip_comment, fraction, exponent_sign, exponent, number_tail}
use demonic_c.Lexer.Grammar.{
  Stops, NoByte, Digits, IsFraction, point, IsSign, sign, IsExponent, power,
}

-- `r` is `cs` cut in two, and the parts satisfy `P`, the first one last.
pub record Cuts (P : Bytes → Bytes → Type 0) (cs : Bytes) (r : Bytes × Bytes) : Type 0 where
  pub whole : cs ≡ r.0 ++ r.1
  pub part : P r.1 r.0

pub cut_again : {s b : Bytes} (a c d : Bytes) → s ≡ a ++ b → b ≡ c ++ d → s ≡ (a ++ c) ++ d
cut_again a c d p q = p ∙ ap (λ x. a ++ x) q ∙ sym (append_assoc a c d)

-- All of the bytes in front satisfy `p`, and the next does not.
abbrev pub Spans : (ℕ → Bool) → Bytes → Bytes → Type 0
Spans p rest s = All (λ c. p c ≡ true) s × Stops p rest

pub span-Cuts : (p : ℕ → Bool) (cs : Bytes) → Cuts (Spans p) cs (span p cs)
unfolding span
span-Cuts p [] = record { whole = refl; part = (tt, tt) }
span-Cuts p (c ∷ cs) =
    let ih = span-Cuts p cs in
    elim (Bool-cases (p c)) [
      | inl e ↦
          rw (e, span) (record { whole = ap (◌∷◌ c) ih.whole; part = ((e, ih.part.0), ih.part.1) })
      | inr e ↦ rw (e, span) (record { whole = refl; part = (tt, e) })
    ]

pub span_front :
    (d : ℕ) (r : Bytes) → isdigit d ≡ true → front_isdigit (span isdigit (d ∷ r)).0 ≡ true
unfolding span
span_front d r e = rw (e, span) e

pub fraction-Cuts : (cs : Bytes) → Cuts IsFraction cs (fraction cs)
unfolding fraction
fraction-Cuts [] = record { whole = refl; part = IsFraction.none tt }
fraction-Cuts (p ∷ []) = record { whole = refl; part = IsFraction.none tt }
fraction-Cuts (p ∷ d ∷ r) =
    let digits = span-Cuts isdigit (d ∷ r) in
    if_intro (Cuts IsFraction (p ∷ d ∷ r)) (p == b'.' && isdigit d)
      (λ e.
        let (dot, digit) = &&-eq-true (p == b'.') (isdigit d) e in
        record {
          whole = ap (◌∷◌ p) digits.whole;
          part = point dot (span_front d r digit) digits.part.0 digits.part.1;
        })
      (λ e. record { whole = refl; part = IsFraction.none e })

pub exponent_sign-Cuts : (cs : Bytes) → Cuts IsSign cs (exponent_sign cs)
unfolding exponent_sign
exponent_sign-Cuts [] = record { whole = refl; part = IsSign.none tt }
exponent_sign-Cuts (c ∷ cs) =
    if_intro (Cuts IsSign (c ∷ cs)) (c == b'+' || c == b'-')
      (λ e. record { whole = refl; part = sign e })
      (λ e. record { whole = refl; part = IsSign.none e })

pub exponent-Cuts : (cs : Bytes) → Cuts IsExponent cs (exponent cs)
unfolding exponent
exponent-Cuts [] = record { whole = refl; part = IsExponent.none tt }
exponent-Cuts (c ∷ cs) =
    let signs = exponent_sign-Cuts cs in
    let digits = span-Cuts isdigit (exponent_sign cs).1 in
    if_intro (Cuts IsExponent (c ∷ cs)) (c == b'e' || c == b'E')
      (λ e. record {
        whole = ap (◌∷◌ c) (cut_again _ _ _ signs.whole digits.whole);
        part =
            power _ _ e (subst (λ r. IsSign r (exponent_sign cs).0) digits.whole signs.part)
              digits.part.0 digits.part.1;
      })
      (λ e. record { whole = refl; part = IsExponent.none e })

-- The part is that of a number behind its first digit.
abbrev pub IsNumberTail : Bytes → Bytes → Type 0
IsNumberTail rest s =
    (ds fs es : Bytes) × (s ≡ ds ++ (fs ++ es))
    × Digits ds
    × Stops isdigit (fs ++ (es ++ rest))
    × IsFraction (es ++ rest) fs
    × IsExponent rest es

pub number_tail-Cuts : (cs : Bytes) → Cuts IsNumberTail cs (number_tail cs)
unfolding number_tail
number_tail-Cuts cs =
    let digits = span-Cuts isdigit cs in
    let fractions = fraction-Cuts (span isdigit cs).1 in
    let powers = exponent-Cuts (fraction (span isdigit cs).1).1 in
    let left = fractions.whole ∙ ap (λ r. (fraction (span isdigit cs).1).0 ++ r) powers.whole in
    record {
      whole = cut_again _ _ _ digits.whole (cut_again _ _ _ fractions.whole powers.whole);
      part = (
        _,
        _,
        _,
        refl,
        digits.part.0,
        subst (Stops isdigit) left digits.part.1,
        subst (λ r. IsFraction r (fraction (span isdigit cs).1).0) powers.whole fractions.part,
        powers.part,
      );
    }

pub skip_comment-Cuts :
    (cs : Bytes)
    → (s : Bytes) × (cs ≡ s ++ skip_comment cs)
      × NoByte b'\n' s
      × Stops (λ c. not (c == b'\n')) (skip_comment cs)
unfolding skip_comment
skip_comment-Cuts [] = ([], refl, tt, tt)
skip_comment-Cuts (c ∷ cs) =
    let (s, whole, none, ends) = skip_comment-Cuts cs in
    elim (Bool-cases (c == b'\n')) [
      | inl e ↦ ([], rw (e, skip_comment), tt, rw (e, skip_comment) (rw e))
      | inr e ↦
          (c ∷ s, rw (e, skip_comment) (ap (◌∷◌ c) whole), (e, none), rw (e, skip_comment) ends)
    ]
