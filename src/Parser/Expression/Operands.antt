-- ===== src/Parser/Expression/Operands.antt =====
-- `unary_expr` on the operands of the grammar: literals, variables, prefix operators and groups.
use demonic_c.Base.{
  ℕ, zero, suc, ◌≡◌, inl, inr, refl, ap, true, false, ◌||◌, String, List, [], ◌∷◌, arith,
  Bool-cases,
}
use demonic_c.Text.{Bytes, codes, eqb, eqb_iff, is, cat, front_is, front_isalpha, front_isdigit}
use demonic_c.Lexer.{Token}
use demonic_c.Parser.State.{State, ok, peek, take, when◌run◌else◌, expect}
use demonic_c.Parser.Fold.{binary_precedence}
use demonic_c.Parser.Expression.{named, warn_undeclared, expression, binary_loop, unary_expr}
use demonic_c.Parser.Expression.Grammar.{Tree, tokens, at, IsVariable, is_prefix, operand_level}
use demonic_c.Parser.Expression.Behind.{
  Follows, Good, OrFuel, OrFuel-bind, Plain, bind-then, parse_binary-Good, postfix-Plain,
}

digit_other :
    (t : Bytes) (c : String)
    → front_isdigit t ≡ true
    → front_isdigit (codes c) ≡ false
    → is t c ≡ false
digit_other t c h e = elim (Bool-cases (is t c)) [
  | inl same ↦ cc (h, e, ap front_isdigit ((eqb_iff t (codes c)).0 same))
  | inr other ↦ other
]

digit-front_isalpha :
    (t : Bytes) → front_isdigit t ≡ true → front_isalpha t || front_is b'_' t ≡ false
digit-front_isalpha [] h = refl
digit-front_isalpha (c ∷ cs) h = ground (arith, h)

pub unary_expr-literal :
    (f : ℕ) (end : Bytes) (s : State) (t : Token) (rest : List Token)
    → front_isdigit t.text ≡ true
    → OrFuel (unary_expr f end (at s (t ∷ rest))) (ok t.text (at s rest))
unfolding unary_expr peek take when◌run◌else◌
unary_expr-literal zero end s t rest h = inr refl
unary_expr-literal (suc f) end s t rest h = inl (
    rw (
      digit_other t.text "!" h refl,
      digit_other t.text "-" h refl,
      digit_other t.text "*" h refl,
      digit_other t.text "&" h refl,
      digit_other t.text "(" h refl,
      digit_other t.text "[" h refl,
      digit_other t.text "true" h refl,
      digit_other t.text "false" h refl,
      digit_other t.text "asm" h refl,
      digit-front_isalpha t.text h,
      h,
      digit_other t.text "<eof>" h refl,
    ))

-- What a text that begins with a letter or `_` is not.
name_other :
    (t : Bytes) (c : String)
    → front_isalpha t || front_is b'_' t ≡ true
    → front_isalpha (codes c) || front_is b'_' (codes c) ≡ false
    → is t c ≡ false
name_other t c h e = elim (Bool-cases (is t c)) [
  | inl same ↦
      absurd
        (cc (h, e, ap (λ u. front_isalpha u || front_is b'_' u) ((eqb_iff t (codes c)).0 same)))
  | inr other ↦ other
]

named-variable :
    (f : ℕ) (s : State) (t : Bytes) (n : Token) (rest : List Token)
    → IsVariable s t
    → Plain n
    → OrFuel (named f t (at s (n ∷ rest))) (ok t (at s (n ∷ rest)))
unfolding named warn_undeclared peek when◌run◌else◌
named-variable zero s t n rest v plain = inr refl
named-variable (suc f) s t n rest v plain =
    inl (rw (plain.no_scope, plain.no_brace, v.no_variant, plain.no_call, v.declared) refl)

pub unary_expr-variable :
    (f : ℕ) (end : Bytes) (s : State) (t n : Token) (rest : List Token)
    → IsVariable s t.text
    → Plain n
    → OrFuel (unary_expr f end (at s (t ∷ n ∷ rest))) (ok t.text (at s (n ∷ rest)))
unfolding unary_expr peek take when◌run◌else◌
unary_expr-variable zero end s t n rest v plain = inr refl
unary_expr-variable (suc f) end s t n rest v plain =
    rw
      (
        name_other t.text "!" v.letter refl,
        name_other t.text "-" v.letter refl,
        name_other t.text "*" v.letter refl,
        name_other t.text "&" v.letter refl,
        name_other t.text "(" v.letter refl,
        name_other t.text "[" v.letter refl,
        v.no_true,
        v.no_false,
        v.no_asm,
        v.letter,
        name_other t.text "<eof>" v.letter refl,
      )
      (named-variable f s t.text n rest v plain)

prefix_eof : (t : Bytes) → is_prefix t ≡ true → is t "<eof>" ≡ false
unfolding eqb
prefix_eof t h = elim (Bool-cases (is t "<eof>")) [
  | inl same ↦ absurd (cc (h, ap is_prefix ((eqb_iff t (codes "<eof>")).0 same)))
  | inr other ↦ other
]

pub unary_expr-prefixed :
    (f : ℕ) (end : Bytes) (s : State) (op : Token) {e : Tree} {v : Bytes} (n : Token)
    (rest : List Token)
    → is_prefix op.text ≡ true
    → Good s operand_level e v
    → Plain n
    → OrFuel
        (unary_expr f end (at s (op ∷ tokens e (n ∷ rest))))
        (ok (cat (codes "(" ∷ op.text ∷ v ∷ codes ")" ∷ [])) (at s (n ∷ rest)))
unfolding unary_expr peek take when◌run◌else◌
unary_expr-prefixed zero end s op n rest h good plain = inr refl
unary_expr-prefixed (suc f) end s op {e} {v} n rest h good plain =
    rw (h, prefix_eof op.text h)
      (OrFuel-bind _ (good.operand f end n rest (omega arith) plain)
        (OrFuel-bind _ (postfix-Plain f v s n rest plain) (inl refl)))

closing-Follows : (n : Token) → n.text ≡ codes ")" → Follows (codes ")") n
unfolding eqb
closing-Follows n e = record {
  plain = record {
    no_call = rw e;
    no_field = rw e;
    no_index = rw e;
    no_scope = rw e;
    no_brace = rw e;
  };
  no_assignment = rw e;
}

expression-group :
    (f : ℕ) (s : State) {e : Tree} {v : Bytes} (closing : Token) (rest : List Token)
    → closing.text ≡ codes ")"
    → Good s 0 e v
    → OrFuel
        (expression f (codes ")") (at s (tokens e (closing ∷ rest))))
        (ok v (at s (closing ∷ rest)))
unfolding expression binary_precedence eqb
expression-group zero s closing rest h good = inr refl
expression-group (suc f) s closing rest h good =
    let none : binary_precedence closing.text ≡ 0 = rw h in
    parse_binary-Good f 0 (codes ")") s closing rest good (omega (arith, none)) (rw h)
      (closing-Follows closing h)

pub unary_expr-group :
    (f : ℕ) (end : Bytes) (s : State) (opening : Token) {e : Tree} {v : Bytes} (closing : Token)
    (rest : List Token)
    → opening.text ≡ codes "("
    → closing.text ≡ codes ")"
    → Good s 0 e v
    → OrFuel
        (unary_expr f end (at s (opening ∷ tokens e (closing ∷ rest))))
        (ok (cat (codes "(" ∷ v ∷ codes ")" ∷ [])) (at s rest))
unfolding unary_expr peek take expect when◌run◌else◌ eqb
unary_expr-group zero end s opening closing rest h k good = inr refl
unary_expr-group (suc f) end s opening closing rest h k good =
    rw h (OrFuel-bind _ (expression-group f s closing rest k good) (inl (rw k)))

-- An operand is good on every level.
pub operand-Good :
    (s : State) (p : ℕ) (e : Tree) (v : Bytes)
    → ((f : ℕ) (end : Bytes) (n : Token) (rest : List Token)
        → Plain n
        → OrFuel (unary_expr f end (at s (tokens e (n ∷ rest)))) (ok v (at s (n ∷ rest))))
    → Good s p e v
operand-Good s p e v reads = record {
  climbs = λ f q end n rest le low w. (
    f,
    OrFuel-bind _ (reads f end n rest w.plain)
        (bind-then (binary_loop f q end) (postfix-Plain f v s n rest w.plain) refl),
  );
  operand = λ f end n rest le plain. reads f end n rest plain;
}
