-- ===== src/Parser/Expression/Climbs.antt =====
-- `parse_binary` reads the grammar of operators.
use demonic_c.Base.{
  ℕ, zero, suc, ◌+◌, ◌*◌, ◌≤◌, ◌<◌, ◌≡◌, inl, inr, refl, ◌∙◌, subst, true, false, not, ◌&&◌, List,
  ◌∷◌, arith, length,
}
use demonic_c.Text.{Bytes, eqb, is}
use demonic_c.Lexer.{Token}
use demonic_c.Parser.State.{State, Outcome, ok, out_of_fuel, peek, take, when◌run◌else◌}
use demonic_c.Parser.Fold.{binary_precedence}
use demonic_c.Parser.Runs.{Ended, Runs}
use demonic_c.Parser.Expression.{expression, binary_loop, apply_operator}
use demonic_c.Parser.Expression.Total.{expression_ends}
use demonic_c.Parser.Expression.Grammar.{
  Tree, tokens, at, Reads, reads_literal, reads_name, reads_prefixed, reads_group, reads_binary,
}
use demonic_c.Parser.Expression.Behind.{
  Follows, Good, OrFuel, bind-then, operator-Follows, other_than, parse_binary-Good, precedence_le,
  stops,
}
use demonic_c.Parser.Expression.Operands.{
  operand-Good, unary_expr-group, unary_expr-literal, unary_expr-variable, unary_expr-prefixed,
}

operator-eof : (t : Bytes) → 0 < binary_precedence t → is t "<eof>" ≡ false
unfolding binary_precedence eqb
operator-eof t h = other_than t "<eof>" h refl

-- One round of the loop of `parse_binary`.
binary_loop-round :
    (g p : ℕ) (end v : Bytes) (s : State) (op : Token) {r : Tree} {w x : Bytes} (n : Token)
    (rest : List Token)
    → 0 < binary_precedence op.text
    → p ≤ binary_precedence op.text
    → Good s (binary_precedence op.text + 1) r w
    → ((rest : List Token) → apply_operator v op.text w (at s rest) ≡ ok x (at s rest))
    → binary_precedence n.text ≤ binary_precedence op.text
    → Follows end n
    → OrFuel
        (binary_loop (suc g) p end v (at s (op ∷ tokens r (n ∷ rest))))
        (binary_loop g p end x (at s (n ∷ rest)))
unfolding binary_loop peek take when◌run◌else◌
binary_loop-round g p end v s op {r} {w} {x} n rest some le good applies low follows =
    let k = binary_precedence op.text in
    let goes : stops p op ≡ true = ground (arith, some, le) in
    let eof : is op.text "<eof>" ≡ false = operator-eof op.text some in
    let ends : stops (k + 1) n ≡ false = ground (arith, low) in
    rw (goes, eof)
      (bind-then _ (parse_binary-Good g (k + 1) end s n rest good (omega (arith, low)) ends follows)
        (rw (applies (n ∷ rest)) refl))

Reads-Good : (s : State) {q : ℕ} {e : Tree} {v : Bytes} → Reads s q e v → Good s q e v
unfolding tokens binary_loop
Reads-Good s {q} {e} {v} (reads_literal t digit) =
    operand-Good s q e v (λ f end n rest plain. unary_expr-literal f end s t (n ∷ rest) digit)
Reads-Good s {q} {e} {v} (reads_name t variable) =
    operand-Good s q e v (λ f end n rest plain. unary_expr-variable f end s t n rest variable plain)
Reads-Good s {q} {e} {v} (reads_prefixed op h inner) =
    operand-Good s q e v
      (λ f end n rest plain. unary_expr-prefixed f end s op n rest h (Reads-Good s inner) plain)
Reads-Good s {q} {e} {v} (reads_group opening closing h k inner) =
    operand-Good s q e v (λ f end n rest plain.
      unary_expr-group f end s opening closing (n ∷ rest) h k (Reads-Good s inner))
Reads-Good s {q} (reads_binary {l} {r} {v} {w} {x} op some le left right applies) = record {
  climbs = λ f p end n rest p_le low follows.
      behind p end op n rest
        ((Reads-Good s left).climbs f p end op (tokens r (n ∷ rest)) (omega (arith, le, p_le))
          (omega arith) (operator-Follows end op some))
        (λ g.
          binary_loop-round g p end v s op n rest some (omega (arith, le, p_le))
            (Reads-Good s right) applies (omega (arith, low, le)) follows);
  operand = λ f end n rest high plain. absurd (omega (arith, high, le, precedence_le op.text));
}
  where
    behind :
        (p : ℕ) (end : Bytes) (op n : Token) (rest : List Token) {m : Outcome Bytes}
        → (g : ℕ) × OrFuel m (binary_loop g p end v (at s (op ∷ tokens r (n ∷ rest))))
        → ((g : ℕ)
            → OrFuel
                (binary_loop (suc g) p end v (at s (op ∷ tokens r (n ∷ rest))))
                (binary_loop g p end x (at s (n ∷ rest))))
        → (g : ℕ) × OrFuel m (binary_loop g p end x (at s (n ∷ rest)))
    behind p end op n rest (g, inr short) round = (g, inr short)
    behind p end op n rest (zero, inl same) round = (0, inr same)
    behind p end op n rest (suc g, inl same) round =
        (g, elim (round g) [ inl x ↦ inl (same ∙ x) | inr short ↦ inr (same ∙ short) ])

-- What may stand behind an expression that ends at the token `end`: none of the tokens that would go on.
pub record Ends (end : Bytes) (n : Token) : Type 0 where
  pub no_operator : binary_precedence n.text ≡ 0
  pub no_call : is n.text "(" ≡ false
  pub no_field : is n.text "." ≡ false
  pub no_index : is n.text "[" ≡ false
  pub no_scope : is n.text "::" ≡ false
  pub no_brace : is n.text "{" ≡ false
  pub no_assignment : is n.text "=" && not (is end "=") ≡ false

expression-Good :
    (f : ℕ) (end : Bytes) (s : State) {e : Tree} {v : Bytes} (n : Token) (rest : List Token)
    → Good s 0 e v
    → Ends end n
    → OrFuel (expression f end (at s (tokens e (n ∷ rest)))) (ok v (at s (n ∷ rest)))
unfolding expression
expression-Good zero end s n rest good ends = inr refl
expression-Good (suc f) end s n rest good ends =
    parse_binary-Good f 0 end s n rest good (omega (arith, ends.no_operator)) (rw ends.no_operator)
      (record {
        plain = record {
          no_call = ends.no_call;
          no_field = ends.no_field;
          no_index = ends.no_index;
          no_scope = ends.no_scope;
          no_brace = ends.no_brace;
        };
        no_assignment = ends.no_assignment;
      })

Runs-out_of_fuel : {u : State} → let short : Outcome Bytes = out_of_fuel in Runs 1 u short → ⊥
Runs-out_of_fuel r = elim r [ ]

-- On the tokens of an expression of the grammar with a token behind it that does not go on with it, on
-- eight units of fuel for each token and three more, `expression` returns the C text of the
-- expression's tree. It stops at that token and leaves the rest of the state as it was.
pub expression-Reads :
    (f : ℕ) (end : Bytes) (s : State) {e : Tree} {v : Bytes} (n : Token) (rest : List Token)
    → Reads s 0 e v
    → Ends end n
    → Ended (tokens e (n ∷ rest))
    → 8 * length (tokens e (n ∷ rest)) + 3 ≤ f
    → expression f end (at s (tokens e (n ∷ rest))) ≡ ok v (at s (n ∷ rest))
expression-Reads f end s {e} {v} n rest reads ends ended fuel =
    elim (expression-Good f end s n rest (Reads-Good s reads) ends) [
      | inl same ↦ same
      | inr short ↦ absurd (
          Runs-out_of_fuel (
            subst (Runs 1 (at s (tokens e (n ∷ rest)))) short
              (expression_ends f end (at s (tokens e (n ∷ rest))) ended fuel)))
    ]
