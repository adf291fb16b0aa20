-- ===== src/Tests/Expressions.antt =====
-- The theorems on operators at `1 + n * -3;` and `20 * 3`.
use demonic_c.Parser.Fold.Value.{product}
use demonic_c.Parser.Fold.Typed.{apply_operator-int}
use demonic_c.Base.{ℕ, ◌≡◌, refl, List, [], ◌∷◌, arith}
use demonic_c.Text.{Bytes, codes, eqb}
use demonic_c.Lexer.{Token, eof}
use demonic_c.Parser.State.{when◌run◌else◌, State, ok, lookup_type}
use demonic_c.Parser.Source.{initial}
use demonic_c.Parser.Types.{infer_type, is_enum_variant_name}
use demonic_c.Parser.Fold.{is_int_literal, digits_from, digits_value, try_fold, binary_precedence}
use demonic_c.Parser.Expression.{expression, apply_operator, warn_operands}
use demonic_c.Parser.Expression.Grammar.{
  Tree, leaf, prefixed, binary, tokens, at, IsVariable, Reads, reads_literal, reads_name,
  reads_prefixed, reads_binary,
}
use demonic_c.Parser.Expression.Climbs.{Ends, expression-Reads}
use demonic_c.Tests.{tok}

abbrev tree : Tree
tree =
    binary (leaf (tok "1" 1)) (tok "+" 1)
      (binary (leaf (tok "n" 1)) (tok "*" 1) (prefixed (tok "-" 1) (leaf (tok "3" 1))))

abbrev int_declared : State
int_declared = record (initial []) { scopes = ((codes "n", codes "int") ∷ []) ∷ [] }

product_applies :
    (rest : List Token)
    → apply_operator (codes "n") (codes "*") (codes "(-3)") (at int_declared rest)
      ≡ ok (codes "(n * (-3))") (at int_declared rest)
unfolding apply_operator warn_operands when◌run◌else◌ eqb infer_type try_fold lookup_type
product_applies rest = refl

sum_applies :
    (rest : List Token)
    → apply_operator (codes "1") (codes "+") (codes "(n * (-3))") (at int_declared rest)
      ≡ ok (codes "(1 + (n * (-3)))") (at int_declared rest)
unfolding apply_operator warn_operands when◌run◌else◌ eqb infer_type try_fold lookup_type
sum_applies rest = refl

abbrev negated : Tree
negated = prefixed (tok "-" 1) (leaf (tok "3" 1))

negated-Reads : {p : ℕ} → Reads int_declared p negated (codes "(-3)")
unfolding eqb
negated-Reads = reads_prefixed (tok "-" 1) refl (reads_literal (tok "3" 1) refl)

n-IsVariable : IsVariable int_declared (codes "n")
unfolding eqb lookup_type is_enum_variant_name
n-IsVariable = record {
  letter = refl;
  no_true = refl;
  no_false = refl;
  no_asm = refl;
  no_variant = refl;
  declared = refl;
}

product-Reads :
    Reads int_declared 6 (binary (leaf (tok "n" 1)) (tok "*" 1) negated) (codes "(n * (-3))")
unfolding binary_precedence eqb
product-Reads =
    reads_binary (tok "*" 1) (omega arith) (omega arith) (reads_name (tok "n" 1) n-IsVariable)
      negated-Reads product_applies

tree-Reads : Reads int_declared 0 tree (codes "(1 + (n * (-3)))")
unfolding binary_precedence eqb
tree-Reads =
    reads_binary (tok "+" 1) (omega arith) (omega arith) (reads_literal (tok "1" 1) refl)
      product-Reads sum_applies

semicolon-Ends : Ends (codes ";") (tok ";" 1)
unfolding binary_precedence eqb
semicolon-Ends = record {
  no_operator = refl;
  no_call = refl;
  no_field = refl;
  no_index = refl;
  no_scope = refl;
  no_brace = refl;
  no_assignment = refl;
}

abbrev all_tokens : List Token
all_tokens =
    tok "1" 1 ∷ tok "+" 1 ∷ tok "n" 1 ∷ tok "*" 1 ∷ tok "-" 1 ∷ tok "3" 1 ∷ tok ";" 1 ∷ eof 1 ∷ []

expression-Reads_example :
    expression 67 (codes ";") (at int_declared all_tokens)
    ≡ ok (codes "(1 + (n * (-3)))") (at int_declared (tok ";" 1 ∷ eof 1 ∷ []))
unfolding tokens
expression-Reads_example =
    expression-Reads 67 (codes ";") int_declared (tok ";" 1) (eof 1 ∷ []) tree-Reads semicolon-Ends
      refl (omega arith)

apply_operator-int_example :
    (text : Bytes) × (apply_operator (codes "20") (codes "*") (codes "3") int_declared
      ≡ ok text int_declared)
    × (infer_type int_declared text ≡ codes "int")
    × (digits_value text ≡ 60)
unfolding is_int_literal digits_from
apply_operator-int_example =
    apply_operator-int (codes "20") (codes "*") (codes "3") int_declared refl refl (omega arith)
      (omega arith) (product (omega arith))
