-- ===== src/Tests/Examples.antt =====
-- The theorems on the lexer and the parser at small inputs.
use demonic_c.Base.{◌≡◌, refl, false, List, [], ◌∷◌, arith, ℕ, ◌⊎◌}
use demonic_c.Text.{codes, eqb}
use demonic_c.Result.{ok, throws}
use demonic_c.Lexer.{Token, lex, eof, unterminated_string}
use demonic_c.Lexer.Grammar.{Lexes, LeavesOpen}
use demonic_c.Lexer.Total.{lex_ends-Lexes}
use demonic_c.Parser.State.{
  State, Struct, Enum, Function, Outcome, out_of_fuel, peek, take, expect, when◌run◌else◌,
}
use demonic_c.Parser.Runs.{Runs, Yields, At}
use demonic_c.Parser.Fold.Value.{FoldsTo, product, try_fold-Computes}
use demonic_c.Parser.Fold.{is_int_literal, digits_from, try_fold}
use demonic_c.Parser.Expression.Total.{expression_ends}
use demonic_c.Parser.Expression.{expression}
use demonic_c.Parser.Statement.Total.{statement_ends}
use demonic_c.Parser.Statement.Scopes.{block-Yields}
use demonic_c.Parser.Statement.Dead.{Reads, block_inner-Yields}
use demonic_c.Parser.Statement.{block, statement, block_inner}
use demonic_c.Parser.Declaration.Loop.{Finishes, NoImport}
use demonic_c.Parser.Declaration.Hang.{declarations_hang}
use demonic_c.Parser.Declaration.{declarations}
use demonic_c.Parser.Source.{initial, source-Finishes}
use demonic_c.Parser.Merge.{merge_into}
use demonic_c.Parser.Merge.Names.{Merged, merge_into-Merged}
use demonic_c.Parser.Import.{import_name, import_loop, parse_imports}
use Prim.Native.String.{String}
use demonic_c.Tests.{tok, operators, operator_tokens, lex-operators}

lex_ends-Lexes_example :
    ((ts : List Token) × (lex operators ≡ ok ts) × Lexes 1 operators ts)
    ⊎ ((e : ℕ) × (lex operators ≡ throws (unterminated_string e)) × LeavesOpen 1 operators e)
lex_ends-Lexes_example = lex_ends-Lexes operators

-- `1 + x;`
abbrev sum_tokens : List Token
sum_tokens = tok "1" 1 ∷ tok "+" 1 ∷ tok "x" 1 ∷ tok ";" 1 ∷ eof 1 ∷ []

expression_ends_example :
    Runs 1 (initial sum_tokens) (expression 50 (codes ";") (initial sum_tokens))
expression_ends_example = expression_ends 50 (codes ";") (initial sum_tokens) refl (omega arith)

statement_ends_example : Runs 1 (initial sum_tokens) (statement 50 (initial sum_tokens))
statement_ends_example = statement_ends 50 (initial sum_tokens) refl (omega arith)

-- The inside of a block, `return 1; return 2; }`, and what is left behind it.
abbrev inside : State
inside = initial (
    tok "return" 1
    ∷ tok "1" 1
    ∷ tok ";" 1
    ∷ tok "return" 1
    ∷ tok "2" 1
    ∷ tok ";" 1
    ∷ tok "}" 1
    ∷ eof 1
    ∷ [])

abbrev behind : State
behind = initial (tok "}" 1 ∷ eof 1 ∷ [])

block_inner-two :
    block_inner 50 false [] inside ≡ Outcome.ok (codes "return 1;" ∷ codes "0;" ∷ []) behind
unfolding demonic_c.Tests.parsed
block_inner-two = refl

block_inner-Yields_example :
    Yields (λ out u. Reads false inside out u) (block_inner 80 false [] inside)
block_inner-Yields_example = block_inner-Yields 80 inside refl (omega arith)

-- `fn f ( ) { }`
abbrev empty_function : List Token
empty_function = tok "fn" 1 ∷ tok "f" 1 ∷ tok "(" 1 ∷ tok ")" 1 ∷ tok "{" 1 ∷ tok "}" 1 ∷ eof 1 ∷ []

lex-empty_function : lex (codes "fn f() {}") ≡ ok empty_function
unfolding lex
lex-empty_function = refl

empty_function-NoImport : NoImport empty_function
unfolding eqb
empty_function-NoImport = (refl, (refl, (refl, (refl, (refl, (refl, (refl, tt)))))))

source-Finishes_example : Finishes (declarations 70 (initial empty_function))
source-Finishes_example =
    source-Finishes (codes "fn f() {}") lex-empty_function empty_function-NoImport

-- `import x;` behind a declaration.
abbrev late_import : State
late_import = initial (tok "import" 2 ∷ tok "x" 2 ∷ tok ";" 2 ∷ eof 2 ∷ [])

late_import-At : At (codes "import") late_import
unfolding eqb
late_import-At = record {
  token = tok "import" 2;
  others = tok "x" 2 ∷ tok ";" 2 ∷ eof 2 ∷ [];
  whole = refl;
  text = refl;
}

declarations_hang_example : declarations 1000 late_import ≡ out_of_fuel
declarations_hang_example = declarations_hang late_import late_import-At 1000

try_fold-Computes_example : FoldsTo (try_fold (codes "20") (codes "*") (codes "3")) 60
unfolding is_int_literal digits_from
try_fold-Computes_example =
    try_fold-Computes (codes "20") (codes "*") (codes "3") refl refl (omega arith) (omega arith)
      (product (omega arith))

-- A file with one struct.
abbrev with_struct : String → State
with_struct name = record (initial []) { structs = record { name = codes name; fields = [] } ∷ [] }

merge_into-Merged_example :
    Merged
      (λ s. Struct.name s)
      (with_struct "A").structs
      (with_struct "B").structs
      (merge_into (with_struct "A") (with_struct "B")).structs
    × Merged (λ e. Enum.name e) [] [] (merge_into (with_struct "A") (with_struct "B")).enums
    × Merged (λ f. Function.name f) [] [] (merge_into (with_struct "A") (with_struct "B")).functions
merge_into-Merged_example = merge_into-Merged (with_struct "A") (with_struct "B")

-- `import "a.dmc"; fn`
abbrev one_import : State
one_import = initial (tok "import" 1 ∷ tok "\"a.dmc\"" 1 ∷ tok ";" 1 ∷ tok "fn" 1 ∷ eof 1 ∷ [])

abbrev imported : State
imported = initial (tok "fn" 1 ∷ eof 1 ∷ [])

parse_imports-one : parse_imports 10 one_import ≡ Outcome.ok (codes "a.dmc" ∷ []) imported
unfolding parse_imports import_loop import_name peek take expect when◌run◌else◌ eqb
parse_imports-one = refl

-- `{ let x = 1; }`
abbrev one_block : State
one_block = initial (
    tok "{" 1
    ∷ tok "let" 1
    ∷ tok "x" 1
    ∷ tok "=" 1
    ∷ tok "1" 1
    ∷ tok ";" 1
    ∷ tok "}" 1
    ∷ eof 1
    ∷ [])

block-one : block 80 one_block ≡ Outcome.ok (codes "int x = 1;" ∷ []) (initial (eof 1 ∷ []))
unfolding demonic_c.Tests.parsed
block-one = refl

block-Yields_example : Yields (λ stmts t. t.scopes ≡ one_block.scopes) (block 80 one_block)
block-Yields_example = block-Yields 80 one_block refl (omega arith)
