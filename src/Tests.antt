-- ===== src/Tests.antt =====
-- Runs of the lexer and the parser of compiler/dmc.cpp on small inputs.
mod Examples
mod Tools
mod Runtime
mod Emitted
mod Databases
mod Build
mod Imports
mod Expressions
mod Main
use Prim.Native.String.{String}
use demonic_c.Base.{ℕ, zero, suc, ◌≡◌, refl, List, [], ◌∷◌, map}
use demonic_c.Text.{Bytes, codes, eqb, starts_with, find, rfind, contains, to_string}
use demonic_c.Result.{Result, ok}
use demonic_c.Lexer.{Token, lex, eof, unterminated_string}
use demonic_c.Parser.State.{
  State, Function, Outcome, peek, when◌run◌else◌, take, expect, skip_if, fail, throw_error,
  type_warn, bind_type, current_line, lookup_in, lookup_type,
}
use demonic_c.Parser.Types.{
  ctype, find_function, is_stdlib_fn, is_enum_variant_name, is_enum_value, enum_type_of,
  enum_variant_expr, struct_field_type, is_float_arg, is_string_arg, infer_type, is_compatible,
}
use demonic_c.Parser.Fold.{binary_precedence, try_fold}
use demonic_c.Parser.Expression.{
  warn_operands, apply_operator, call_text, warn_undeclared, asm_tokens, asm_inline, expression,
}
use demonic_c.Parser.Statement.{
  type_name, optional_type, let_statement, warn_return, return_statement, condition, for_header,
  asm_statement, terminates, statement,
}
use demonic_c.Parser.Statement.Text.{
  let_text, indented, if_text, while_text, for_text, do_text, until_text, at_case, at_default,
  at_statement, switch_text,
}
use demonic_c.Parser.Declaration.{
  field_loop, struct_rest, structure, variant_loop, enum_rest, parse_enum, attribute_rest,
  attribute_loop, param_loop, parameters, return_type, function_scope, function_rest, function,
  declaration, skip_tokens, skip_to_decl, recover, declarations,
}
use demonic_c.Parser.Source.{initial}

abbrev tok : String → ℕ → Token
tok s l = record { text = codes s; line = l }

abbrev tokens_of : Result (List Token) → List Token
tokens_of (ok ts) = ts
tokens_of _ = []

abbrev state_of : {A : Type 0} → Outcome A → State
state_of (Outcome.ok a s) = s
state_of (Outcome.throws e s) = s
state_of _ = initial []

-- The functions, errors and warnings of a source, on 1000 units of fuel.
unfoldable parsed : Bytes → State
unfolding lex declarations declaration structure struct_rest field_loop parse_enum enum_rest
    variant_loop attribute_rest attribute_loop param_loop parameters return_type function_scope
    function_rest function skip_tokens skip_to_decl recover type_name optional_type let_statement
    warn_return return_statement condition for_header asm_statement terminates statement
    warn_operands apply_operator call_text warn_undeclared asm_tokens asm_inline expression
    binary_precedence try_fold ctype find_function is_stdlib_fn is_enum_variant_name is_enum_value
    enum_type_of enum_variant_expr struct_field_type is_float_arg is_string_arg infer_type
    is_compatible peek when◌run◌else◌ take expect skip_if fail throw_error type_warn bind_type
    current_line lookup_in lookup_type eqb starts_with find rfind contains to_string let_text
    indented if_text while_text for_text do_text until_text at_case at_default at_statement
    switch_text
parsed src = state_of (declarations 1000 (initial (tokens_of (lex src))))

abbrev operators : Bytes
operators = codes "let x = 1.5e+3; // c\n a->b \"q\\\"\" <="

abbrev operator_tokens : List Token
operator_tokens =
    tok "let" 1
    ∷ tok "x" 1
    ∷ tok "=" 1
    ∷ tok "1.5e+3" 1
    ∷ tok ";" 1
    ∷ tok "a" 2
    ∷ tok "->" 2
    ∷ tok "b" 2
    ∷ tok "\"q\\\"\"" 2
    ∷ tok "<=" 2
    ∷ eof 2
    ∷ []

lex-operators : lex operators ≡ ok operator_tokens
unfolding lex
lex-operators = refl

lex-open_string : lex (codes "a\n\"b") ≡ Result.throws (unterminated_string 2)
unfolding lex
lex-open_string = refl

-- The newline behind the backslash is not counted.
lex-escaped_newline : lex (codes "\"\\\n\" x") ≡ ok (tok "\"\\\n\"" 1 ∷ tok "x" 1 ∷ eof 1 ∷ [])
unfolding lex
lex-escaped_newline = refl

abbrev bodies : State → List (List Bytes)
bodies s = map (λ f. f.body) s.functions

parsed-main :
    bodies (
      parsed
        (codes "fn main() -> int { let x: int = 1 + 2 * 3; if (x == 7) { return x; } return 0; }"))
    ≡ (codes "int x = 7;" ∷ codes "if ((x == 7)) {\n    return x;\n}" ∷ codes "return 0;" ∷ []) ∷ []
unfolding parsed
parsed-main = refl

-- The error in the first function is recorded, and the second is read.
parsed-recovers :
    (bodies (parsed (codes "fn f( { }\nfn g() { break; }")) ≡ (codes "break;" ∷ []) ∷ [])
    × (map (λ d. d.line) (parsed (codes "fn f( { }\nfn g() { break; }")).diagnostics ≡ 1 ∷ [])
unfolding parsed
parsed-recovers = (refl, refl)

-- A call whose name begins with `return` ends the block.
parsed-returned :
    bodies (parsed (codes "fn f() { returned(1); g(2); }"))
    ≡ (codes "returned(1);" ∷ codes "0;" ∷ []) ∷ []
unfolding parsed
parsed-returned = refl
