-- ===== src/Parser/Expression.antt =====
-- Expressions: each function returns the C text. The functions call one another on fuel, a unit for
-- each call and each round of a loop.
pub mod Total
pub mod Grammar
mod Behind
mod Operands
pub mod Climbs
mod Leaf
unfoldable pub use Leaf.*
use demonic_c.Base.{
  ℕ, zero, suc, ◌+◌, Bool, true, false, not, ◌&&◌, ◌||◌, List, [], ◌∷◌, ◌++◌, ltb, leb,
  if◌then◌else◌,
}
use demonic_c.Text.{Bytes, codes, eqb, is, front_is, front_isalpha, front_isdigit, cat}
use demonic_c.Result.{out_of_range}
use demonic_c.Parser.State.{
  State, M, Outcome, ok, throws, overflow, out_of_fuel, bind, ◌>>=◌, ◌>>◌, pure, gets, peek, take,
  when◌run◌else◌, expect, skip_if, fail, type_warn, lookup_type,
}
use demonic_c.Parser.Types.{
  is_user_function, is_stdlib_fn, is_enum_variant_name, enum_variant_expr, is_float_arg,
  is_string_arg, infer_type,
}
use demonic_c.Parser.Fold.{binary_precedence, Folded, folded, too_big, overflows, try_fold}

unfoldable mutual
  pub expression : ℕ → Bytes → M Bytes
  expression zero end = λ s. out_of_fuel
  expression (suc f) end = parse_binary f 0 end

  pub parse_binary : ℕ → ℕ → Bytes → M Bytes
  parse_binary zero min_prec end = λ s. out_of_fuel
  parse_binary (suc f) min_prec end = do
    operand ← unary_expr f end
    first ← postfix f operand
    left ← binary_loop f min_prec end first
    next ← peek
    when is next "=" && not (is end "=")
        run (do
          take
          rhs ← expression f end
          pure (cat (codes "(" ∷ left ∷ codes " = " ∷ rhs ∷ codes ")" ∷ [])))
        else pure left

  -- `while (is_binary_op())`.
  pub binary_loop : ℕ → ℕ → Bytes → Bytes → M Bytes
  binary_loop zero min_prec end left = λ s. out_of_fuel
  binary_loop (suc f) min_prec end left = do
    next ← peek
    when ltb 0 (binary_precedence next) && leb min_prec (binary_precedence next)
        run (do
          op ← take
          right ← parse_binary f (binary_precedence next + 1) end
          left' ← apply_operator left op right
          binary_loop f min_prec end left')
        else pure left

  pub postfix : ℕ → Bytes → M Bytes
  postfix zero val = λ s. out_of_fuel
  postfix (suc f) val = do
    next ← peek
    when is next "("
        run (do
          take
          args ← arguments f
          expect (codes ")")
          st ← gets (λ s. s)
          postfix f (call_text st val args))
        else when is next "."
        run (do take; field ← take; postfix f (cat (codes "(" ∷ val ∷ codes ")." ∷ field ∷ [])))
        else when is next "["
        run (do
          take
          idx ← expression f (codes "]")
          expect (codes "]")
          postfix f (cat (codes "(" ∷ val ∷ codes ")[" ∷ idx ∷ codes "]" ∷ [])))
        else pure val

  -- The arguments of a call, of which there may be none.
  pub arguments : ℕ → M Bytes
  arguments zero = λ s. out_of_fuel
  arguments (suc f) = do
    next ← peek
    when is next ")" run pure [] else expression_list f (codes ")")

  pub unary_expr : ℕ → Bytes → M Bytes
  unary_expr zero end = λ s. out_of_fuel
  unary_expr (suc f) end = do
    next ← peek
    when is next "!" || is next "-" || is next "*"
        run (do
          op ← take
          inner ← unary_expr f end
          operand ← postfix f inner
          pure (cat (codes "(" ∷ op ∷ operand ∷ codes ")" ∷ [])))
        else when is next "&"
        run (do
          take
          inner ← unary_expr f end
          operand ← postfix f inner
          pure (cat (codes "(&" ∷ operand ∷ codes ")" ∷ [])))
        else when is next "("
        run (do
          take
          inner ← expression f (codes ")")
          expect (codes ")")
          pure (cat (codes "(" ∷ inner ∷ codes ")" ∷ [])))
        else when is next "["
        run (do
          take
          elems ← elements f
          expect (codes "]")
          pure (cat (codes "{" ∷ elems ∷ codes "}" ∷ [])))
        else when is next "true" || is next "false"
        run take
        else when is next "asm"
        run asm_inline f
        else when front_isalpha next || front_is b'_' next
        run (do name ← take; named f name)
        else when front_isdigit next
        run take
        else when front_is b'"' next
        run take
        else when is next "null"
        run (do take; pure (codes "((void*)0)"))
        else fail (cat (codes "expected expression, got '" ∷ next ∷ codes "'" ∷ []))

  -- The elements of an array literal, of which there may be none.
  pub elements : ℕ → M Bytes
  elements zero = λ s. out_of_fuel
  elements (suc f) = do next ← peek; when is next "]" run pure [] else expression_list f (codes "]")

  -- The rest of `unary_expr` behind a name.
  pub named : ℕ → Bytes → M Bytes
  named zero name = λ s. out_of_fuel
  named (suc f) name = do
    next ← peek
    st ← gets (λ s. s)
    when is next "::"
        run (do take; variant ← take; pure (enum_variant_expr st.enums name variant))
        else when is next "{"
        run struct_literal f name
        else when is_enum_variant_name st.enums name
        run pure (enum_variant_expr st.enums [] name)
        else (do warn_undeclared name; pure name)

  pub struct_literal : ℕ → Bytes → M Bytes
  struct_literal zero type_name = λ s. out_of_fuel
  struct_literal (suc f) type_name = do
    expect (codes "{")
    inits ← field_inits f true (cat (codes "(" ∷ type_name ∷ codes "){" ∷ []))
    expect (codes "}")
    pure (inits ++ codes "}")

  -- The loop of `struct_literal`.
  pub field_inits : ℕ → Bool → Bytes → M Bytes
  field_inits zero first result = λ s. out_of_fuel
  field_inits (suc f) first result = do
    next ← peek
    when is next "}" run pure result else (do
      fname ← take
      expect (codes ":")
      fval ← expression f (codes "}")
      skip_if (codes ",")
      field_inits f false (
          cat (
            result
            ∷ (if first then [] else codes ", ")
            ∷ codes "."
            ∷ fname
            ∷ codes " = "
            ∷ fval
            ∷ [])))

  pub expression_list : ℕ → Bytes → M Bytes
  expression_list zero end = λ s. out_of_fuel
  expression_list (suc f) end = do first ← expression f end; list_loop f end first

  -- `while (peek() == ",")`.
  pub list_loop : ℕ → Bytes → Bytes → M Bytes
  list_loop zero end result = λ s. out_of_fuel
  list_loop (suc f) end result = do
    next ← peek
    when is next ","
        run (do
          take
          after ← peek
          when eqb after end
              run pure result
              else (do e ← expression f end; list_loop f end (cat (result ∷ codes ", " ∷ e ∷ []))))
        else pure result
