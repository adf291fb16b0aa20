-- ===== src/Parser/Declaration.antt =====
-- Declarations: structs, enums, functions, and the loop of `collect_declarations` that reads them and
-- recovers from syntax errors.
pub mod Total
pub mod Round
pub mod Loop
pub mod Hang
use demonic_c.Base.{
  ℕ, zero, suc, Bool, true, false, ◌||◌, List, [], ◌∷◌, ◌++◌, Option, none, some, if◌then◌else◌,
}
use demonic_c.Text.{Bytes, codes, is}
use demonic_c.Result.{Error, runtime_error, out_of_range}
use demonic_c.Lexer.{Token}
use demonic_c.Parser.State.{
  Diagnostic, Param, Field, Function, Struct, Enum, State, M, Outcome, ok, throws, out_of_bounds,
  overflow, out_of_fuel, bind, ◌>>=◌, ◌>>◌, pure, gets, modify, current_line, peek, take,
  when◌run◌else◌, expect, skip_if, bind_type, push_scope, pop_scope,
}
use demonic_c.Parser.Statement.{type_name, optional_type, block}

unfoldable pub field_loop : ℕ → List Field → M (List Field)
field_loop zero fields = λ s. out_of_fuel
field_loop (suc f) fields = do
  next ← peek
  when is next "}" run pure fields else (do
    name ← take
    expect (codes ":")
    type ← type_name f
    expect (codes ";")
    field_loop f (fields ++ (record { name = name; type = type } ∷ [])))

-- What follows the keyword `struct`.
unfoldable pub struct_rest : ℕ → M Struct
struct_rest f = do
  name ← take
  expect (codes "{")
  fields ← field_loop f []
  expect (codes "}")
  skip_if (codes ";")
  pure (record { name = name; fields = fields })

unfoldable pub structure : ℕ → M Struct
structure f = do expect (codes "struct"); struct_rest f

unfoldable pub variant_loop : ℕ → List Bytes → M (List Bytes)
variant_loop zero variants = λ s. out_of_fuel
variant_loop (suc f) variants = do
  next ← peek
  when is next "}"
      run pure variants
      else (do variant ← take; skip_if (codes ","); variant_loop f (variants ++ (variant ∷ [])))

-- What follows the keyword `enum`.
unfoldable pub enum_rest : ℕ → M Enum
enum_rest f = do
  name ← take
  expect (codes "{")
  variants ← variant_loop f []
  expect (codes "}")
  skip_if (codes ";")
  pure (record { name = name; variants = variants })

unfoldable pub parse_enum : ℕ → M Enum
parse_enum f = do expect (codes "enum"); enum_rest f

-- An attribute behind its `#[`.
unfoldable pub attribute_rest : M Bytes
attribute_rest = do attr ← take; expect (codes "]"); pure attr

unfoldable pub attribute_loop : ℕ → List Bytes → M (List Bytes)
attribute_loop zero attrs = λ s. out_of_fuel
attribute_loop (suc f) attrs = do
  next ← peek
  when is next "#["
      run (do take; attr ← attribute_rest; attribute_loop f (attrs ++ (attr ∷ [])))
      else pure attrs

-- The loop over the parameters, of which there is one at least.
unfoldable pub param_loop : ℕ → List Param → M (List Param)
param_loop zero params = λ s. out_of_fuel
param_loop (suc f) params = do
  name ← take
  type ← optional_type f (codes "int")
  bind_type name type
  next ← peek
  when is next ","
      run (do take; param_loop f (params ++ (record { name = name; type = type } ∷ [])))
      else pure (params ++ (record { name = name; type = type } ∷ []))

unfoldable pub parameters : ℕ → M (List Param)
parameters f = do next ← peek; when is next ")" run pure [] else param_loop f []

unfoldable pub return_type : ℕ → M Bytes
return_type f = do next ← peek; when is next "->" run (do take; type_name f) else pure (codes "int")

abbrev pub set_ret : Bytes → M (Unit {0})
set_ret type = modify (λ s. record s { current_ret = type })

-- The parameters, the return type and the body, in the scope of the function.
unfoldable pub function_scope : ℕ → List Bytes → Bytes → M Function
function_scope f attrs name = do
  params ← parameters f
  expect (codes ")")
  ret_type ← return_type f
  saved ← gets (λ s. s.current_ret)
  set_ret ret_type
  body ← block f
  set_ret saved
  pure (record {
    name = name;
    ret_type = ret_type;
    params = params;
    body = body;
    attributes = attrs;
  })

-- What follows the keyword `fn`.
unfoldable pub function_rest : ℕ → List Bytes → M Function
function_rest f attrs = do
  name ← take
  expect (codes "(")
  push_scope
  fn ← function_scope f attrs name
  pop_scope
  pure fn

unfoldable pub function : ℕ → M Function
function f = do attrs ← attribute_loop f []; expect (codes "fn"); function_rest f attrs

-- The `try` block.
unfoldable pub declaration : ℕ → M (Unit {0})
declaration f = do
  next ← peek
  when is next "struct"
      run (do d ← structure f; modify (λ s. record s { structs = s.structs ++ (d ∷ []) }))
      else when is next "enum"
      run (do d ← parse_enum f; modify (λ s. record s { enums = s.enums ++ (d ∷ []) }))
      else (do d ← function f; modify (λ s. record s { functions = s.functions ++ (d ∷ []) }))

abbrev pub starts_decl : Bytes → Bool
starts_decl t = is t "struct" || is t "enum" || is t "fn" || is t "import"

-- The tokens behind `skip_to_decl`; `none` is a read behind the last.
unfoldable pub skip_tokens : List Token → Option (List Token)
skip_tokens [] = none
skip_tokens (t ∷ ts) =
    if is t.text "<eof>" || starts_decl t.text then some (t ∷ ts) else skip_tokens ts

abbrev pub moved_to : State → Option (List Token) → Outcome (Unit {0})
moved_to s none = out_of_bounds
moved_to s (some ts) = ok tt (record s { rest = ts })

unfoldable pub skip_to_decl : M (Unit {0})
skip_to_decl s = moved_to s (skip_tokens s.rest)

-- The `catch` block, which does not catch `std::out_of_range`.
unfoldable pub recover : Bytes → M (Unit {0})
recover message = do
  line ← current_line
  modify (λ s. record s {
    diagnostics = s.diagnostics ++ (record { line = line; message = message } ∷ []);
  })
  skip_to_decl

abbrev pub catch : Outcome (Unit {0}) → Outcome (Unit {0})
catch (throws (runtime_error message) s) = recover message s
catch (throws out_of_range s) = throws out_of_range s
catch (ok a s) = ok a s
catch out_of_bounds = out_of_bounds
catch overflow = overflow
catch out_of_fuel = out_of_fuel

-- `while (peek() != "<eof>")`.
unfoldable pub declarations : ℕ → M (Unit {0})
declarations zero = λ s. out_of_fuel
declarations (suc f) = do
  next ← peek
  when is next "<eof>" run pure tt else (do (λ s. catch (declaration f s)); declarations f)
