-- ===== src/Parser/Types.antt =====
-- The types of the source language as the parser sees them: texts. `ctype` is a function of its own in
-- compiler/dmc.cpp, the others are the const members of `class Parser`.
use Prim.Native.String.{String}
use demonic_c.Base.{
  ℕ, zero, suc, ◌+◌, ◌-◌, Bool, false, ◌&&◌, ◌||◌, List, [], ◌∷◌, ◌++◌, Option, none, some, leb,
  if◌then◌else◌, length, any, find_map, drop,
}
use demonic_c.Text.{
  Bytes, codes, eqb, is, starts_with, rfind, contains, find_byte, substr, front_is, front_isalpha,
  front_isdigit,
}
use demonic_c.Parser.State.{Function, Struct, Enum, State, lookup_type}

-- An array type `[elem;size]`, cut at its first `;`. With no `;` the position is `npos`, the greatest
-- number, and `npos + 1` is 0.
abbrev pub array_elem : Bytes → Bytes
array_elem type = elim (find_byte b';' type) [
  | none ↦ drop 1 type
  | some sep ↦ substr type 1 (sep - 1)
]

abbrev pub array_size : Bytes → Bytes
array_size type = elim (find_byte b';' type) [
  | none ↦ substr type 0 (length type - 1)
  | some sep ↦ substr type (sep + 1) (length type - sep - 2)
]

-- Each recursive call is on a shorter text, so a unit of fuel for each byte and one more is enough.
unfoldable pub ctype_from : ℕ → Bytes → Bytes
ctype_from zero type = type
ctype_from (suc f) type =
    let inner = ctype_from f (drop 1 type) ++ codes "*" in
    let elem : Bytes = elim (find_byte b';' type) [
      | none ↦ type
      | some sep ↦ ctype_from f (substr type 1 (sep - 1))
    ] in
    if is type "string"
    then codes "const char*"
    else if is type "bool"
    then codes "bool"
    else if is type "void"
    then codes "void"
    else if is type "f32"
    then codes "float"
    else if is type "f64"
    then codes "double"
    else if front_is b'*' type
    then inner
    else if front_is b'[' type
    then elem
    else if is type ""
    then codes "long long"
    else type

unfoldable pub ctype : Bytes → Bytes
unfolding ctype_from
ctype type = ctype_from (suc (length type)) type

unfoldable pub find_function : List Function → Bytes → Option Function
find_function functions name = find_map (λ fn. if eqb fn.name name then some fn else none) functions

abbrev pub is_user_function : List Function → Bytes → Bool
is_user_function functions name = any (λ fn. eqb fn.name name) functions

abbrev pub stdlib_fns : List String
stdlib_fns =
    "print" ∷ "println" ∷ "mem_alloc" ∷ "mem_free" ∷ "mem_size" ∷ "mem_write" ∷ "mem_read"
    ∷ "mem_map" ∷ "mem_unmap" ∷ "file_open" ∷ "file_read" ∷ "file_write" ∷ "file_close"
    ∷ "tcp_connect" ∷ "tcp_send" ∷ "tcp_recv" ∷ "tcp_close" ∷ "vec_new" ∷ "vec_len" ∷ "vec_push"
    ∷ "vec_get" ∷ "vec_set" ∷ "vec_free" ∷ "queue_new" ∷ "queue_len" ∷ "queue_push" ∷ "queue_pop"
    ∷ "queue_peek" ∷ "queue_free" ∷ "map_new" ∷ "map_set" ∷ "map_get" ∷ "map_has" ∷ "map_len"
    ∷ "map_free" ∷ "math_abs" ∷ "math_min" ∷ "math_max" ∷ "math_clamp" ∷ "math_sin" ∷ "math_cos"
    ∷ "math_tan" ∷ "math_sqrt" ∷ "math_floor" ∷ "math_ceil" ∷ "math_abs_f" ∷ "math_pi" ∷ "math_e"
    ∷ "text_len" ∷ "text_concat" ∷ "text_sub" ∷ "text_char_at" ∷ "text_cmp" ∷ "text_from_int"
    ∷ "text_from_float" ∷ "text_to_int" ∷ "text_to_float" ∷ "string_copy" ∷ "string_slice"
    ∷ "proc_arg_count" ∷ "proc_exit" ∷ "syscall" ∷ "interrupt" ∷ []

unfoldable pub is_stdlib_fn : Bytes → Bool
is_stdlib_fn name = any (is name) stdlib_fns

-- `e.name + "::" + v` and `e.name + "_" + v`.
abbrev pub scoped_name : Enum → Bytes → Bytes
scoped_name e v = e.name ++ (codes "::" ++ v)

abbrev pub c_name : Enum → Bytes → Bytes
c_name e v = e.name ++ (codes "_" ++ v)

unfoldable pub is_enum_variant_name : List Enum → Bytes → Bool
is_enum_variant_name enums name =
    any (λ e. any (λ v. eqb name (scoped_name e v) || eqb name v) e.variants) enums

unfoldable pub is_enum_value : List Enum → Bytes → Bool
is_enum_value enums val =
    any (λ e. any (λ v. eqb val (scoped_name e v) || eqb val (c_name e v)) e.variants) enums

unfoldable pub enum_type_of : List Enum → Bytes → Bytes
enum_type_of enums val =
    elim (find_map
      (λ e.
        find_map
          (λ v. if eqb val (scoped_name e v) || eqb val (c_name e v) then some e.name else none)
          e.variants)
      enums) [ none ↦ codes "int" | some name ↦ name ]

unfoldable pub enum_variant_expr : List Enum → Bytes → Bytes → Bytes
enum_variant_expr enums enum_name variant =
    elim (find_map
      (λ e.
        find_map
          (λ v.
            if (is enum_name "" || eqb e.name enum_name) && eqb v variant
            then some (c_name e v)
            else none)
          e.variants)
      enums) [ none ↦ variant | some name ↦ name ]

unfoldable pub struct_field_type : List Struct → Bytes → Bytes
struct_field_type structs field =
    elim (find_map
      (λ (s : Struct). find_map (λ f. if eqb f.name field then some f.type else none) s.fields)
      structs) [ none ↦ [] | some type ↦ type ]

-- `val` begins with a call of one of these functions.
abbrev pub calls_one_of : List String → Bytes → Bool
calls_one_of names val = any (λ name. starts_with (codes name ++ codes "(") val) names

abbrev pub string_fns : List String
string_fns =
    "file_read" ∷ "tcp_recv" ∷ "text_concat" ∷ "text_sub" ∷ "text_from_int" ∷ "text_from_float"
    ∷ "proc_exit" ∷ "string_copy" ∷ "string_slice" ∷ "arg_text" ∷ []

abbrev pub float_fns : List String
float_fns =
    "math_sin" ∷ "math_cos" ∷ "math_tan" ∷ "math_sqrt" ∷ "math_floor" ∷ "math_ceil" ∷ "math_abs_f"
    ∷ "math_pi" ∷ "math_e" ∷ "text_to_float" ∷ "text_from_float" ∷ []

-- The return type of the function whose name stands in front of the first `(`.
abbrev pub called_type : List Function → Bytes → Option Bytes
called_type functions val = elim (find_byte b'(' val) [
  | none ↦ none
  | some open_at ↦ elim (find_function functions (substr val 0 open_at)) [
    | none ↦ none
    | some fn ↦ some fn.ret_type
  ]
]

-- The field behind the last `).`, if it begins with a letter.
abbrev pub selected_field : Bytes → Option Bytes
selected_field val = elim (rfind (codes ").") val) [
  | none ↦ none
  | some dot ↦ (let field = drop (dot + 2) val in if front_isalpha field then some field else none)
]

abbrev pub is_float_type : Bytes → Bool
is_float_type t = is t "f32" || is t "f64"

abbrev pub holds_of : (Bytes → Bool) → Option Bytes → Bool
holds_of p none = false
holds_of p (some s) = p s

unfoldable pub is_float_arg : State → Bytes → Bool
unfolding lookup_type find_function contains starts_with
is_float_arg st arg =
    leb 3 (length arg) && front_isdigit arg && contains (codes ".") arg
    || front_isalpha arg && is_float_type (lookup_type st.scopes arg)
    || calls_one_of float_fns arg
    || holds_of is_float_type (called_type st.functions arg)

unfoldable pub is_string_arg : State → Bytes → Bool
unfolding lookup_type find_function struct_field_type starts_with rfind
is_string_arg st arg =
    front_is b'"' arg
    || front_isalpha arg && is (lookup_type st.scopes arg) "string"
    || holds_of (λ field. is (struct_field_type st.structs field) "string") (selected_field arg)
    || calls_one_of string_fns arg
    || holds_of (λ t. is t "string") (called_type st.functions arg)

abbrev pub has_float_mark : Bytes → Bool
has_float_mark val =
    contains (codes ".") val || contains (codes "e") val || contains (codes "E") val

-- `none` and the empty text mean that the search goes on.
abbrev pub or_else : Option Bytes → Bytes → Bytes
or_else none t = t
or_else (some []) t = t
or_else (some (c ∷ s)) t = c ∷ s

abbrev pub option_or : Option Bytes → Bytes → Bytes
option_or none t = t
option_or (some s) t = s

abbrev pub field_type_of : List Struct → Option Bytes → Option Bytes
field_type_of structs none = none
field_type_of structs (some field) = some (struct_field_type structs field)

abbrev pub variable_type : State → Bytes → Option Bytes
variable_type st val = if front_isalpha val then some (lookup_type st.scopes val) else none

unfoldable pub infer_type : State → Bytes → Bytes
unfolding lookup_type find_function struct_field_type is_enum_value enum_type_of starts_with rfind
    contains
infer_type st val =
    if front_isdigit val && has_float_mark val
    then codes "f64"
    else if front_is b'"' val
    then codes "string"
    else if is_enum_value st.enums val
    then enum_type_of st.enums val
    else if starts_with (codes "(&") val
    then codes "*int"
    else if calls_one_of string_fns val
    then codes "string"
    else option_or (called_type st.functions val) (
        or_else (field_type_of st.structs (selected_field val))
          (or_else (variable_type st val) (codes "int")))

unfoldable pub is_compatible : Bytes → Bytes → Bool
is_compatible a b =
    is a ""
    || is b ""
    || eqb a b
    || is a "string" && is b "string"
    || is a "void"
    || is b "void"
    || is a "int" && is_float_type b
    || is b "int" && is_float_type a
