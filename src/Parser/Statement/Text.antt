-- ===== src/Parser/Statement/Text.antt =====
-- The C texts of the statements, and what `switch_statement` collects.
use Prim.Native.String.{String}
use demonic_c.Base.{Bool, true, false, List, [], ◌∷◌, ◌++◌, map, ◌==◌, if◌then◌else◌, ℕ}
use demonic_c.Text.{Bytes, codes, is, front_is, cat}
use demonic_c.Parser.State.{Case}
use demonic_c.Parser.Types.{ctype, array_elem, array_size}

-- `std::replace`.
abbrev pub replace : ℕ → ℕ → Bytes → Bytes
replace from to = map (λ c. if c == from then to else c)

unfoldable pub let_text : Bytes → Bytes → Bytes → Bytes
let_text name type val =
    if front_is b'[' type
    then cat (
        ctype (array_elem type)
        ∷ codes " "
        ∷ name
        ∷ codes "["
        ∷ array_size type
        ∷ codes "] = "
        ∷ replace b']' b'}' (replace b'[' b'{' val)
        ∷ codes ";"
        ∷ [])
    else cat (
        (if is type "string" then codes "const char* " else ctype type ++ codes " ")
        ∷ name
        ∷ codes " = "
        ∷ val
        ∷ codes ";"
        ∷ [])

-- Each statement on a line of its own.
unfoldable pub indented : String → List Bytes → Bytes
indented margin [] = []
indented margin (s ∷ stmts) = cat (codes margin ∷ s ∷ codes "\n" ∷ indented margin stmts ∷ [])

unfoldable pub if_text : Bytes → List Bytes → Bytes → Bytes
if_text cond body tail =
    cat (codes "if (" ∷ cond ∷ codes ") {\n" ∷ indented "    " body ∷ codes "}" ∷ tail ∷ [])

unfoldable pub while_text : Bytes → List Bytes → Bytes
while_text cond body =
    cat (codes "while (" ∷ cond ∷ codes ") {\n" ∷ indented "    " body ∷ codes "}" ∷ [])

unfoldable pub for_text : Bytes → List Bytes → Bytes
for_text header body =
    cat (codes "for (" ∷ header ∷ codes ") {\n" ∷ indented "    " body ∷ codes "}" ∷ [])

unfoldable pub do_text : Bytes → List Bytes → Bytes
do_text cond body =
    cat (codes "do {\n" ∷ indented "    " body ∷ codes "} while (" ∷ cond ∷ codes ");" ∷ [])

unfoldable pub until_text : Bytes → List Bytes → Bytes
until_text cond body =
    cat (codes "do {\n" ∷ indented "    " body ∷ codes "} while (!(" ∷ cond ∷ codes "));" ∷ [])

-- The local variables of `switch_statement`.
pub record Switch : Type 0 where
  pub cases : List Case
  pub current_body : List Bytes
  pub current_value : Bytes
  pub have_value : Bool
  pub have_default : Bool

abbrev pub no_arms : Switch
no_arms = record {
  cases = [];
  current_body = [];
  current_value = [];
  have_value = false;
  have_default = false;
}

-- `if (have_value) cases.push_back({current_value, current_body})`.
abbrev pub close_case : Switch → List Case
close_case w =
    if w.have_value
    then w.cases ++ (record { value = w.current_value; body = w.current_body } ∷ [])
    else w.cases

unfoldable pub at_case : Bytes → Switch → Switch
at_case value w = record w {
  cases = close_case w;
  current_body = [];
  current_value = value;
  have_value = true;
}

unfoldable pub at_default : Switch → Switch
at_default w = record w {
  cases = close_case w;
  current_body = [];
  have_value = false;
  have_default = true;
}

unfoldable pub at_statement : Bytes → Switch → Switch
at_statement s w = record w { current_body = w.current_body ++ (s ∷ []) }

abbrev pub case_texts : List Case → Bytes
case_texts [] = []
case_texts (c ∷ cases) = cat (
    codes "    case "
    ∷ c.value
    ∷ codes ": {\n"
    ∷ indented "        " c.body
    ∷ codes "        break;\n    }\n"
    ∷ case_texts cases
    ∷ [])

abbrev pub default_text : Switch → Bytes
default_text w =
    if w.have_default
    then cat (
        codes "    default: {\n"
        ∷ indented "        " w.current_body
        ∷ codes "        break;\n    }\n"
        ∷ [])
    else []

unfoldable pub switch_text : Bytes → Switch → Bytes
unfolding indented
switch_text scrutinee w = cat (
    codes "switch ("
    ∷ scrutinee
    ∷ codes ") {\n"
    ∷ case_texts (close_case w)
    ∷ default_text w
    ∷ codes "}"
    ∷ [])
