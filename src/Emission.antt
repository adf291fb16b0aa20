-- ===== src/Emission.antt =====
-- `emit` of class `Parser` in compiler/dmc.cpp, but for the text of `emit_runtime`, and `definition`.
pub mod Order
use demonic_c.Base.{
  ℕ, zero, suc, ◌+◌, Bool, true, false, not, ◌&&◌, ◌||◌, List, [], ◌∷◌, ◌++◌, Option, none, some,
  if◌then◌else◌, leb, length, map, any, find_map,
}
use demonic_c.Text.{Bytes, codes, is, cat, front_is, to_string}
use demonic_c.Peephole.{peephole}
use demonic_c.Parser.State.{State, Function, Struct, Enum, Field, Param}
use demonic_c.Parser.Types.{ctype, array_elem, array_size}

-- A loop that writes a text for each element, with `, ` between them.
unfoldable pub separated : List Bytes → Bytes
separated [] = []
separated (x ∷ []) = x
separated (x ∷ y ∷ xs) = x ++ (codes ", " ++ separated (y ∷ xs))

abbrev pub field_text : Field → Bytes
field_text f =
    if leb 3 (length f.type) && front_is b'[' f.type
    then cat (
        codes "    "
        ∷ ctype (array_elem f.type)
        ∷ codes " "
        ∷ f.name
        ∷ codes "["
        ∷ array_size f.type
        ∷ codes "];\n"
        ∷ [])
    else cat (codes "    " ∷ ctype f.type ∷ codes " " ∷ f.name ∷ codes ";\n" ∷ [])

abbrev pub struct_text : Struct → Bytes
struct_text s = cat (
    codes "typedef struct "
    ∷ s.name
    ∷ codes " {\n"
    ∷ cat (map field_text s.fields)
    ∷ codes "} "
    ∷ s.name
    ∷ codes ";\n"
    ∷ [])

abbrev pub enum_text : Enum → Bytes
enum_text e = cat (
    codes "typedef enum { "
    ∷ separated (map (λ v. e.name ++ (codes "_" ++ v)) e.variants)
    ∷ codes " } "
    ∷ e.name
    ∷ codes ";\n"
    ∷ [])

abbrev pub newline_behind : {A : Type 0} → List A → Bytes
newline_behind [] = []
newline_behind (x ∷ xs) = codes "\n"

abbrev pub parameter_list : List Param → Bytes
parameter_list [] = codes "void"
parameter_list (p ∷ ps) = separated (map (λ q. ctype q.type ++ (codes " " ++ q.name)) (p ∷ ps))

abbrev pub header : Function → Bytes
header fn =
    cat (ctype fn.ret_type ∷ codes " " ∷ fn.name ∷ codes "(" ∷ parameter_list fn.params ∷ [])

unfoldable pub prototype : Function → Bytes
unfolding separated
prototype fn = header fn ++ codes ");\n"

abbrev pub body_text : List Bytes → Bytes
body_text body = cat (map (λ s. codes "    " ++ (s ++ codes "\n")) body)

unfoldable pub definition : Function → Bytes
unfolding separated
definition fn =
    if is fn.name "main"
    then cat (
        codes "int __dmc_main_body(void) {\n"
        ∷ body_text fn.body
        ∷ codes "}\n"
        ∷ codes "int main(int argc, char **argv) {\n"
        ∷ codes "    __dmc_argc = argc;\n"
        ∷ codes "    __dmc_argv = argv;\n"
        ∷ codes "    return __dmc_main_body();\n"
        ∷ codes "}\n\n"
        ∷ [])
    else cat (header fn ∷ codes ") {\n" ∷ body_text fn.body ∷ codes "}" ∷ [])

-- Which of the vectors a function goes to; `main_fn` is none of them.
pub data Group : Type 0 where
  main_fn : Group
  test_fn : Group
  bench_fn : Group
  normal_fn : Group

unfoldable pub group_of : Function → Group
group_of fn =
    if is fn.name "main"
    then main_fn
    else if any (λ attr. is attr "test") fn.attributes
    then test_fn
    else if any (λ attr. is attr "bench") fn.attributes
    then bench_fn
    else normal_fn

-- `test_fns`, `bench_fns`, `normal_fns` and `has_main`.
pub record Groups : Type 0 where
  pub tests : List Function
  pub benches : List Function
  pub normals : List Function
  pub has_main : Bool

abbrev pub put_in : Group → Function → Groups → Groups
put_in main_fn fn gs = record gs { has_main = true }
put_in test_fn fn gs = record gs { tests = fn ∷ gs.tests }
put_in bench_fn fn gs = record gs { benches = fn ∷ gs.benches }
put_in normal_fn fn gs = record gs { normals = fn ∷ gs.normals }

-- Each vector has its functions in the order of the source.
unfoldable pub groups : List Function → Groups
unfolding group_of
groups [] = record { tests = []; benches = []; normals = []; has_main = false }
groups (fn ∷ fns) = put_in (group_of fn) fn (groups fns)

abbrev pub definition_line : Function → Bytes
definition_line fn = definition fn ++ codes "\n\n"

unfoldable pub run_tests_from : ℕ → List Function → Bytes
run_tests_from i [] = []
run_tests_from i (fn ∷ fns) =
    cat (
      codes "static void _run_test_"
      ∷ to_string i
      ∷ codes "(void) { _dmc_assert("
      ∷ fn.name
      ∷ codes "() == 0, \""
      ∷ fn.name
      ∷ codes "\"); }\n"
      ∷ [])
    ++ run_tests_from (i + 1) fns

unfoldable pub calls_from : ℕ → List Function → Bytes
calls_from i [] = []
calls_from i (fn ∷ fns) =
    cat (codes "        _run_test_" ∷ to_string i ∷ codes "();\n" ∷ []) ++ calls_from (i + 1) fns

abbrev pub bench_text : Function → Bytes
bench_text fn = cat (
    codes "        printf(\""
    ∷ fn.name
    ∷ codes ": \"); fflush(stdout);\n"
    ∷ codes "        double _t = (double)clock() / CLOCKS_PER_SEC;\n"
    ∷ codes "        "
    ∷ fn.name
    ∷ codes "();\n"
    ∷ codes "        printf(\"%.3fs\\n\", (double)clock() / CLOCKS_PER_SEC - _t);\n"
    ∷ [])

-- The `main` that runs the tests or the benchmarks.
unfoldable pub harness : List Function → List Function → Bytes
unfolding run_tests_from calls_from to_string
harness tests benches = cat (
    codes "static int _dmc_test_passed = 0;\n"
    ∷ codes "static int _dmc_test_total = "
    ∷ to_string (length tests)
    ∷ codes ";\n\n"
    ∷ codes "static void _dmc_assert(int cond, const char* msg) {\n"
    ∷ codes "    if (!cond) { fprintf(stderr, \"FAIL: %s\\n\", msg); exit(1); }\n"
    ∷ codes "}\n\n"
    ∷ run_tests_from 0 tests
    ∷ codes "\nint main(int argc, char** argv) {\n"
    ∷ codes "    int run_bench = 0;\n"
    ∷ codes
        "    for (int i = 1; i < argc; i++) { if (strcmp(argv[i], \"--bench\") == 0) run_bench = 1; }\n"
    ∷ codes "    if (run_bench) {\n"
    ∷ cat (map bench_text benches)
    ∷ codes "    } else {\n"
    ∷ calls_from 0 tests
    ∷ codes "    }\n"
    ∷ codes "    printf(\"%d/%d tests passed\\n\", _dmc_test_total, _dmc_test_total);\n"
    ∷ codes "    return 0;\n"
    ∷ codes "}\n"
    ∷ [])

-- The first `main` of the program.
unfoldable pub first_main : List Function → Bytes
first_main [] = []
first_main (fn ∷ fns) = if is fn.name "main" then definition_line fn else first_main fns

abbrev pub entry : List Function → Groups → Bytes
entry fns gs =
    if any_of gs.tests || any_of gs.benches
    then harness gs.tests gs.benches
    else if gs.has_main
    then first_main fns
    else []
  where
    any_of : List Function → Bool
    any_of [] = false
    any_of (fn ∷ fns) = true

-- The C text of the declarations, which `emit` passes to `peephole` behind its headers and the runtime
-- library. `runtime` is the text of `emit_runtime`.
unfoldable pub emit_declarations : State → Bytes
unfolding prototype definition groups harness separated first_main
emit_declarations s =
    let gs = groups s.functions in
    let order = gs.normals ++ (gs.tests ++ gs.benches) in
    cat (
      cat (map struct_text s.structs)
      ∷ newline_behind s.structs
      ∷ cat (map enum_text s.enums)
      ∷ newline_behind s.enums
      ∷ cat (map prototype order)
      ∷ codes "\n"
      ∷ cat (map definition_line order)
      ∷ entry s.functions gs
      ∷ [])

abbrev pub diagnostic_count : State → Bytes
diagnostic_count s =
    if leb 1 (length s.diagnostics)
    then cat
        (codes "int _dmc_diagnostic_count = " ∷ to_string (length s.diagnostics) ∷ codes ";\n" ∷ [])
    else []

-- The lines in front of the runtime library.
unfoldable pub headers : Bytes
headers = cat (
    codes "#define _POSIX_C_SOURCE 200112L\n"
    ∷ codes "#ifdef _WIN32\n"
    ∷ codes "#include <winsock2.h>\n#include <ws2tcpip.h>\n#include <io.h>\n"
    ∷ codes "#define NSCLOSE closesocket\n"
    ∷ codes "#else\n"
    ∷ codes "#include <stdio.h>\n#include <stdbool.h>\n#include <stdlib.h>\n#include <string.h>\n"
    ∷ codes
        "#include <sys/types.h>\n#include <sys/socket.h>\n#include <netdb.h>\n#include <unistd.h>\n"
    ∷ codes "#define NSCLOSE close\n"
    ∷ codes "#endif\n\n"
    ∷ codes
        "#include <stdio.h>\n#include <stdbool.h>\n#include <stdlib.h>\n#include <string.h>\n#include <math.h>\n#include <time.h>\n#ifndef _WIN32\n#include <regex.h>\n#endif\n\n"
    ∷ codes
        "#include <stdio.h>\n#include <stdbool.h>\n#include <stdlib.h>\n#include <string.h>\n#include <math.h>\n#ifdef DMC_SQLITE\ntypedef struct sqlite3 sqlite3;\ntypedef struct sqlite3_stmt sqlite3_stmt;\nextern int sqlite3_open(const char *, sqlite3 **);\nextern int sqlite3_close(sqlite3 *);\nextern int sqlite3_prepare_v2(sqlite3 *, const char *, int, sqlite3_stmt **, const char **);\nextern int sqlite3_step(sqlite3_stmt *);\nextern int sqlite3_finalize(sqlite3_stmt *);\nextern int sqlite3_column_count(sqlite3_stmt *);\nextern const unsigned char *sqlite3_column_text(sqlite3_stmt *, int);\n#define SQLITE_OK 0\n#define SQLITE_ROW 100\n#endif\n\n"
    ∷ [])

unfoldable pub emit : Bytes → State → Bytes
unfolding headers emit_declarations peephole
emit runtime s = peephole (diagnostic_count s ++ (headers ++ (runtime ++ emit_declarations s)))
