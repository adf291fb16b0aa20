-- ===== src/Main/Args.antt =====
-- The loop over the arguments in `main` of compiler/dmc.cpp.
pub mod Spelled
use demonic_c.Base.{ℕ, Bool, true, false, ◌||◌, List, [], ◌∷◌, ◌++◌, if◌then◌else◌}
use demonic_c.Text.{Bytes, codes, eqb, is, cat, front_is}

-- `source_path`, `output_path` and `include_dirs`.
pub record Options : Type 0 where
  pub source_path : Bytes
  pub output_path : Bytes
  pub include_dirs : List Bytes

abbrev pub no_options : Options
no_options = record { source_path = []; output_path = codes "-"; include_dirs = [] }

-- What the loop ends in: an exit status with what is printed on `std::cout` and `std::cerr`, or the
-- variables behind it.
pub data Parsed : Type 0 where
  exits : ℕ → Bytes → Bytes → Parsed
  goes_on : Options → Parsed

-- `print_usage`.
abbrev pub usage : Bytes
usage = cat (
    codes "usage: dmc-native <source.dmc> [options]\n"
    ∷ codes "compile Demonic C source to C.\n\n"
    ∷ codes "options:\n"
    ∷ codes "  -o <file>       write generated C to <file> (default: stdout)\n"
    ∷ codes "  -I <dir>        add import search directory (repeatable)\n"
    ∷ codes "  --version       print version and exit\n"
    ∷ codes "  --help          print this message and exit\n\n"
    ∷ codes "commands:\n"
    ∷ codes "  pkg             package manager commands\n"
    ∷ codes "  new <name>      create new project\n"
    ∷ codes "  init            initialize project in current directory\n"
    ∷ codes "  fmt [--check] <file.dmc>\n"
    ∷ codes "                  format or check .dmc files\n"
    ∷ codes "  lint [--fix] <file.dmc>\n"
    ∷ codes "                  lint .dmc files for issues\n\n"
    ∷ codes "pkg commands:\n"
    ∷ codes "  pkg install <pkg>   install package from registry\n"
    ∷ codes "  pkg uninstall <pkg> remove installed package\n"
    ∷ codes "  pkg update <pkg>    update package to latest version\n"
    ∷ codes "  pkg search <term>   search registry for packages\n"
    ∷ codes "  pkg list            list installed packages\n"
    ∷ codes "  pkg publish         publish local package to registry\n\n"
    ∷ codes "dmc.toml format:\n"
    ∷ codes "  [package]\n"
    ∷ codes "  name = \"my-project\"\n"
    ∷ codes "  version = \"1.0.0\"\n"
    ∷ codes "\n"
    ∷ codes "  [build]\n"
    ∷ codes "  output = \"bin/my-project\"\n"
    ∷ codes "  type = \"executable\"\n"
    ∷ codes "\n"
    ∷ codes "  [dependencies]\n"
    ∷ codes "  json = \"^2.0\"\n"
    ∷ codes "  http = \"^1.0\"\n"
    ∷ codes "  crypto = \"^0.9\"\n"
    ∷ [])

abbrev pub version_text : Bytes
version_text = codes "dmc-native 1.0.0 (Demonic C -> C)\n"

abbrev pub refuses : Bytes → Parsed
refuses message = exits 1 [] message

-- The argument of an option is missing.
abbrev pub missing : Bytes → Parsed
missing a = refuses (cat (codes "dmc-native: " ∷ a ∷ codes " requires an argument\n" ∷ []))

abbrev pub is_help : Bytes → Bool
is_help a = is a "--help" || is a "-h"

abbrev pub is_version : Bytes → Bool
is_version a = is a "--version" || is a "-V"

-- The branches behind `-o` and `-I`; the last argument is the loop with the path taken over.
abbrev pub path_arg : Options → Bytes → Parsed → Parsed
path_arg o a named =
    if front_is b'-' a
    then refuses (cat (codes "dmc-native: unknown option '" ∷ a ∷ codes "'\n" ∷ []))
    else if is o.source_path ""
    then named
    else refuses (cat (codes "dmc-native: unexpected argument '" ∷ a ∷ codes "'\n" ∷ []))

unfoldable pub main_args : Options → List Bytes → Parsed
unfolding eqb
main_args o [] = goes_on o
main_args o (a ∷ []) =
    if is_help a
    then exits 0 usage []
    else if is_version a
    then exits 0 version_text []
    else if is a "-o" || is a "-I"
    then missing a
    else path_arg o a (goes_on (record o { source_path = a }))
main_args o (a ∷ b ∷ rest) =
    let output = main_args (record o { output_path = b }) rest in
    let dir = main_args (record o { include_dirs = o.include_dirs ++ (b ∷ []) }) rest in
    let path = main_args (record o { source_path = a }) (b ∷ rest) in
    if is_help a
    then exits 0 usage []
    else if is_version a
    then exits 0 version_text []
    else if is a "-o"
    then output
    else if is a "-I"
    then dir
    else path_arg o a path
