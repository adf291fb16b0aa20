-- ===== src/Tests/Main.antt =====
-- The theorems on `main` at two files that import each other.
use demonic_c.Main.{Setting, main, of_ending}
use demonic_c.Main.Dispatch.{is_command, main-compiles}
use demonic_c.Base.{
  inl, inr, Bool-cases, ◌+◌, ◌*◌, ◌≡◌, refl, ap, ◌∙◌, subst, true, false, Bool, List, [], ◌∷◌,
  Option, none, some, if◌then◌else◌, arith, length,
}
use demonic_c.Text.{Bytes, codes, eqb, is}
use demonic_c.Lexer.{lex, Token}
use demonic_c.Result.{Result}
use demonic_c.Files.{Files, Exit}
use demonic_c.Parser.State.{
  Outcome, peek, when◌run◌else◌, take, expect, fail, current_line, throw_error,
}
use demonic_c.Parser.Import.{import_loop, import_name, parse_imports}
use demonic_c.Parser.Declaration.{
  declaration, function, attribute_loop, recover, skip_to_decl, skip_tokens,
}
use demonic_c.Parser.Declaration.Loop.{NoImport}
use demonic_c.Parser.Source.{initial}
use demonic_c.Parser.Load.{collect_declarations}
use demonic_c.Parser.Load.Settles.{ImportsFirst}
use demonic_c.Main.Args.{Options}
use demonic_c.Main.Args.Spelled.{Item, output, dir, source, spelled, last_output, dirs, sources}
use demonic_c.Main.Compile.{Host, Ending, exits, compile, shown}
use demonic_c.Main.Compile.Clean.{Clean}
use demonic_c.Main.Compile.Finishes.{Ends, compile-Ends}
use demonic_c.Main.World.{Disk, System, put, create_directories}
use demonic_c.Main.Doc.{doc_index, doc_args, doc_sources, cmd_doc}
use demonic_c.Main.Doc.Tags.{opening, cmd_doc-tags}
use demonic_c.Main.Build.{cmd_build, build_args}
use demonic_c.Main.Build.Succeeds.{Built, cmd_build-Built}
use demonic_c.Tests.Imports.{
  flat, importing_a, importing_b, two_files, tokens_of, both, two_files-both,
}

abbrev items : List Item
items = dir (codes "lib") ∷ source (codes "a.dmc") ∷ output (codes "x") ∷ output (codes "a.c") ∷ []

abbrev host : Host
host = record { paths = flat; canonical = λ p. none; writable = λ p. true; runtime = [] }

abbrev options : Options
options = record { source_path = codes "a.dmc"; output_path = codes "a.c"; include_dirs = [] }

abbrev exit_of : Ending → Exit
exit_of (exits x) = x
exit_of _ = record { status = 2; out = []; err = []; files = two_files }

abbrev left : Exit
left = exit_of (compile host 3 options two_files)

-- The tokens behind the imports of a text.
abbrev behind_imports : Outcome (List Bytes) → List Token
behind_imports (Outcome.ok mods t) = t.rest
behind_imports _ = []

abbrev all_behind : Bytes → List Token
all_behind text =
    let s = initial (tokens_of (lex text)) in behind_imports (parse_imports (length s.rest + 1) s)

text-ImportsFirst :
    (text : Bytes) (ts : List Token)
    → NoImport (all_behind text)
    → lex text ≡ Result.ok ts
    → ImportsFirst (initial ts)
text-ImportsFirst text ts n lexed mods t parsed =
    subst NoImport
      (ap
          (λ r.
            let s = initial (tokens_of r) in behind_imports (parse_imports (length s.rest + 1) s))
          lexed
        ∙ ap behind_imports parsed)
      n

behind-NoImport : NoImport (all_behind importing_a) × NoImport (all_behind importing_b)
unfolding lex parse_imports import_loop import_name peek take expect when◌run◌else◌ eqb
behind-NoImport = ((refl, tt), (refl, (refl, (refl, (refl, (refl, (refl, (refl, tt))))))))

two_files-ImportsFirst :
    (path text : Bytes) (ts : List Token)
    → two_files path ≡ some text
    → lex text ≡ Result.ok ts
    → ImportsFirst (initial ts)
two_files-ImportsFirst path text ts found lexed = elim (Bool-cases (eqb path (codes "a.dmc"))) [
  | inl a ↦
      let same : importing_b ≡ text = cc (rw a at found) in
      text-ImportsFirst text ts (subst (λ t. NoImport (all_behind t)) same behind-NoImport.1) lexed
  | inr not_a ↦ elim (Bool-cases (eqb path (codes "b.dmc"))) [
    | inl b ↦
        let same : importing_a ≡ text = cc (rw (not_a, b) at found) in
        text-ImportsFirst text ts (subst (λ t. NoImport (all_behind t)) same behind-NoImport.0)
          lexed
    | inr not_b ↦ absurd (cc (rw (not_a, not_b) at found))
  ]
]

compile-Ends_example : Ends (compile host 3 options two_files)
compile-Ends_example =
    compile-Ends host both 3 options two_files two_files-both two_files-ImportsFirst (omega arith)

-- A file with an error.
abbrev broken : Bytes
broken = codes "x"

abbrev one_file : Files
one_file path = if is path "e.dmc" then some broken else none

abbrev options_e : Options
options_e = record { source_path = codes "e.dmc"; output_path = codes "e.c"; include_dirs = [] }

abbrev broken_exit : Exit
broken_exit = exit_of (compile host 1 options_e one_file)

abbrev is_there : Option Bytes → Bool
is_there none = false
is_there (some text) = true

-- The output file is written although an error was recorded.
broken-written : (broken_exit.status ≡ 1) × (is_there (broken_exit.files (codes "e.c")) ≡ true)
unfolding compile collect_declarations lex import_loop peek when◌run◌else◌ take expect declaration
    function attribute_loop eqb fail current_line throw_error recover skip_to_decl skip_tokens shown
broken-written = (refl, refl)

-- A system on which every command succeeds, with the file that `cmd_doc` shows.
abbrev sys : System
sys = record {
  entries = λ root disk. codes "src/a.dmc" ∷ codes "src/a.c" ∷ [];
  writable = λ path. true;
  run = λ command disk. (true, disk);
  env = λ name. none;
}

abbrev disk : Disk
disk = record {
  files = λ path. if is path "src/a.dmc" then some (codes "fn f<T>() { }\n") else none;
  dirs = codes "src" ∷ [];
  packages = [];
}

cmd_doc-tags_example :
    (page : Bytes) × (shown_files : List Bytes) × ((cmd_doc sys (codes "src" ∷ []) disk).disk.files
        doc_index
      ≡ some page)
    × (opening page ≡ 12 + 4 * length shown_files)
    × (shown_files
        ≡ doc_sources sys
            (doc_args false false (codes "../src") (codes "src" ∷ [])).2
            (put sys doc_index [] (create_directories (codes "docs/generated") disk)))
cmd_doc-tags_example = cmd_doc-tags sys (codes "src" ∷ []) disk refl

doc_sources-src : doc_sources sys (codes "src") disk ≡ codes "src/a.dmc" ∷ []
unfolding doc_sources eqb
doc_sources-src = refl

abbrev build_words : List Bytes
build_words = codes "--release" ∷ codes "src/a.dmc" ∷ []

build_words-args :
    build_args false false (codes "src/main.dmc") build_words ≡ (true, false, codes "src/a.dmc")
unfolding build_args
build_words-args = refl

build-status : (cmd_build sys (codes "dmc") build_words disk).status ≡ 0
unfolding cmd_build eqb
build-status = refl

cmd_build-Built_example :
    Built sys
      (codes "dmc")
      true
      false
      (codes "src/a.dmc")
      disk
      (cmd_build sys (codes "dmc") build_words disk).disk
cmd_build-Built_example =
    cmd_build-Built sys (codes "dmc") build_words disk build_words-args build-status

abbrev setting : Setting
setting = record {
  host = host;
  sys = sys;
  argv0 = codes "dmc";
  packages_writable = true;
  depth = 3;
}

abbrev files_of_two : Disk
files_of_two = record { files = two_files; dirs = []; packages = [] }

main-compiles_example :
    main setting
      (codes "-I"
        ∷ codes "lib"
        ∷ codes "a.dmc"
        ∷ codes "-o"
        ∷ codes "x"
        ∷ codes "-o"
        ∷ codes "a.c"
        ∷ [])
      files_of_two
    ≡ of_ending files_of_two (
        compile host 3
          (record {
            source_path = codes "a.dmc";
            output_path = codes "a.c";
            include_dirs = codes "lib" ∷ [];
          })
          two_files)
unfolding spelled sources last_output dirs is_command eqb
main-compiles_example =
    main-compiles setting items files_of_two refl (record { named = refl; no_dash = refl }) refl
