-- ===== src/Main/Compile.antt =====
-- The part of `main` in compiler/dmc.cpp behind the loop over the arguments: the compilation of a file.
pub mod Clean
pub mod Finishes
use demonic_c.Base.{
  ℕ, ◌*◌, Bool, true, false, List, [], ◌∷◌, ◌++◌, Option, none, some, if◌then◌else◌, map,
}
use demonic_c.Text.{Bytes, codes, is, cat, to_string}
use demonic_c.Result.{Error, runtime_error, out_of_range, Result}
use demonic_c.Files.{Files, Exit, write_file}
use demonic_c.Lexer.{Token, lex}
use demonic_c.Parser.State.{State, Diagnostic, Outcome}
use demonic_c.Parser.Source.{initial}
use demonic_c.Parser.Load.{Paths, Place, collect_declarations}
use demonic_c.Emission.{emit}
use demonic_c.Main.Args.{Options}

-- What the program takes from its surroundings: std::filesystem on paths, with `weakly_canonical`;
-- which files an `std::ofstream` opens; and the C text of `emit_runtime`.
pub record Host : Type 0 where
  pub paths : Paths
  pub canonical : Bytes → Option Bytes
  pub writable : Bytes → Bool
  pub runtime : Bytes

-- What the compilation ends in. `overflow` is a signed overflow and `out_of_bounds` a read behind the
-- tokens, both undefined behaviour of the program; `out_of_fuel` has no counterpart in it.
pub data Ending : Type 0 where
  exits : Exit → Ending
  overflow : Ending
  out_of_bounds : Ending
  out_of_fuel : Ending

-- `error.what()`; for `std::stoll` it is the name of that function.
abbrev pub what : Error → Bytes
what (runtime_error message) = message
what out_of_range = codes "stoll"

abbrev pub caught : Files → Error → Ending
caught files e = exits (record {
  status = 1;
  out = [];
  err = cat (codes "dmc-native: " ∷ what e ∷ codes "\n" ∷ []);
  files = files;
})

-- A line for each diagnostic or warning.
abbrev pub report_line : Bytes → Bytes → Diagnostic → Bytes
report_line path kind d =
    cat (path ∷ codes ":" ∷ to_string d.line ∷ kind ∷ d.message ∷ codes "\n" ∷ [])

unfoldable pub reports : Bytes → State → Bytes
reports path s =
    cat (map (report_line path (codes ": error: ")) s.diagnostics)
    ++ cat (map (report_line path (codes ": warning: ")) s.type_warnings)

abbrev pub status_of : List Diagnostic → ℕ
status_of [] = 0
status_of (d ∷ ds) = 1

-- `std::ofstream output(path); output << text;`, without a test that it opened.
abbrev pub put_file : Host → Bytes → Bytes → Files → Files
put_file host path text files = if host.writable path then write_file path text files else files

-- What stands behind `parser.emit()`.
unfoldable pub shown : Host → Options → Files → State → Exit
unfolding emit reports write_file
shown host o files s =
    let generated = emit host.runtime s in
    let to_stdout = is o.output_path "-" in
    record {
      status = status_of s.diagnostics;
      out = if to_stdout then generated else [];
      err = reports o.source_path s;
      files = if to_stdout then files else put_file host o.output_path generated files;
    }

abbrev pub emitted : Host → Options → Files → Outcome (List Bytes) → Ending
emitted host o files (Outcome.ok loaded s) = exits (shown host o files s)
emitted host o files (Outcome.throws e s) = caught files e
emitted host o files Outcome.out_of_bounds = out_of_bounds
emitted host o files Outcome.overflow = overflow
emitted host o files Outcome.out_of_fuel = out_of_fuel

-- The directory itself where `weakly_canonical` sets its error code.
abbrev pub add_include_dir : Host → Bytes → Bytes
add_include_dir host dir = elim (host.canonical dir) [ none ↦ dir | some path ↦ path ]

-- `Parser parser(lex(source.str()), source_path);` with `add_include_dir` for each directory.
abbrev pub place_of : Host → Options → Place
place_of host o = record {
  source = o.source_path;
  include_dirs = map (add_include_dir host) o.include_dirs;
  loaded = [];
}

abbrev pub parse_and_emit : Host → ℕ → Options → Files → Result (List Token) → Ending
parse_and_emit host depth o files (Result.ok ts) =
    emitted host o files
      (collect_declarations host.paths files depth (place_of host o) (initial ts))
parse_and_emit host depth o files (Result.throws e) = caught files e
parse_and_emit host depth o files Result.out_of_fuel = out_of_fuel

abbrev pub compile_text : Host → ℕ → Options → Files → Option Bytes → Ending
compile_text host depth o files none =
    caught files (runtime_error (codes "cannot open source file"))
compile_text host depth o files (some text) = parse_and_emit host depth o files (lex text)

-- `depth` bounds how deep the imports go.
unfoldable pub compile : Host → ℕ → Options → Files → Ending
unfolding collect_declarations lex shown
compile host depth o files = compile_text host depth o files (files o.source_path)
