-- ===== src/Main/Build.antt =====
-- `find_compiler_binary`, `count_attribute_functions`, `cmd_test_impl` and `cmd_build` of
-- compiler/dmc.cpp.
pub mod Succeeds
use demonic_c.Base.{
  ℕ, ◌+◌, Bool, true, false, not, ◌&&◌, List, [], ◌∷◌, ◌++◌, ◌==◌, Option, none, some,
  if◌then◌else◌,
}
use demonic_c.Text.{Bytes, codes, eqb, is, cat, contains, starts_with, to_string}
use demonic_c.Main.World.{
  Disk, Report, System, is_directory, exists, create_directories, remove_file, read_lines,
  extension, stem,
}
use demonic_c.Main.Doc.{dmc_files}

-- `argv0` is the name of the program.
unfoldable pub find_compiler_binary : Bytes → Disk → Bytes
unfolding exists
find_compiler_binary argv0 disk =
    if exists disk argv0
    then argv0
    else if exists disk (codes "./dmc-native")
    then codes "./dmc-native"
    else if exists disk (codes "./dmc-native.exe")
    then codes "./dmc-native.exe"
    else codes "dmc-native"

abbrev pub attribute_mark : Bytes → Bytes
attribute_mark attr = cat (codes "#[" ∷ attr ∷ codes "]" ∷ [])

-- How many lines have the mark.
unfoldable pub marked_lines : Bytes → List Bytes → ℕ
unfolding contains
marked_lines mark [] = 0
marked_lines mark (l ∷ ls) =
    let rest = marked_lines mark ls in if contains mark l then 1 + rest else rest

abbrev pub count_attribute_functions : Disk → Bytes → Bytes → ℕ
count_attribute_functions disk path attr = marked_lines (attribute_mark attr) (read_lines disk path)

-- The counts over the files that `visit` has passed.
unfoldable pub total : Disk → Bytes → List Bytes → ℕ
unfolding marked_lines
total disk attr [] = 0
total disk attr (p ∷ ps) = count_attribute_functions disk p attr + total disk attr ps

-- `coverage`, `bench` and `root` behind the loop over the arguments.
unfoldable pub test_args : Bool → Bool → Bytes → List Bytes → Bool × Bool × Bytes
unfolding eqb
test_args coverage bench root [] = (coverage, bench, root)
test_args coverage bench root (a ∷ args) =
    if is a "--coverage"
    then test_args true bench root args
    else if is a "--bench"
    then test_args coverage true root args
    else test_args coverage bench a args

unfoldable pub visited : System → Bytes → Disk → List Bytes
unfolding is_directory dmc_files
visited sys root disk =
    dmc_files (if is_directory disk root then sys.entries root disk else root ∷ [])

abbrev pub count_files : List Bytes → ℕ
count_files [] = 0
count_files (p ∷ ps) = 1 + count_files ps

unfoldable pub tests_collected : System → Bool × Bool × Bytes → Disk → Report
unfolding exists visited total to_string
tests_collected sys (coverage, bench, root) disk =
    let paths = visited sys root disk in
    let tests = total disk (codes "test") paths in
    let benches = total disk (codes "bench") paths in
    if exists disk root
    then record {
      status = 0;
      out = cat (
          codes "Collected "
          ∷ to_string tests
          ∷ codes " test(s) and "
          ∷ to_string benches
          ∷ codes " benchmark(s) from "
          ∷ to_string (count_files paths)
          ∷ codes " file(s)\n"
          ∷ (if coverage
              then codes
                  "Coverage report: source collection completed; runtime coverage requires compiler instrumentation\n"
              else [])
          ∷ (if bench
              then cat (
                  codes "Benchmark collection: " ∷ to_string benches ∷ codes " benchmark(s)\n" ∷ [])
              else [])
          ∷ (if tests == 0 && not bench then codes "No #[test] functions found\n" else [])
          ∷ []);
      err = [];
      disk = disk;
    }
    else record {
      status = 1;
      out = [];
      err = cat (codes "dmc test: path not found: " ∷ root ∷ codes "\n" ∷ []);
      disk = disk;
    }

unfoldable pub cmd_test_impl : System → List Bytes → Disk → Report
unfolding exists test_args tests_collected
cmd_test_impl sys args disk =
    let root =
      if exists disk (codes "test-files") then codes "test-files" else codes "../test-files" in
    tests_collected sys (test_args false false root args) disk

-- `release`, `statik` and `source` behind the loop over the arguments.
unfoldable pub build_args : Bool → Bool → Bytes → List Bytes → Bool × Bool × Bytes
unfolding eqb starts_with
build_args release statik source [] = (release, statik, source)
build_args release statik source (a ∷ args) =
    if is a "--release"
    then build_args true statik source args
    else if is a "--static"
    then build_args release true source args
    else if starts_with (codes "--") a
    then build_args release statik source args
    else build_args release statik a args

abbrev pub generated_c : Bytes
generated_c = codes "build.generated.c"

abbrev pub output_of : Bytes → Bytes
output_of source = codes "bin/" ++ stem source

abbrev pub compile_command : Bytes → Bytes → Bytes
compile_command compiler source =
    cat (codes "\"" ∷ compiler ∷ codes "\" \"" ∷ source ∷ codes "\" -o build.generated.c" ∷ [])

abbrev pub c_compiler : Option Bytes → Bytes
c_compiler none = codes "cc"
c_compiler (some cc_name) = cc_name

abbrev pub link_command : System → Bool → Bool → Bytes → Bytes
link_command sys release statik source = cat (
    c_compiler (sys.env (codes "CC"))
    ∷ (if release then codes " -O2" else codes " -O0 -g")
    ∷ (if statik then codes " -static" else [])
    ∷ codes " build.generated.c -o \""
    ∷ output_of source
    ∷ codes "\" -lm"
    ∷ [])

abbrev pub failed_at : Disk → Report
failed_at disk = record { status = 1; out = []; err = []; disk = disk }

-- Behind the second call of `std::system`.
abbrev pub linked : Bytes → Bool × Disk → Report
linked source (ok, disk) =
    let cleaned = remove_file generated_c disk in
    if ok
    then record {
      status = 0;
      out = cat (codes "Built " ∷ output_of source ∷ codes "\n" ∷ []);
      err = [];
      disk = cleaned;
    }
    else failed_at cleaned

-- Behind the first.
abbrev pub compiled : System → Bool → Bool → Bytes → Bool × Disk → Report
compiled sys release statik source (ok, disk) =
    if ok
    then linked source (sys.run (link_command sys release statik source) disk)
    else failed_at disk

unfoldable pub build_source : System → Bytes → Bool × Bool × Bytes → Disk → Report
unfolding exists create_directories find_compiler_binary remove_file stem
build_source sys argv0 (release, statik, source) disk =
    let made = create_directories (codes "bin") disk in
    let command = compile_command (find_compiler_binary argv0 made) source in
    if exists disk source
    then compiled sys release statik source (sys.run command made)
    else record {
      status = 1;
      out = [];
      err = cat (codes "dmc build: source not found: " ∷ source ∷ codes "\n" ∷ []);
      disk = disk;
    }

unfoldable pub cmd_build : System → Bytes → List Bytes → Disk → Report
unfolding build_args build_source
cmd_build sys argv0 args disk =
    build_source sys argv0 (build_args false false (codes "src/main.dmc") args) disk
