-- ===== src/Lint.antt =====
-- `lint_dmc_code` and `cmd_lint` of compiler/dmc.cpp.
pub mod Report
use demonic_c.Base.{
  ℕ, zero, suc, ◌+◌, Bool, true, false, not, ◌&&◌, ◌||◌, List, [], ◌∷◌, ◌++◌, Option, none, some,
  if◌then◌else◌, take, drop, ltb, String,
}
use demonic_c.Text.{Bytes, codes, is, find, contains, to_string, cat}
use demonic_c.Files.{Files, Exit}
use demonic_c.Format.{lines, trim}

pub record LintIssue : Type 0 where
  pub line : ℕ
  pub severity : Bytes
  pub message : Bytes
  pub code : Bytes

abbrev pub issue : ℕ → Bytes → Bytes → Bytes → List LintIssue
issue line severity message code =
    record { line = line; severity = severity; message = message; code = code } ∷ []

-- An issue that is pushed where a test holds.
unfoldable pub warning_if : Bool → ℕ → Bytes → Bytes → List LintIssue
warning_if b line message code = if b then issue line (codes "warning") message code else []

-- The line, or what stands behind the first `fn ` of it.
abbrev pub behind_fn : Bytes → Option Bytes
behind_fn s = elim (find (codes "fn ") s) [ none ↦ none | some i ↦ some (trim (drop (i + 3) s)) ]

unfoldable pub void_function : ℕ → Option Bytes → List LintIssue
void_function line none = []
void_function line (some fn_body) =
    issue line (codes "info") (cat (codes "function '" ∷ fn_body ∷ codes "' returns void" ∷ []))
      (codes "I001")

-- The text before the first `{`.
abbrev pub before_brace : Bytes → Bytes
before_brace s = elim (find (codes "{") s) [ none ↦ s | some i ↦ take i s ]

-- The issues of one line. `in_function` is set from the first line on that has `fn main` in it.
unfoldable pub lint_line : Bool → ℕ → Bytes → List LintIssue
unfolding contains find
lint_line in_function line ln =
    warning_if (contains (codes "let ") ln && contains (codes "_ =") ln) line
      (codes "unused variable assigned to _") (codes "W001")
    ++ (warning_if (contains (codes "return;") ln && in_function) line
          (codes "empty return in non-void function") (codes "W002")
        ++ (void_function line (
              if contains (codes "-> void") ln && contains (codes "{") ln
              then behind_fn (before_brace ln)
              else none)
            ++ (warning_if
                  (contains (codes "if (") ln
                    && not (contains (codes "==") ln)
                    && not (contains (codes "!=") ln))
                  line (codes "use explicit comparison in condition") (codes "W003")
                ++ warning_if (contains (codes "== \"\"") ln || contains (codes "!= \"\"") ln) line
                    (codes "compare with empty string") (codes "W004"))))

abbrev pub enters : Bool → Bytes → Bool
enters in_function ln = in_function || (contains (codes "fn ") ln && contains (codes "fn main") ln)

-- The loop over the lines, from the line `line` on.
unfoldable pub lint_lines : Bool → ℕ → List Bytes → List LintIssue
lint_lines in_function line [] = []
lint_lines in_function line (ln ∷ ls) =
    lint_line (enters in_function ln) line ln ++ lint_lines (enters in_function ln) (line + 1) ls

-- The names that `let` declares are collected by the source and not used.
unfoldable pub lint_dmc_code : Bytes → List LintIssue
unfolding lint_lines
lint_dmc_code source = lint_lines false 1 (lines source)

-- The loop over the arguments. `--fix` is read and has no effect.
unfoldable pub lint_args : Bytes → List Bytes → Bytes
lint_args file_path [] = file_path
lint_args file_path (a ∷ args) =
    if is a "--fix"
    then lint_args file_path args
    else if is file_path ""
    then lint_args a args
    else lint_args file_path args

unfoldable pub count_severity : String → List LintIssue → ℕ
count_severity severity [] = 0
count_severity severity (i ∷ is_) =
    if is i.severity severity
    then suc (count_severity severity is_)
    else count_severity severity is_

unfoldable pub report : Bytes → List LintIssue → Bytes
report file_path [] = []
report file_path (i ∷ is_) =
    cat (
      file_path
      ∷ codes ":"
      ∷ to_string i.line
      ∷ codes ": "
      ∷ i.severity
      ∷ codes ": "
      ∷ i.message
      ∷ codes " ["
      ∷ i.code
      ∷ codes "]\n"
      ∷ [])
    ++ report file_path is_

abbrev pub exit_with : ℕ → Bytes → Bytes → Files → Exit
exit_with status out err files = record { status = status; out = out; err = err; files = files }

-- What follows the reading of the file. An error is no warning and no info, but none is ever pushed.
unfoldable pub lint_file : Bytes → List LintIssue → Files → Exit
lint_file file_path [] files =
    exit_with 0 (cat (codes "dmc lint: no issues found in " ∷ file_path ∷ codes "\n" ∷ [])) [] files
lint_file file_path (i ∷ is_) files =
    let warnings = count_severity "warning" (i ∷ is_) in
    let infos = count_severity "info" (i ∷ is_) in
    exit_with (if ltb 0 warnings then 1 else 0)
      (cat (
        report file_path (i ∷ is_)
        ∷ codes "\n"
        ∷ to_string warnings
        ∷ codes " warning(s), "
        ∷ to_string infos
        ∷ codes " info(s)\n"
        ∷ []))
      [] files

unfoldable pub lint_path : Bytes → Files → Exit
lint_path file_path files =
    if is file_path ""
    then exit_with 1 [] (codes "dmc lint: usage: dmc lint [--fix] <file.dmc>\n") files
    else elim (files file_path) [
      | none ↦
          exit_with 1 [] (cat (codes "dmc lint: file not found: " ∷ file_path ∷ codes "\n" ∷ []))
            files
      | some source ↦ lint_file file_path (lint_dmc_code source) files
    ]

unfoldable pub cmd_lint : List Bytes → Files → Exit
cmd_lint args files = lint_path (lint_args [] args) files
