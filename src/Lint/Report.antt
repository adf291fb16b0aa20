-- ===== src/Lint/Report.antt =====
-- The issues of `lint_dmc_code` against the lines of the source, and what `cmd_lint` returns.
use demonic_c.Base.{
  ℕ, suc, ◌+◌, ◌≡◌, ◌↔◌, ◌⊎◌, refl, ap, ◌∙◌, Bool, true, false, List, [], ◌∷◌, ◌++◌, Option, none,
  some, if_intro, Option-cases, inl, inr, All, All-append, arith, get_elem?,
}
use demonic_c.Text.{Bytes, codes, is}
use demonic_c.Files.{Files, Exit}
use demonic_c.Format.{lines}
use demonic_c.Lint.{
  LintIssue, warning_if, void_function, lint_line, enters, lint_lines, lint_dmc_code, lint_args,
  count_severity, lint_file, lint_path, cmd_lint,
}

abbrev pub IsSeverity : Bytes → Type 0
IsSeverity s = (s ≡ codes "warning") ⊎ (s ≡ codes "info")

-- An issue on the line with the number `line`.
abbrev On : ℕ → LintIssue → Type 0
On line i = (i.line ≡ line) × IsSeverity i.severity

record AllOn (line : ℕ) (is_ : List LintIssue) : Type 0 where
  each : All (On line) is_

AllOn-append :
    (line : ℕ) {xs ys : List LintIssue} → AllOn line xs → AllOn line ys → AllOn line (xs ++ ys)
AllOn-append line {xs} {ys} p q = record { each = All-append (On line) xs ys p.each q.each }

warning_if-AllOn :
    (b : Bool) (line : ℕ) (message code : Bytes) → AllOn line (warning_if b line message code)
unfolding warning_if
warning_if-AllOn true line message code = record { each = ((refl, inl refl), tt) }
warning_if-AllOn false line message code = record { each = tt }

void_function-AllOn : (line : ℕ) (o : Option Bytes) → AllOn line (void_function line o)
unfolding void_function
void_function-AllOn line none = record { each = tt }
void_function-AllOn line (some b) = record { each = ((refl, inr refl), tt) }

lint_line-AllOn :
    (in_function : Bool) (line : ℕ) (ln : Bytes) → AllOn line (lint_line in_function line ln)
unfolding lint_line
lint_line-AllOn in_function line ln = AllOn-append line (warning_if-AllOn _ line _ _) (
    AllOn-append line (warning_if-AllOn _ line _ _) (
      AllOn-append line (void_function-AllOn line _)
        (AllOn-append line (warning_if-AllOn _ line _ _) (warning_if-AllOn _ line _ _))))

-- The issue has the number of one of these lines, the first of which has the number `first`.
abbrev pub Points : ℕ → List Bytes → LintIssue → Type 0
Points first ls i =
    (n : ℕ) × (ln : Bytes) × (get_elem? ls n ≡ some ln)
    × (i.line ≡ first + n)
    × IsSeverity i.severity

module _ (first : ℕ) (ln : Bytes) (ls : List Bytes) where
  here : (is_ : List LintIssue) → All (On first) is_ → All (Points first (ln ∷ ls)) is_
  here [] h = tt
  here (i ∷ is_) h = ((0, ln, refl, h.0.0 ∙ omega arith, h.0.1), here is_ h.1)

  later :
      (is_ : List LintIssue) → All (Points (first + 1) ls) is_ → All (Points first (ln ∷ ls)) is_
  later [] h = tt
  later (i ∷ is_) ((n, l, found, numbered, severity), h) =
      ((suc n, l, found, numbered ∙ omega arith, severity), later is_ h)

lint_lines-Points :
    (in_function : Bool) (first : ℕ) (ls : List Bytes)
    → All (Points first ls) (lint_lines in_function first ls)
unfolding lint_lines
lint_lines-Points in_function first [] = tt
lint_lines-Points in_function first (ln ∷ ls) =
    All-append (Points first (ln ∷ ls)) (lint_line (enters in_function ln) first ln)
      (lint_lines (enters in_function ln) (first + 1) ls)
      (here first ln ls _ (lint_line-AllOn (enters in_function ln) first ln).each)
      (later first ln ls _ (lint_lines-Points (enters in_function ln) (first + 1) ls))

-- Every issue that the linter reports has the number, from 1 on, of a line of the source, and is a
-- warning or an info.
pub lint_dmc_code-Points : (source : Bytes) → All (Points 1 (lines source)) (lint_dmc_code source)
unfolding lint_dmc_code
lint_dmc_code-Points source = lint_lines-Points false 1 (lines source)

abbrev pub NoWarning : List LintIssue → Type 0
NoWarning = All (λ i. is i.severity "warning" ≡ false)

count_severity-zero : (is_ : List LintIssue) → (count_severity "warning" is_ ≡ 0) ↔ NoWarning is_
unfolding count_severity
count_severity-zero [] = (λ _. tt, λ _. refl)
count_severity-zero (i ∷ is_) = ground (arith, count_severity-zero is_)

lint_file-status :
    (path : Bytes) (is_ : List LintIssue) (files : Files)
    → ((lint_file path is_ files).status ≡ 0) ↔ NoWarning is_
unfolding lint_file
lint_file-status path [] files = (λ _. tt, λ _. refl)
lint_file-status path (i ∷ is_) files = ground (arith, count_severity-zero (i ∷ is_))

lint_path-found :
    (path source : Bytes) (files : Files)
    → is path "" ≡ false
    → files path ≡ some source
    → lint_path path files ≡ lint_file path (lint_dmc_code source) files
unfolding lint_path
lint_path-found path source files p e = rw (p, e)

cmd_lint-found :
    (args : List Bytes) (path source : Bytes) (files : Files)
    → lint_args [] args ≡ path
    → is path "" ≡ false
    → files path ≡ some source
    → cmd_lint args files ≡ lint_file path (lint_dmc_code source) files
unfolding cmd_lint
cmd_lint-found args path source files a p e =
    ap (λ q. lint_path q files) a ∙ lint_path-found path source files p e

-- On a file that exists, `dmc lint` returns 0 exactly if no issue that it reports is a warning.
pub cmd_lint-status :
    (args : List Bytes) (path source : Bytes) (files : Files)
    → lint_args [] args ≡ path
    → is path "" ≡ false
    → files path ≡ some source
    → ((cmd_lint args files).status ≡ 0) ↔ NoWarning (lint_dmc_code source)
cmd_lint-status args path source files a p e =
    rw (cmd_lint-found args path source files a p e)
      (lint_file-status path (lint_dmc_code source) files)

lint_file-files :
    (path : Bytes) (is_ : List LintIssue) (files : Files) → (lint_file path is_ files).files ≡ files
unfolding lint_file
lint_file-files path [] files = refl
lint_file-files path (i ∷ is_) files = refl

-- `dmc lint` changes no file, whatever its arguments are, `--fix` among them.
pub cmd_lint-files : (args : List Bytes) (files : Files) → (cmd_lint args files).files ≡ files
unfolding cmd_lint lint_path
cmd_lint-files args files =
    if_intro (λ r. Exit.files r ≡ files) (is (lint_args [] args) "") (λ _. refl)
      (λ _. elim (Option-cases (files (lint_args [] args))) [
        | inl e ↦ rw e refl
        | inr (source, e) ↦ rw e (lint_file-files (lint_args [] args) (lint_dmc_code source) files)
      ])
