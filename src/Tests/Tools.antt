-- ===== src/Tests/Tools.antt =====
-- The theorems on the formatter, the linter and the text passes at small inputs.
use demonic_c.Base.{◌≡◌, refl, false, true, List, [], ◌∷◌, some, none, if◌then◌else◌, map}
use demonic_c.Text.{Bytes, codes, eqb, is, starts_with, find, contains}
use demonic_c.Parser.State.{when◌run◌else◌}
use demonic_c.Format.Stable.{format-format}
use demonic_c.Format.{lines, format_dmc_code}
use demonic_c.Html.Decode.{decode_past, decode-html_escape}
use demonic_c.Html.{html_escape}
use demonic_c.Files.{Files}
use demonic_c.Format.Command.{fmt_args, cmd_fmt, cmd_fmt-cmd_fmt}
use demonic_c.Lint.{lint_dmc_code, lint_line, warning_if, void_function, lint_args}

abbrev ragged : Bytes
ragged = codes "fn f() {\nlet x = 1;\n      }\n"

ragged-formatted : format_dmc_code ragged ≡ codes "fn f() {\n    let x = 1;\n}\n"
unfolding format_dmc_code
ragged-formatted = refl

format-format_example : format_dmc_code (format_dmc_code ragged) ≡ format_dmc_code ragged
format-format_example = format-format ragged

decode-html_escape_example :
    decode_past 0 (html_escape (codes "a<b> & \"c\"")) ≡ codes "a<b> & \"c\""
decode-html_escape_example = decode-html_escape (codes "a<b> & \"c\"")

-- The files of a directory with one source in it.
abbrev ragged_files : Files
ragged_files path = if eqb path (codes "a.dmc") then some ragged else none

abbrev fmt_a : List Bytes
fmt_a = codes "a.dmc" ∷ []

abbrev fmt_check_a : List Bytes
fmt_check_a = codes "--check" ∷ codes "a.dmc" ∷ []

ragged_files-a : ragged_files (codes "a.dmc") ≡ some ragged
unfolding eqb
ragged_files-a = refl

args-fmt_a :
    (fmt_args false [] fmt_a ≡ (false, codes "a.dmc"))
    × (fmt_args false [] fmt_check_a ≡ (true, codes "a.dmc"))
    × (is (codes "a.dmc") "" ≡ false)
unfolding fmt_args eqb
args-fmt_a = (refl, refl, refl)

cmd_fmt-cmd_fmt_example :
    ((cmd_fmt (λ path. true) fmt_check_a (cmd_fmt (λ path. true) fmt_a ragged_files).files).status
      ≡ 0)
    × ((cmd_fmt (λ path. true) fmt_check_a (cmd_fmt (λ path. true) fmt_a ragged_files).files).files
        ≡ (cmd_fmt (λ path. true) fmt_a ragged_files).files)
cmd_fmt-cmd_fmt_example =
    cmd_fmt-cmd_fmt (λ path. true) fmt_a fmt_check_a (codes "a.dmc") ragged ragged_files
      args-fmt_a.0 args-fmt_a.1 args-fmt_a.2 ragged_files-a refl

fmt_check_a-check : (fmt_args false [] fmt_check_a).0 ≡ true
unfolding fmt_args eqb
fmt_check_a-check = refl

abbrev sloppy : Bytes
sloppy = codes "fn main() -> void {\n  if (x) { return; }\n}\n"

sloppy-issues : map (λ i. i.line) (lint_dmc_code sloppy) ≡ 1 ∷ 2 ∷ 2 ∷ []
unfolding lint_dmc_code lint_line warning_if void_function contains find lines starts_with
sloppy-issues = refl

abbrev sloppy_files : Files
sloppy_files path = if eqb path (codes "a.dmc") then some sloppy else none

sloppy_files-a :
    (lint_args [] fmt_a ≡ codes "a.dmc")
    × (sloppy_files (codes "a.dmc") ≡ some sloppy)
    × (is (codes "a.dmc") "" ≡ false)
unfolding lint_args eqb
sloppy_files-a = (refl, refl, refl)
