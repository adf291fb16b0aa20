-- ===== src/Format/Stable.antt =====
-- The lines that `format_dmc_code` writes, and the formatter on its own output.
use demonic_c.Base.{
  ℕ, ◌*◌, ◌≡◌, refl, sym, ap, ◌∙◌, List, [], ◌∷◌, ◌++◌, append_assoc, map, replicate, All,
}
use demonic_c.Text.{Bytes}
use demonic_c.Format.{lines, trim, indent_of, indent_after, format_lines, format_dmc_code}
use demonic_c.Format.Lines.{
  NoNewline, unlines, lines-NoNewline, lines-unlines, trim-NoNewline, spaces-NoNewline, trim-spaces,
}

-- The lines that the formatter writes.
abbrev formatted : ℕ → List Bytes → List Bytes
formatted indent [] = []
formatted indent (line ∷ ls) =
    (replicate (indent_of indent (trim line) * 4) b' ' ++ trim line)
    ∷ formatted (indent_after indent (trim line)) ls

format_lines-unlines :
    (indent : ℕ) (ls : List Bytes) → format_lines indent ls ≡ unlines (formatted indent ls)
unfolding format_lines
format_lines-unlines indent [] = refl
format_lines-unlines indent (line ∷ ls) =
    rw (format_lines-unlines (indent_after indent (trim line)) ls)
      (sym (append_assoc (replicate (indent_of indent (trim line) * 4) b' ') (trim line) _))

formatted-NoNewline :
    (indent : ℕ) (ls : List Bytes) → All NoNewline ls → All NoNewline (formatted indent ls)
formatted-NoNewline indent [] h = tt
formatted-NoNewline indent (line ∷ ls) h = (
  spaces-NoNewline (indent_of indent (trim line) * 4) (trim line) (trim-NoNewline line h.0),
  formatted-NoNewline (indent_after indent (trim line)) ls h.1,
)

formatted-formatted :
    (indent : ℕ) (ls : List Bytes) → formatted indent (formatted indent ls) ≡ formatted indent ls
formatted-formatted indent [] = refl
formatted-formatted indent (line ∷ ls) = rw (trim-spaces (indent_of indent (trim line) * 4) line) (
    ap (◌∷◌ (replicate (indent_of indent (trim line) * 4) b' ' ++ trim line))
      (formatted-formatted (indent_after indent (trim line)) ls))

format_dmc_code-formatted : (s : Bytes) → format_dmc_code s ≡ unlines (formatted 0 (lines s))
unfolding format_dmc_code
format_dmc_code-formatted s = format_lines-unlines 0 (lines s)

lines-format : (s : Bytes) → lines (format_dmc_code s) ≡ formatted 0 (lines s)
unfolding format_dmc_code
lines-format s =
    ap lines (format_lines-unlines 0 (lines s))
    ∙ lines-unlines (formatted 0 (lines s)) (formatted-NoNewline 0 (lines s) (lines-NoNewline s))

-- Formatting twice is formatting once.
pub format-format : (s : Bytes) → format_dmc_code (format_dmc_code s) ≡ format_dmc_code s
format-format s =
    format_dmc_code-formatted (format_dmc_code s)
    ∙ ap (λ ls. unlines (formatted 0 ls)) (lines-format s)
    ∙ ap unlines (formatted-formatted 0 (lines s))
    ∙ sym (format_dmc_code-formatted s)

map-trim-formatted : (indent : ℕ) (ls : List Bytes) → map trim (formatted indent ls) ≡ map trim ls
map-trim-formatted indent [] = refl
map-trim-formatted indent (line ∷ ls) =
    rw (trim-spaces (indent_of indent (trim line) * 4) line)
      (ap (◌∷◌ (trim line)) (map-trim-formatted (indent_after indent (trim line)) ls))

-- The lines of the formatted text are the lines of the source, but for blanks in front of them.
pub map-trim-format : (s : Bytes) → map trim (lines (format_dmc_code s)) ≡ map trim (lines s)
map-trim-format s = ap (map trim) (lines-format s) ∙ map-trim-formatted 0 (lines s)
