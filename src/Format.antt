-- ===== src/Format.antt =====
-- `format_dmc_code` of compiler/dmc.cpp.
pub mod Lines
pub mod Stable
pub mod Command
use demonic_c.Base.{
  ℕ, zero, suc, ◌+◌, ◌-◌, ◌*◌, Bool, true, false, ◌||◌, List, [], ◌∷◌, ◌++◌, ◌==◌, if◌then◌else◌,
  replicate,
}
use demonic_c.Text.{Bytes, front_is}

-- `std::getline` until it fails: what stands behind the last newline is a line unless it is empty.
abbrev pub cons_first : ℕ → List Bytes → List Bytes
cons_first c [] = (c ∷ []) ∷ []
cons_first c (l ∷ ls) = (c ∷ l) ∷ ls

unfoldable pub lines : Bytes → List Bytes
lines [] = []
lines (c ∷ cs) = if c == b'\n' then [] ∷ lines cs else cons_first c (lines cs)

abbrev pub is_blank : ℕ → Bool
is_blank c = c == b' ' || c == b'\t'

-- `line.substr(line.find_first_not_of(" \t"))`, empty where all is blank.
unfoldable pub trim : Bytes → Bytes
trim [] = []
trim (c ∷ cs) = if is_blank c then trim cs else c ∷ cs

abbrev pub back_is : ℕ → Bytes → Bool
back_is b [] = false
back_is b (c ∷ []) = c == b
back_is b (c ∷ d ∷ s) = back_is b (d ∷ s)

-- The indent of a line and that of the next, by the trimmed line. `-` stops at 0.
abbrev pub indent_of : ℕ → Bytes → ℕ
indent_of indent trimmed = if front_is b'}' trimmed then indent - 1 else indent

abbrev pub indent_after : ℕ → Bytes → ℕ
indent_after indent trimmed =
    if back_is b'{' trimmed then indent_of indent trimmed + 1 else indent_of indent trimmed

unfoldable pub format_lines : ℕ → List Bytes → Bytes
format_lines indent [] = []
format_lines indent (line ∷ ls) =
    replicate (indent_of indent (trim line) * 4) b' '
    ++ (trim line ++ b'\n' ∷ format_lines (indent_after indent (trim line)) ls)

unfoldable pub format_dmc_code : Bytes → Bytes
unfolding lines trim format_lines
format_dmc_code source = format_lines 0 (lines source)
