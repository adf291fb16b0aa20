-- ===== src/Emitted/Json.antt =====
-- `json_get` of the emitted C, in `emit_runtime` of compiler/dmc.cpp, on strings that are not null.
pub mod Member
use demonic_c.Base.{
  ℕ, zero, suc, ◌+◌, Bool, true, false, ◌||◌, List, [], ◌∷◌, ◌++◌, ◌==◌, Option, none, some,
  if◌then◌else◌, length, take, drop,
}
use demonic_c.Text.{Bytes, codes, find, find_byte, front_is, cat}

-- The C text stands in a raw string literal, where `'\\t'` has two backslashes: as a character constant of
-- two characters it is a number that no byte is, 92 * 256 + 116, and `'\\n'` is 92 * 256 + 110.
abbrev pub tab_constant : ℕ
tab_constant = 23668

abbrev pub newline_constant : ℕ
newline_constant = 23662

-- `snprintf(needle, sizeof(needle), "\"%s\"", key)`.
abbrev pub needle : Bytes → Bytes
needle key = take 511 (b'"' ∷ (key ++ codes "\""))

unfoldable pub skip_blanks : Bytes → Bytes
skip_blanks [] = []
skip_blanks (c ∷ s) =
    let rest = skip_blanks s in if c == b' ' || c == tab_constant then rest else c ∷ s

-- The bytes in front of the first that ends the loop, `room` at most.
unfoldable pub copied : (ℕ → Bool) → ℕ → Bytes → Bytes
copied ends zero s = []
copied ends (suc room) [] = []
copied ends (suc room) (c ∷ s) = let rest = copied ends room s in if ends c then [] else c ∷ rest

abbrev pub ends_text : ℕ → Bool
ends_text c = c == b'"'

abbrev pub ends_value : ℕ → Bool
ends_value c = c == b',' || c == b'}'

abbrev pub is_trimmed : ℕ → Bool
is_trimmed c = c == b' ' || c == newline_constant

-- Without the bytes to trim at the end.
unfoldable pub trimmed : Bytes → Bytes
trimmed [] = []
trimmed (c ∷ s) = elim (trimmed s) [
  | [] ↦ if is_trimmed c then [] else c ∷ []
  | d ∷ rest ↦ c ∷ d ∷ rest
]

-- Behind the blanks, in a buffer of 65536 bytes.
unfoldable pub value_at : Bytes → Bytes
unfolding copied trimmed
value_at s =
    if front_is b'"' s
    then copied ends_text 65535 (drop 1 s)
    else trimmed (copied ends_value 65535 s)

abbrev pub behind_colon : Bytes → Option ℕ → Bytes
behind_colon s none = []
behind_colon s (some i) = value_at (skip_blanks (drop (i + 1) s))

abbrev pub behind_needle : Bytes → ℕ → Option ℕ → Bytes
behind_needle json size none = []
behind_needle json size (some i) = let s = drop (i + size) json in behind_colon s (find_byte b':' s)

unfoldable pub json_get : Bytes → Bytes → Bytes
unfolding find skip_blanks value_at
json_get json key = behind_needle json (length (needle key)) (find (needle key) json)
