-- ===== src/Packages/Semver.antt =====
-- `parse_semver` of compiler/dmc.cpp, with its regular expressions written out.
use demonic_c.Base.{
  ◌==◌, ℕ, ◌+◌, ◌*◌, ◌-◌, ◌&&◌, List, [], ◌∷◌, Option, none, some, if◌then◌else◌, leb, drop,
}
use demonic_c.Text.{Bytes, codes, is, isdigit, front_isdigit, starts_with}

-- The digits in front, and what is behind them.
unfoldable pub digits_of : Bytes → Bytes × Bytes
digits_of [] = ([], [])
digits_of (c ∷ cs) =
    let rest = digits_of cs in if isdigit c then (c ∷ rest.0, rest.1) else ([], c ∷ cs)

unfoldable pub digits_number : ℕ → Bytes → ℕ
digits_number n [] = n
digits_number n (c ∷ cs) = digits_number (n * 10 + (c - b'0')) cs

-- The operator in front, as in the first expression, and what is behind it.
abbrev pub operators : List Bytes
operators = codes ">=" ∷ codes "<=" ∷ codes ">" ∷ codes "<" ∷ codes "==" ∷ codes "~" ∷ []

unfoldable pub operator_of : List Bytes → Bytes → Option (Bytes × Bytes)
unfolding starts_with
operator_of [] spec = none
operator_of (op ∷ ops) spec =
    if starts_with op spec then some (op, drop (size op) spec) else operator_of ops spec
  where
    size : Bytes → ℕ
    size [] = 0
    size (c ∷ cs) = 1 + size cs

-- What `parse_semver` ends in: `false`; `true` with `out_op`, if it is set, and `out_ver`; or the
-- exception of `std::stoi` on a number of more than 31 bits.
pub data Semver : Type 0 where
  no_match : Semver
  matches : Option Bytes → ℕ → Semver
  out_of_range : Semver

abbrev pub stoi : Option Bytes → Bytes → Semver
stoi op digits =
    let n = digits_number 0 digits in if leb n 2147483647 then matches op n else out_of_range

-- `[0-9]+` and `\.` up to the end.
unfoldable pub major_dot : Bytes → Option Bytes
unfolding digits_of
major_dot spec =
    if front_isdigit spec && is (digits_of spec).1 "." then some (digits_of spec).0 else none

-- Behind the dot of a number.
abbrev pub behind_dot : Bytes → Bytes
behind_dot [] = []
behind_dot (c ∷ cs) = if c == b'.' then cs else []

-- `([0-9]+)\.([0-9]+)\.([0-9]+)`, with its first number.
unfoldable pub three_numbers : Bytes → Option Bytes
unfolding digits_of
three_numbers spec =
    let minor = behind_dot (digits_of spec).1 in
    let patch = behind_dot (digits_of minor).1 in
    if front_isdigit spec
      && (front_isdigit minor && (front_isdigit patch && is (digits_of patch).1 ""))
    then some (digits_of spec).0
    else none

abbrev pub plain_version : Option Bytes → Semver
plain_version none = no_match
plain_version (some digits) = stoi none digits

abbrev pub behind_operator : Bytes → Bytes → Option Bytes → Semver
behind_operator op spec none = plain_version (three_numbers spec)
behind_operator op spec (some digits) = stoi (some op) digits

abbrev pub at_operator : Bytes → Option (Bytes × Bytes) → Semver
at_operator spec none = plain_version (three_numbers spec)
at_operator spec (some (op, rest)) = behind_operator op spec (major_dot rest)

unfoldable pub parse_semver : Bytes → Semver
unfolding digits_number operator_of major_dot three_numbers
parse_semver spec = at_operator spec (operator_of operators spec)
