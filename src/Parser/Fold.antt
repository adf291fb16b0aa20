-- ===== src/Parser/Fold.antt =====
-- Operators: their precedence, and the folding of an operator between two literals.
pub mod Value
pub mod Typed
use Prim.Native.Nat.{bit_and, bit_or, bit_xor}
use demonic_c.Base.{
  ℕ, zero, suc, ◌+◌, ◌-◌, ◌*◌, ◌/◌, ◌%◌, ◌^◌, Bool, true, false, not, ◌&&◌, ◌||◌, [], ◌∷◌, ◌++◌,
  ltb, leb, ◌==◌, if◌then◌else◌,
}
use demonic_c.Text.{Bytes, codes, is, isdigit, to_string}

unfoldable pub binary_precedence : Bytes → ℕ
binary_precedence op =
    if is op "||"
    then 1
    else if is op "&&"
    then 2
    else if is op "==" || is op "!="
    then 3
    else if is op "<" || is op "<=" || is op ">" || is op ">="
    then 4
    else if is op "+" || is op "-"
    then 5
    else if is op "*" || is op "/" || is op "%"
    then 6
    else 0

abbrev pub all_digits : Bytes → Bool
all_digits [] = true
all_digits (c ∷ cs) = isdigit c && all_digits cs

unfoldable pub is_int_literal : Bytes → Bool
is_int_literal [] = false
is_int_literal (c ∷ cs) = all_digits (c ∷ cs)

-- `int_log2` of a number below `2 ^ 64`, whose loop ends after 63 rounds at most.
unfoldable pub log2_from : ℕ → ℕ → ℕ → ℕ
log2_from zero v n = n
log2_from (suc f) v n = elim (ltb 1 v) [ true ↦ log2_from f (v / 2) (n + 1) | false ↦ n ]

unfoldable pub int_log2 : ℕ → ℕ
unfolding log2_from
int_log2 v = log2_from 64 v 0

-- The value of digits behind others of value `n`.
unfoldable pub digits_from : ℕ → Bytes → ℕ
digits_from n [] = n
digits_from n (c ∷ cs) = digits_from (10 * n + (c - b'0')) cs

abbrev pub digits_value : Bytes → ℕ
digits_value = digits_from 0

-- One more than the greatest `long long`.
abbrev pub long_bound : ℕ
long_bound = 2 ^ 63

-- What `try_fold` does: a text, which is empty where nothing is folded, the `std::out_of_range` of
-- `std::stoll`, or a signed overflow.
pub data Folded : Type 0 where
  folded : Bytes → Folded
  too_big : Folded
  overflows : Folded

abbrev pub truth : Bool → Folded
truth b = folded (if b then codes "1" else codes "0")

-- A `long long` result that is not negative.
abbrev pub checked : ℕ → Folded
checked r = if ltb r long_bound then folded (to_string r) else overflows

-- The `long long` with these 64 bits.
abbrev pub wrapped : ℕ → Folded
wrapped r =
    if ltb (r % 2 ^ 64) long_bound
    then folded (to_string (r % 2 ^ 64))
    else folded (codes "-" ++ to_string (2 ^ 64 - r % 2 ^ 64))

unfoldable pub fold_values : ℕ → Bytes → ℕ → Folded
unfolding to_string
fold_values lv op rv =
    if is op "+"
    then checked (lv + rv)
    else if is op "-"
    then folded (if ltb lv rv then codes "-" ++ to_string (rv - lv) else to_string (lv - rv))
    else if is op "*"
    then checked (lv * rv)
    else if is op "/"
    then (if rv == 0 then folded [] else folded (to_string (lv / rv)))
    else if is op "%"
    then (if rv == 0 then folded [] else folded (to_string (lv % rv)))
    else if is op "<<"
    then (if ltb rv 64 then wrapped (lv * 2 ^ rv) else overflows)
    else if is op ">>"
    then (if ltb rv 64 then folded (to_string (lv / 2 ^ rv)) else overflows)
    else if is op "&"
    then folded (to_string (bit_and lv rv))
    else if is op "|"
    then folded (to_string (bit_or lv rv))
    else if is op "^"
    then folded (to_string (bit_xor lv rv))
    else if is op "=="
    then truth (lv == rv)
    else if is op "!="
    then truth (not (lv == rv))
    else if is op "<"
    then truth (ltb lv rv)
    else if is op "<="
    then truth (leb lv rv)
    else if is op ">"
    then truth (ltb rv lv)
    else if is op ">="
    then truth (leb rv lv)
    else if is op "&&"
    then truth (not (lv == 0) && not (rv == 0))
    else if is op "||"
    then truth (not (lv == 0) || not (rv == 0))
    else folded []

unfoldable pub try_fold : Bytes → Bytes → Bytes → Folded
unfolding is_int_literal digits_from fold_values
try_fold left op right =
    if is_int_literal left && is_int_literal right
    then (if ltb (digits_value left) long_bound && ltb (digits_value right) long_bound
        then fold_values (digits_value left) op (digits_value right)
        else too_big)
    else folded []
