-- ===== src/Emitted/Math.antt =====
-- The numbers of the emitted C, `math_abs` to `math_clamp` in `emit_runtime` of compiler/dmc.cpp.
use demonic_c.Base.{
  ℕ, ◌+◌, ◌-◌, ◌^◌, ◌%◌, ◌<◌, ◌≡◌, Bool, false, Option, none, some, if◌then◌else◌, ltb, ◌==◌, arith,
}
use demonic_c.Emitted.Handles.{to_int}

-- `a < b` on `long long`.
abbrev signed_ltb : ℕ → ℕ → Bool
signed_ltb a b = ltb ((a + 2 ^ 63) % 2 ^ 64) ((b + 2 ^ 63) % 2 ^ 64)

-- `none` is the overflow of `-x`. The result is an `int`.
unfoldable math_abs : ℕ → Option ℕ
math_abs x =
    if x == 2 ^ 63
    then none
    else if signed_ltb x 0
    then some (to_int (2 ^ 64 - x))
    else some (to_int x)

unfoldable math_min : ℕ → ℕ → ℕ
math_min a b = if signed_ltb a b then a else b

unfoldable math_max : ℕ → ℕ → ℕ
math_max a b = if signed_ltb b a then a else b

unfoldable math_clamp : ℕ → ℕ → ℕ → ℕ
math_clamp x lo hi = if signed_ltb x lo then lo else if signed_ltb hi x then hi else x

-- On a number from -2^31 + 1 to -1 `math_abs` gives the number without its sign.
math_abs-negative : (x : ℕ) → 2 ^ 64 - 2 ^ 31 < x → x < 2 ^ 64 → math_abs x ≡ some (2 ^ 64 - x)
unfolding math_abs
math_abs-negative x h k = ground (arith, h, k)

-- What fits no `int` loses its upper bits: the result at 2^32 + `n` is that at `n`.
math_abs-wraps : (n : ℕ) → n < 2 ^ 31 → math_abs (2 ^ 32 + n) ≡ math_abs n
unfolding math_abs
math_abs-wraps n h = ground (arith, h)

-- Where `hi` is not below `lo`, `math_clamp` is `math_min` of `math_max`.
math_clamp-math_min :
    (x lo hi : ℕ)
    → x < 2 ^ 64
    → lo < 2 ^ 64
    → hi < 2 ^ 64
    → signed_ltb hi lo ≡ false
    → math_clamp x lo hi ≡ math_min (math_max x lo) hi
unfolding math_clamp math_min math_max
math_clamp-math_min x lo hi h k l ordered = ground (arith, h, k, l, ordered)
