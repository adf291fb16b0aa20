-- ===== src/Emitted/Text.antt =====
-- The text functions of the emitted C with their static buffers, `text_len` to `text_char_at`,
-- `string_copy` and `string_slice` in `emit_runtime` of compiler/dmc.cpp.
pub mod Sub
use demonic_c.Base.{
  ℕ, ◌+◌, ◌-◌, ◌^◌, Bool, true, false, ◌||◌, List, [], ◌∷◌, ◌++◌, Option, none, some, if◌then◌else◌,
  ltb, leb, ◌==◌, length, get_elem?, take, drop,
}
use demonic_c.Text.{Bytes}
use demonic_c.Emitted.Handles.{Effect, returns, undefined}

-- A pointer to a C string: into the static buffer of `text_concat` or of `text_sub`, or to other bytes,
-- which nothing changes.
pub data Chars : Type 0 where
  of_bytes : Bytes → Chars
  in_concat : Chars
  in_sub : Chars

-- The strings in the two buffers, up to their null bytes.
pub record Buffers : Type 0 where
  pub concat : Bytes
  pub sub : Bytes

-- The string at a pointer.
abbrev pub string_at : Chars → Buffers → Bytes
string_at (of_bytes s) t = s
string_at in_concat t = t.concat
string_at in_sub t = t.sub

abbrev pub is_in_concat : Chars → Bool
is_in_concat in_concat = true
is_in_concat _ = false

abbrev pub is_in_sub : Chars → Bool
is_in_sub in_sub = true
is_in_sub _ = false

abbrev pub is_negative : ℕ → Bool
is_negative n = leb (2 ^ 63) n

unfoldable pub text_len : Chars → Buffers → Effect Buffers ℕ
text_len s t = returns (length (string_at s t)) t

-- `snprintf` cuts at the 131072 bytes of the buffer. It is undefined where it reads what it writes.
unfoldable pub text_concat : Chars → Chars → Buffers → Effect Buffers Chars
text_concat a b t =
    if is_in_concat a || is_in_concat b
    then undefined
    else returns in_concat (record t { concat = take 131071 (string_at a t ++ string_at b t) })

-- `if (start < 0) start = 0;`
abbrev pub from_zero : ℕ → ℕ
from_zero start = if is_negative start then 0 else start

-- `len` behind the test of `start + len`.
abbrev pub clipped : ℕ → ℕ → ℕ → ℕ
clipped start len size = if ltb size (start + len) then size - start else len

-- The copy of `n` bytes into the 65536 of the buffer. `memcpy` from the buffer itself is undefined.
abbrev pub copy_sub : Chars → ℕ → ℕ → Buffers → Effect Buffers Chars
copy_sub s start n t =
    if leb 65536 n
    then undefined
    else if is_in_sub s
    then (if n == 0 then returns in_sub (record t { sub = [] }) else undefined)
    else returns in_sub (record t { sub = take n (drop start (string_at s t)) })

-- A negative `len` is a huge number for `memcpy`; `start + len` of 2^63 or more overflows.
unfoldable pub sub_from : Chars → ℕ → ℕ → Buffers → Effect Buffers Chars
sub_from s start len t =
    if leb (length (string_at s t)) start
    then returns in_sub (record t { sub = [] })
    else if is_negative len
    then undefined
    else if is_negative (start + len)
    then undefined
    else copy_sub s start (clipped start len (length (string_at s t))) t

unfoldable pub text_sub : Chars → ℕ → ℕ → Buffers → Effect Buffers Chars
unfolding sub_from
text_sub s start len = sub_from s (from_zero start) len

abbrev pub minus_one : ℕ
minus_one = 18446744073709551615

abbrev pub byte_or_minus_one : Option ℕ → ℕ
byte_or_minus_one none = minus_one
byte_or_minus_one (some c) = c

unfoldable pub text_char_at : Chars → ℕ → Buffers → Effect Buffers ℕ
text_char_at s i t =
    if is_negative i
    then returns minus_one t
    else returns (byte_or_minus_one (get_elem? (string_at s t) i)) t

-- `given` tells whether `malloc` succeeds, which nothing looks at.
unfoldable pub string_copy : Bool → Chars → Buffers → Effect Buffers Chars
string_copy given s t = if given then returns (of_bytes (string_at s t)) t else undefined

unfoldable pub slice_from : Bool → Chars → ℕ → ℕ → Buffers → Effect Buffers Chars
unfolding string_copy
slice_from given s start len t =
    if leb (length (string_at s t)) start
    then string_copy given (of_bytes []) t
    else if is_negative len
    then undefined
    else if is_negative (start + len)
    then undefined
    else if given
    then returns
        (of_bytes (take (clipped start len (length (string_at s t))) (drop start (string_at s t))))
        t
    else undefined

unfoldable pub string_slice : Bool → Chars → ℕ → ℕ → Buffers → Effect Buffers Chars
unfolding slice_from
string_slice given s start len = slice_from given s (from_zero start) len
