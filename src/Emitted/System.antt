-- ===== src/Emitted/System.antt =====
-- What the emitted C asks of the system, in `emit_runtime` of compiler/dmc.cpp: `arg_text`, `datetime_now` to
-- `datetime_unix`, `proc_arg_count` and `proc_exit`, and `port_init` to `interrupt`.
use demonic_c.Base.{
  ℕ, ◌-◌, ◌^◌, ◌%◌, Bool, List, [], Option, none, some, if◌then◌else◌, leb, get_elem?,
}
use demonic_c.Text.{Bytes, codes}
use demonic_c.Emitted.Handles.{Effect, returns, undefined, to_int}

abbrev minus_one_long : ℕ
minus_one_long = 2 ^ 64 - 1

-- What the system does: the time, and a time written by `localtime` and `strftime` into so many bytes, where
-- the outer `none` is a time that `localtime` does not have and the inner one a text that does not fit; the
-- right to use ports, which `iopl` asks for; a port of so many bits written and read; and a system call.
record Machine (W : Type 0) : Type 0 where
  time : W → ℕ × W
  formatted : ℕ → Bytes → ℕ → Option (Option Bytes)
  iopl : W → Bool × W
  port_write : ℕ → ℕ → ℕ → W → W
  port_read : ℕ → ℕ → W → ℕ × W
  syscall : ℕ → ℕ → ℕ → W → ℕ × W

-- `__dmc_argv` with its `__dmc_argc` texts; a null pointer has none.
unfoldable arg_text : List Bytes → ℕ → Bytes
arg_text argv i = if leb (2 ^ 63) i then [] else elim (get_elem? argv i) [ none ↦ [] | some s ↦ s ]

unfoldable proc_arg_count : ℕ → ℕ
proc_arg_count argc = argc

-- The status that `exit` is given. It does not return.
unfoldable proc_exit : ℕ → ℕ
proc_exit code = to_int code

-- `_dmc_io_allowed`, with what is outside of the program.
record Ports (W : Type 0) : Type 0 where
  io_allowed : Bool
  world : W

module _ {W : Type 0} (machine : Machine W) where
  unfoldable datetime_now : W → Effect W ℕ
  datetime_now w = let (now, w') = machine.time w in returns now w'

  unfoldable datetime_unix : W → Effect W ℕ
  datetime_unix w = let (now, w') = machine.time w in returns now w'

  -- `format ? format : "%Y-%m-%d %H:%M:%S"`.
  abbrev format_or : Option Bytes → Bytes
  format_or none = codes "%Y-%m-%d %H:%M:%S"
  format_or (some format) = format

  -- What `strftime` leaves in `buf` where the text does not fit is not said, and not a string.
  abbrev date_text : Option (Option Bytes) → W → Effect W Bytes
  date_text none w = returns [] w
  date_text (some none) w = undefined
  date_text (some (some text)) w = returns text w

  unfoldable datetime_format : ℕ → Option Bytes → W → Effect W Bytes
  datetime_format value format w = date_text (machine.formatted value (format_or format) 128) w

  -- On Linux.
  unfoldable port_init : Ports W → Effect (Ports W) ℕ
  port_init t =
      let (allowed, w) = machine.iopl t.world in
      returns (if allowed then 1 else 0) (record { io_allowed = allowed; world = w })

  unfoldable port_valid : Ports W → Effect (Ports W) ℕ
  port_valid t = returns (if t.io_allowed then 1 else 0) t

  -- With the number of bits.
  unfoldable port_out : ℕ → ℕ → ℕ → Ports W → Effect (Ports W) ℕ
  port_out bits port v t =
      if t.io_allowed
      then returns 0
          (record t { world = machine.port_write bits (port % 2 ^ 16) (v % 2 ^ bits) t.world })
      else returns minus_one_long t

  unfoldable port_in : ℕ → ℕ → Ports W → Effect (Ports W) ℕ
  port_in bits port t =
      if t.io_allowed
      then (let (r, w) = machine.port_read bits (port % 2 ^ 16) t.world in
          returns (r % 2 ^ bits) (record t { world = w }))
      else returns minus_one_long t

  unfoldable port_out8 : ℕ → ℕ → Ports W → Effect (Ports W) ℕ
  unfolding port_out
  port_out8 = port_out 8

  unfoldable port_in8 : ℕ → Ports W → Effect (Ports W) ℕ
  unfolding port_in
  port_in8 = port_in 8

  unfoldable port_out16 : ℕ → ℕ → Ports W → Effect (Ports W) ℕ
  unfolding port_out
  port_out16 = port_out 16

  unfoldable port_in16 : ℕ → Ports W → Effect (Ports W) ℕ
  unfolding port_in
  port_in16 = port_in 16

  unfoldable port_out32 : ℕ → ℕ → Ports W → Effect (Ports W) ℕ
  unfolding port_out
  port_out32 = port_out 32

  unfoldable port_in32 : ℕ → Ports W → Effect (Ports W) ℕ
  unfolding port_in
  port_in32 = port_in 32

  -- On Linux.
  unfoldable syscall_h : ℕ → ℕ → ℕ → W → Effect W ℕ
  syscall_h n a1 a2 w = let (r, w') = machine.syscall n a1 a2 w in returns r w'

unfoldable interrupt : ℕ → ℕ
interrupt n = minus_one_long
