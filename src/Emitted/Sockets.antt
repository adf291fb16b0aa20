-- ===== src/Emitted/Sockets.antt =====
-- The sockets of the emitted C, `tcp_connect` to `tcp_close` in `emit_runtime` of compiler/dmc.cpp, where
-- the system has them. What the system does is a parameter.
pub mod Bounds
use demonic_c.Base.{
  ℕ, ◌+◌, ◌-◌, ◌^◌, ◌%◌, ◌≤◌, ◌<◌, ◌≡◌, refl, Bool, true, false, not, ◌&&◌, List, [], ◌∷◌, ◌++◌,
  Option, none, some, if◌then◌else◌, ltb, leb, ◌==◌, length, take, drop, arith,
}
use demonic_c.Text.{Bytes, codes, to_string}
use demonic_c.Emitted.Handles.{Effect, returns, undefined, to_int, minus_one}

-- The calls on sockets that are made: the first address of a host and a service, a new socket for an
-- address, `connect` with its success, and `send` and `recv` of at most so many bytes. A failure is
-- `none`. `A` is the type of addresses, and `W` what is outside of the program.
pub record Network (A W : Type 0) : Type 0 where
  pub getaddrinfo : Bytes → Bytes → W → Option A × W
  pub socket : A → W → Option ℕ × W
  pub connect : ℕ → A → W → Bool × W
  pub close : ℕ → W → W
  pub send : ℕ → Bytes → W → Option ℕ × W
  pub recv : ℕ → ℕ → W → Option Bytes × W

-- `static char b[65536]`, with what is outside.
pub record Received (W : Type 0) : Type 0 where
  pub b : Bytes
  pub world : W

abbrev pub is_negative : ℕ → Bool
is_negative n = leb (2 ^ 63) n

-- `(size_t)n` of an `int`.
abbrev pub size_of_int : ℕ → ℕ
size_of_int n = if leb (2 ^ 31) n then n + (2 ^ 64 - 2 ^ 32) else n

-- `snprintf(svc, sizeof(svc), "%lld", port)` with 16 bytes.
unfoldable pub service : ℕ → Bytes
service port =
    take 15 (if is_negative port then codes "-" ++ to_string (2 ^ 64 - port) else to_string port)

-- `if (max > 65535) max = 65535;`
abbrev pub at_most : ℕ → ℕ
at_most max = if not (is_negative max) && ltb 65535 max then 65535 else max

-- The string at `b`, up to its null byte.
unfoldable pub string_in : Bytes → Bytes
string_in [] = []
string_in (c ∷ cs) = if c == 0 then [] else c ∷ string_in cs

abbrev pub int_or_minus_one : {W : Type 0} → Option ℕ × W → Effect W ℕ
int_or_minus_one (none, w) = returns minus_one w
int_or_minus_one (some n, w) = returns (to_int n) w

module _ {A W : Type 0} (net : Network A W) where
  abbrev pub or_closed : ℕ → Bool × W → Effect W ℕ
  or_closed s (true, w) = returns s w
  or_closed s (false, w) = returns minus_one (net.close s w)

  abbrev pub connect_on : A → Option ℕ × W → Effect W ℕ
  connect_on a (none, w) = returns minus_one w
  connect_on a (some s, w) = or_closed s (net.connect s a w)

  abbrev pub connect_to : Option A × W → Effect W ℕ
  connect_to (none, w) = returns minus_one w
  connect_to (some a, w) = connect_on a (net.socket a w)

  unfoldable pub tcp_connect : Bytes → ℕ → W → Effect W ℕ
  unfolding service
  tcp_connect host port w = connect_to (net.getaddrinfo host (service port) w)

  -- A length that an `int` does not hold makes `send` read behind the text.
  unfoldable pub tcp_send : ℕ → Bytes → W → Effect W ℕ
  tcp_send s text w =
      let size = size_of_int (to_int (length text)) in
      if ltb (length text) size
      then undefined
      else int_or_minus_one (net.send (to_int s) (take size text) w)

  -- `b[n] = 0; return b;`, with the string that is there then. Bytes behind `b` are undefined.
  abbrev pub stored_in : Bytes → Option Bytes × W → Effect (Received W) Bytes
  stored_in b (none, w) =
      let after = 0 ∷ drop 1 b in returns (string_in after) (record { b = after; world = w })
  stored_in b (some bytes, w) =
      let after = bytes ++ (0 ∷ drop (length bytes + 1) b) in
      if leb 65536 (length bytes)
      then undefined
      else returns (string_in after) (record { b = after; world = w })

  unfoldable pub tcp_recv : ℕ → ℕ → Received W → Effect (Received W) Bytes
  unfolding string_in
  tcp_recv s max t =
      stored_in t.b (net.recv (to_int s) (size_of_int (to_int (at_most max))) t.world)

  unfoldable pub tcp_close : ℕ → W → Effect W ℕ
  tcp_close s w = returns 0 (net.close (to_int s) w)
