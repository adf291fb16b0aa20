-- ===== src/Runtime/Net.antt =====
-- runtime/net/dmc_net.c: sockets behind handles. What the sockets do is a parameter.
use demonic_c.Base.{
  ℕ, Bool, true, false, [], Option, none, some, if◌then◌else◌, ltb, length, take, set_elem,
}
use demonic_c.Text.{Bytes}
use demonic_c.Emitted.Handles.{to_int}
use demonic_c.Emitted.Sockets.{size_of_int}
use demonic_c.Runtime.Core.{
  Value, descriptor, dmc_socket, Call, empty_slot, fail, reserve, get, with_slot, with_handle,
}

-- The calls that the file makes: `getaddrinfo` with the success of the lookup, `socket` and `connect`
-- to what it found as one, with the descriptor, `send` with the number of bytes, `recv` of at most so
-- many, and `close` with its success. `none` is a negative result.
pub record Sockets : Type 0 where
  pub lookup : Bytes → ℕ → Bool
  pub connect : Bytes → ℕ → Option ℕ
  pub send : ℕ → Bytes → Option ℕ
  pub recv : ℕ → ℕ → Option Bytes
  pub close : ℕ → Bool

-- What `dmc_tcp_send` leaves: success with `*sent`, or a call of `send` that reads behind the data.
pub data Sending : Type 0 where
  sent : Bool → ℕ → Sending
  reads_behind : Sending

-- What `dmc_tcp_recv` leaves: success with what is in the buffer, or a call of `recv` that may write
-- behind the buffer.
pub data Reception : Type 0 where
  came : Bool → Bytes → Reception
  writes_behind : Reception

abbrev pub sent_of : Option ℕ → Sending
sent_of none = sent false 0
sent_of (some n) = sent true n

abbrev pub reception_of : Option Bytes → Reception
reception_of none = came false []
reception_of (some bytes) = came true bytes

abbrev pub fd_of : {F : Type 0} → Value F → ℕ
fd_of (descriptor fd) = fd
fd_of _ = 0

module _ {F : Type 0} (net : Sockets) where
  abbrev pub reserve_socket : Bool → Option ℕ → Call F ℕ
  reserve_socket grown none t = fail "TCP connection failed" t
  reserve_socket grown (some fd) t =
      reserve grown (record { kind = dmc_socket; value = descriptor fd; size = 0 }) t

  -- A socket that finds no handle is closed again.
  unfoldable pub tcp_connect : Bool → Bytes → ℕ → Call F ℕ
  unfolding fail reserve
  tcp_connect grown host port t =
      if net.lookup host port
      then reserve_socket grown (net.connect host port) t
      else fail "address lookup failed" t

  -- `*sent`, which is 0 where `send` fails, if the pointers are not null. `(int)length` is a `size_t` again
  -- in `send`, so that a length with bit 31 set asks for more than the data.
  unfoldable pub tcp_send : Bool → ℕ → Bytes → Call F Sending
  unfolding get
  tcp_send arguments handle text = with_handle handle dmc_socket λ slot t.
      let size = size_of_int (to_int (length text)) in
      if arguments
      then (if ltb (length text) size
          then (some reads_behind, t)
          else (some (sent_of (net.send (fd_of slot.value) (take size text))), t))
      else (none, t)

  -- What stands in the buffer, with its length for `*received`. The capacity is converted as the length
  -- of `dmc_tcp_send` is.
  unfoldable pub tcp_recv : Bool → ℕ → ℕ → Call F Reception
  unfolding get
  tcp_recv arguments handle capacity = with_handle handle dmc_socket λ slot t.
      let size = size_of_int (to_int capacity) in
      if arguments
      then (if ltb capacity size
          then (some writes_behind, t)
          else (some (reception_of (net.recv (fd_of slot.value) size)), t))
      else (none, t)

  unfoldable pub tcp_close : ℕ → Call F (Unit {0})
  unfolding get set_elem
  tcp_close handle = with_handle handle dmc_socket λ slot t.
      if net.close (fd_of slot.value)
      then (some tt, with_slot handle empty_slot t)
      else (none, with_slot handle empty_slot t)
