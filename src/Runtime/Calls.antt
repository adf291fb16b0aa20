-- ===== src/Runtime/Calls.antt =====
-- A program's calls of the runtime, one after another, on its one table of handles.
use demonic_c.Base.{ℕ, refl, Bool, List, [], ◌∷◌, Option, arith}
use demonic_c.Text.{Bytes}
use demonic_c.Runtime.Core.{Table, no_handles, release}
use demonic_c.Runtime.Core.Valid.{IsTable}
use demonic_c.Runtime.Leaves.{
  mem_alloc-Leaves, mem_size-Leaves, mem_read-Leaves, mem_write-Leaves, mem_free-Leaves,
  release-Leaves,
}
use demonic_c.Runtime.Leaves.Tcp.{
  tcp_connect-Leaves, tcp_send-Leaves, tcp_recv-Leaves, tcp_close-Leaves,
}
use demonic_c.Runtime.Leaves.Streams.{
  file_open-Leaves, file_read-Leaves, file_write-Leaves, file_close-Leaves,
}
use demonic_c.Runtime.Mem.{mem_alloc, mem_size, mem_read, mem_write, mem_free}
use demonic_c.Runtime.Fs.{Stdio, file_open, file_read, file_write, file_close}
use demonic_c.Runtime.Net.{Sockets, tcp_connect, tcp_send, tcp_recv, tcp_close}

-- A call with its arguments; the first of those that reserve tell whether `calloc` and `realloc` succeed.
pub data Request : Type 0 where
  alloc : Bool → Bool → ℕ → Request
  size : Bool → ℕ → Request
  read : Bool → ℕ → ℕ → Request
  write : ℕ → ℕ → ℕ → Request
  free : ℕ → Request
  open_file : Bool → Option Bytes → Option Bytes → Request
  read_file : Bool → ℕ → ℕ → Request
  write_file : Bool → ℕ → Bytes → Request
  close_file : ℕ → Request
  connect : Bool → Bytes → ℕ → Request
  send : Bool → ℕ → Bytes → Request
  recv : Bool → ℕ → ℕ → Request
  hang_up : ℕ → Request
  drop_handle : ℕ → Request

module _ {F : Type 0} (io : Stdio F) (net : Sockets) where
  -- The table behind a call.
  unfoldable pub after_call : Request → Table F → Table F
  after_call (alloc allocated grown n) t = (mem_alloc allocated grown n t).1
  after_call (size out h) t = (mem_size out h t).1
  after_call (read out h i) t = (mem_read out h i t).1
  after_call (write h i v) t = (mem_write h i v t).1
  after_call (free h) t = (mem_free h t).1
  after_call (open_file grown path mode) t = (file_open io grown path mode t).1
  after_call (read_file args h n) t = (file_read io args h n t).1
  after_call (write_file args h text) t = (file_write io args h text t).1
  after_call (close_file h) t = (file_close io h t).1
  after_call (connect grown host port) t = (tcp_connect net grown host port t).1
  after_call (send args h text) t = (tcp_send net args h text t).1
  after_call (recv args h n) t = (tcp_recv net args h n t).1
  after_call (hang_up h) t = (tcp_close net h t).1
  after_call (drop_handle h) t = (release h t).1

  unfoldable pub after_calls : List Request → Table F → Table F
  unfolding after_call
  after_calls [] t = t
  after_calls (r ∷ rs) t = after_calls rs (after_call r t)

  after_call-IsTable : (r : Request) (t : Table F) → IsTable t → IsTable (after_call r t)
  unfolding after_call
  after_call-IsTable (alloc allocated grown n) t v = (mem_alloc-Leaves allocated grown n t v).valid
  after_call-IsTable (size out h) t v = (mem_size-Leaves out h t v).valid
  after_call-IsTable (read out h i) t v = (mem_read-Leaves out h i t v).valid
  after_call-IsTable (write h i value) t v = (mem_write-Leaves h i value t v).valid
  after_call-IsTable (free h) t v = (mem_free-Leaves h t v).valid
  after_call-IsTable (open_file grown path mode) t v =
      (file_open-Leaves io grown path mode t v).valid
  after_call-IsTable (read_file args h n) t v = (file_read-Leaves io args h n t v).valid
  after_call-IsTable (write_file args h text) t v = (file_write-Leaves io args h text t v).valid
  after_call-IsTable (close_file h) t v = (file_close-Leaves io h t v).valid
  after_call-IsTable (connect grown host port) t v =
      (tcp_connect-Leaves net grown host port t v).valid
  after_call-IsTable (send args h text) t v = (tcp_send-Leaves net args h text t v).valid
  after_call-IsTable (recv args h n) t v = (tcp_recv-Leaves net args h n t v).valid
  after_call-IsTable (hang_up h) t v = (tcp_close-Leaves net h t v).valid
  after_call-IsTable (drop_handle h) t v = (release-Leaves h t v).valid

  after_calls-keeps : (rs : List Request) (t : Table F) → IsTable t → IsTable (after_calls rs t)
  unfolding after_calls
  after_calls-keeps [] t v = v
  after_calls-keeps (r ∷ rs) t v = after_calls-keeps rs (after_call r t) (after_call-IsTable r t v)

pub after_calls-IsTable :
    {F : Type 0} (io : Stdio F) (net : Sockets) (rs : List Request)
    → IsTable (after_calls io net rs no_handles)
after_calls-IsTable io net rs =
    after_calls-keeps io net rs no_handles
      (record { fits = omega arith; capped = omega arith; unused = tt; sound = tt; defined = refl })
