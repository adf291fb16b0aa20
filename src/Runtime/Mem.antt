-- ===== src/Runtime/Mem.antt =====
-- runtime/mem/dmc_mem.c: buffers behind handles.
pub mod Laws
pub mod Alloc
use demonic_c.Base.{
  ℕ, ◌^◌, Bool, true, false, ◌||◌, List, [], ◌∷◌, Option, none, some, if◌then◌else◌, ltb, leb, ◌==◌,
  length, get_elem?, set_elem, replicate,
}
use demonic_c.Text.{Bytes}
use demonic_c.Runtime.Core.{
  Value, null, buffer, stream, descriptor, dmc_memory, Slot, Table, Call, empty_slot, fail, reserve,
  get, with_slot, with_handle, release,
}

abbrev pub max_size : ℕ
max_size = 2 ^ 30

-- `value[index]` of the bytes behind a pointer.
abbrev pub bytes_of : {F : Type 0} → Value F → Bytes
bytes_of (buffer b) = b
bytes_of _ = []

module _ {F : Type 0} where
  -- `allocated` tells whether `calloc` succeeds, `grown` whether `realloc` does.
  unfoldable pub mem_alloc : Bool → Bool → ℕ → Call F ℕ
  unfolding fail reserve
  mem_alloc allocated grown size t =
      if size == 0 || ltb max_size size
      then fail "invalid allocation size" t
      else if allocated
      then reserve grown
          (record { kind = dmc_memory; value = buffer (replicate size 0); size = size }) t
      else fail "memory allocation failed" t

  -- `out` tells whether the pointer for the result is not null.
  unfoldable pub mem_size : Bool → ℕ → Call F ℕ
  unfolding get
  mem_size out handle t =
      if out then with_handle handle dmc_memory (λ slot t'. (some slot.size, t')) t else (none, t)

  -- A read or a write behind the memory of a buffer has no meaning in C.
  abbrev pub broken : {A : Type 0} → Call F A
  broken t = (none, record t { undefined = true })

  abbrev pub byte_or_broken : Option ℕ → Call F ℕ
  byte_or_broken none t = broken t
  byte_or_broken (some byte) t = (some byte, t)

  unfoldable pub read_slot : ℕ → Slot F → Call F ℕ
  unfolding fail
  read_slot index slot t =
      if leb slot.size index
      then fail "memory read outside buffer" t
      else byte_or_broken (get_elem? (bytes_of slot.value) index) t

  unfoldable pub mem_read : Bool → ℕ → ℕ → Call F ℕ
  unfolding get read_slot
  mem_read out handle index t =
      if out then with_handle handle dmc_memory (read_slot index) t else (none, t)

  -- The slot of a buffer with one byte written.
  abbrev pub written : Slot F → ℕ → ℕ → Slot F
  written slot index value = record slot {
    value = buffer (set_elem (bytes_of slot.value) index value);
  }

  unfoldable pub write_slot : ℕ → ℕ → ℕ → Slot F → Call F (Unit {0})
  unfolding fail set_elem
  write_slot handle index value slot t =
      if leb slot.size index
      then fail "memory write outside buffer" t
      else if ltb index (length (bytes_of slot.value))
      then (some tt, with_slot handle (written slot index value) t)
      else broken t

  unfoldable pub mem_write : ℕ → ℕ → ℕ → Call F (Unit {0})
  unfolding get write_slot
  mem_write handle index value = with_handle handle dmc_memory (write_slot handle index value)

  -- The slot is emptied before `dmc_release` looks at it.
  unfoldable pub free_slot : ℕ → Slot F → Call F (Unit {0})
  unfolding release set_elem
  free_slot handle slot t = release handle (with_slot handle empty_slot t)

  unfoldable pub mem_free : ℕ → Call F (Unit {0})
  unfolding get free_slot
  mem_free handle = with_handle handle dmc_memory (free_slot handle)
