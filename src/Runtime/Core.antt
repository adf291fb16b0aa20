-- ===== src/Runtime/Core.antt =====
-- The table of handles of runtime/core/dmc_core.c. A pointer is modelled by what it points to, since
-- each is in one slot only: a buffer, a stream of stdio, or the number of a socket. `F` is the type of
-- the streams, which stdio owns. The mutex is taken and given back within one call.
pub mod Valid
use demonic_c.Base.{
  ℕ, zero, suc, ◌+◌, ◌-◌, ◌*◌, ◌^◌, Bool, true, false, ◌||◌, List, [], ◌∷◌, ◌++◌, Option, none,
  some, String, if◌then◌else◌, ltb, leb, ◌==◌, length, get_elem?, set_elem, replicate, take,
}
use demonic_c.Text.{Bytes, codes}

pub data Kind : Type 0 where
  dmc_none : Kind
  dmc_memory : Kind
  dmc_file : Kind
  dmc_socket : Kind

unfoldable pub same_kind : Kind → Kind → Bool
same_kind dmc_none dmc_none = true
same_kind dmc_memory dmc_memory = true
same_kind dmc_file dmc_file = true
same_kind dmc_socket dmc_socket = true
same_kind _ _ = false

pub data Value (F : Type 0) : Type 0 where
  null : Value F
  buffer : Bytes → Value F
  stream : F → Value F
  descriptor : ℕ → Value F

pub record Slot (F : Type 0) : Type 0 where
  pub kind : Kind
  pub value : Value F
  pub size : ℕ

abbrev pub min_handles : ℕ
min_handles = 16

abbrev pub max_handles : ℕ
max_handles = 1048576

-- The capacity of the grown table, by the old one.
unfoldable pub new_capacity : ℕ → ℕ → ℕ
new_capacity capacity needed =
    let doubled = if capacity == 0 then min_handles else capacity * 2 in
    let enough = if ltb doubled needed then needed else doubled in
    if ltb max_handles enough then max_handles else enough

abbrev pub at_least_min : ℕ → ℕ
at_least_min needed = if ltb needed min_handles then min_handles else needed

-- `dmc_slots` with `dmc_slots_cap` elements, `dmc_slots_used`, and `dmc_error_text`. `undefined` tells
-- that a call has touched memory behind a buffer; what the calls behind it return has no meaning.
pub record Table (F : Type 0) : Type 0 where
  pub slots : List (Slot F)
  pub used : ℕ
  pub error : Bytes
  pub undefined : Bool

-- The table at the start of the program.
abbrev pub no_handles : {F : Type 0} → Table F
no_handles = record { slots = []; used = 0; error = []; undefined = false }

-- What a function returns, with the table it leaves; `none` is the -1 or the null pointer.
abbrev pub Call : Type 0 → Type 0 → Type 0
Call F A = Table F → Option A × Table F

module _ {F : Type 0} where
  abbrev pub empty_slot : Slot F
  empty_slot = record { kind = dmc_none; value = null; size = 0 }

  -- `snprintf` into the 256 bytes of `dmc_error_text`.
  unfoldable pub set_error : Bytes → Table F → Table F
  set_error message t = record t { error = take 255 message }

  unfoldable pub fail : {A : Type 0} → String → Call F A
  unfolding set_error
  fail message t = (none, set_error (codes message) t)

  abbrev pub grow : ℕ → Table F → Table F
  grow capacity t = record t { slots = t.slots ++ replicate (capacity - length t.slots) empty_slot }

  -- `grown` tells whether `realloc` succeeds.
  unfoldable pub ensure_capacity : Bool → ℕ → Call F (Unit {0})
  unfolding fail new_capacity
  ensure_capacity grown needed t =
      if ltb max_handles (at_least_min needed)
      then fail "handle table would exceed maximum size" t
      else if leb (at_least_min needed) (length t.slots)
      then (some tt, t)
      else if grown
      then (some tt, grow (new_capacity (length t.slots) (at_least_min needed)) t)
      else fail "out of memory growing handle table" t

  -- `dmc_slots[dmc_slots_used++] = slot`.
  unfoldable pub put_slot : Slot F → Table F → Table F
  unfolding set_elem
  put_slot slot t = record t { slots = set_elem t.slots t.used slot; used = t.used + 1 }

  abbrev pub reserve_in : Slot F → Option (Unit {0}) × Table F → Option ℕ × Table F
  reserve_in slot (none, t) = (none, t)
  reserve_in slot (some _, t) = (some t.used, put_slot slot t)

  unfoldable pub reserve : Bool → Slot F → Call F ℕ
  unfolding ensure_capacity fail same_kind put_slot
  reserve grown slot t =
      if same_kind slot.kind dmc_none
      then fail "invalid handle kind" t
      else reserve_in slot (ensure_capacity grown (t.used + 1) t)

  abbrev pub of_kind : Kind → Option (Slot F) → Option (Slot F)
  of_kind kind none = none
  of_kind kind (some slot) = if same_kind slot.kind kind then some slot else none

  abbrev pub or_invalid : {A : Type 0} → Option A → Call F A
  or_invalid none t = fail "invalid runtime handle" t
  or_invalid (some a) t = (some a, t)

  -- `dmc_get`. A handle is unsigned, so `handle < 0` never holds.
  unfoldable pub get : ℕ → Kind → Call F (Slot F)
  unfolding same_kind fail
  get handle kind t = or_invalid (of_kind kind (get_elem? t.slots handle)) t

  -- `dmc_slots[handle] = slot`.
  abbrev pub with_slot : ℕ → Slot F → Table F → Table F
  with_slot handle slot t = record t { slots = set_elem t.slots handle slot }

  abbrev pub release_slot : ℕ → Option (Slot F) → Call F (Unit {0})
  release_slot handle none t = fail "invalid runtime handle" t
  release_slot handle (some slot) t =
      if same_kind slot.kind dmc_none
      then fail "invalid runtime handle" t
      else (some tt, with_slot handle empty_slot t)

  unfoldable pub release : ℕ → Call F (Unit {0})
  unfolding same_kind fail set_elem
  release handle t = release_slot handle (get_elem? t.slots handle) t

  abbrev pub handle_count : Table F → ℕ
  handle_count t = t.used

  abbrev pub handle_capacity : Table F → ℕ
  handle_capacity t = length t.slots

  abbrev pub when_slot :
      {A : Type 0} → (Slot F → Call F A) → Option (Slot F) × Table F → Option A × Table F
  when_slot k (none, t) = (none, t)
  when_slot k (some slot, t) = k slot t

  -- `dmc_get`, and the early return where it gives a null pointer.
  abbrev pub with_handle : {A : Type 0} → ℕ → Kind → (Slot F → Call F A) → Call F A
  with_handle handle kind k t = when_slot k (get handle kind t)

abbrev pub last_error : {F : Type 0} → Table F → Bytes
last_error t = t.error

-- An `int`, `negsuc n` for `-1 - n`.
pub data ℤ : Type 0 where
  pos : ℕ → ℤ
  negsuc : ℕ → ℤ

unfoldable pub error_code_text : ℤ → String
error_code_text (pos zero) = "success"
error_code_text (pos (suc n)) = "unknown error"
error_code_text (negsuc n) =
    if n == 0
    then "generic failure"
    else if n == 1
    then "invalid argument"
    else if n == 2
    then "out of memory"
    else if n == 3
    then "handle not found"
    else if n == 4
    then "resource exhausted"
    else if n == 5
    then "io error"
    else if n == 6
    then "network error"
    else "unknown error"
