-- ===== src/Runtime/Fs.antt =====
-- runtime/fs/dmc_fs.c: streams behind handles. What stdio does is a parameter.
pub mod Bounds
use demonic_c.Base.{
  ℕ, ◌-◌, Bool, true, false, not, ◌||◌, List, [], ◌∷◌, ◌++◌, Option, none, some, if◌then◌else◌, ltb,
  leb, ◌==◌, length, set_elem,
}
use demonic_c.Text.{Bytes}
use demonic_c.Runtime.Core.{
  Value, null, buffer, stream, descriptor, dmc_file, Slot, Table, Call, empty_slot, fail, reserve,
  get, with_slot, with_handle,
}

-- The functions of stdio that are called, on streams that are passed on with their state: `fread` of at
-- most so many bytes, `ferror`, `fwrite` with the number of bytes written, and `fflush` and `fclose`
-- with their success.
pub record Stdio (F : Type 0) : Type 0 where
  pub fopen : Bytes → Bytes → Option F
  pub fread : F → ℕ → Bytes × F
  pub ferror : F → Bool
  pub fwrite : F → Bytes → ℕ × F
  pub fflush : F → Bool × F
  pub fclose : F → Bool

-- What `dmc_file_read` leaves: its status, what it stored in the buffer, and `*written`.
pub record ReadResult : Type 0 where
  pub success : Bool
  pub stored : Option Bytes
  pub written : Option ℕ

pub record WriteResult : Type 0 where
  pub success : Bool
  pub written : Option ℕ

abbrev pub not_read : ReadResult
not_read = record { success = false; stored = none; written = none }

abbrev pub not_written : WriteResult
not_written = record { success = false; written = none }

-- A call that keeps its own account of success beside that of `dmc_get`.
abbrev pub or_result : {F A : Type 0} → A → Option A × Table F → A × Table F
or_result a (none, t) = (a, t)
or_result a (some b, t) = (b, t)

module _ {F : Type 0} (io : Stdio F) where
  abbrev pub reserve_file : Bool → Option F → Call F ℕ
  reserve_file grown none t = fail "file open failed" t
  reserve_file grown (some file) t =
      reserve grown (record { kind = dmc_file; value = stream file; size = 0 }) t

  -- A null pointer is `none`. A file that finds no handle is closed again.
  unfoldable pub file_open : Bool → Option Bytes → Option Bytes → Call F ℕ
  unfolding fail reserve
  file_open grown none mode t = fail "file_open: null argument" t
  file_open grown (some path) none t = fail "file_open: null argument" t
  file_open grown (some path) (some mode) t = reserve_file grown (io.fopen path mode) t

  abbrev pub read_stream : ℕ → ℕ → Slot F → Value F → Call F ReadResult
  read_stream handle capacity slot (stream fp) t =
      let (got, after) = io.fread fp (capacity - 1) in
      let t' = with_slot handle (record slot { value = stream after }) t in
      if io.ferror after
      then (
        some (record {
          success = false;
          stored = some (got ++ (0 ∷ []));
          written = some (length got);
        }),
        (fail {A = Unit {0}} "file_read: read error" t').1,
      )
      else (
        some (record {
          success = true;
          stored = some (got ++ (0 ∷ []));
          written = some (length got);
        }),
        t',
      )
  read_stream handle capacity slot _ t = fail "file_read: invalid file" t

  -- `arguments` tells that neither pointer is null.
  unfoldable pub file_read : Bool → ℕ → ℕ → Table F → ReadResult × Table F
  unfolding fail get set_elem
  file_read arguments handle capacity t =
      if not arguments || capacity == 0
      then or_result not_read (fail "file_read: invalid argument" t)
      else or_result not_read
          (with_handle handle dmc_file (λ slot. read_stream handle capacity slot slot.value) t)

  abbrev pub write_stream : ℕ → Bytes → Slot F → Value F → Call F WriteResult
  write_stream handle text slot (stream fp) t =
      let (wrote, after) = io.fwrite fp text in
      let (flushed, last) = io.fflush after in
      let t' = with_slot handle (record slot { value = stream last }) t in
      if flushed
      then (some (record { success = wrote == length text; written = some wrote }), t')
      else fail "file_write: flush failed" t'
  write_stream handle text slot _ t = fail "file_write: invalid file" t

  unfoldable pub file_write : Bool → ℕ → Bytes → Table F → WriteResult × Table F
  unfolding fail get set_elem
  file_write arguments handle text t =
      if arguments
      then or_result not_written
          (with_handle handle dmc_file (λ slot. write_stream handle text slot slot.value) t)
      else or_result not_written (fail "file_write: invalid argument" t)

  abbrev pub closed : Value F → Bool
  closed (stream fp) = io.fclose fp
  closed _ = true

  unfoldable pub file_close : ℕ → Call F (Unit {0})
  unfolding get set_elem
  file_close handle = with_handle handle dmc_file λ slot t.
      if closed slot.value
      then (some tt, with_slot handle empty_slot t)
      else (none, with_slot handle empty_slot t)
