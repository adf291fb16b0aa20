-- ===== src/Runtime/Fs/Bounds.antt =====
-- `dmc_file_read` of runtime/fs/dmc_fs.c against the size of the buffer it is given.
use demonic_c.Base.{
  ℕ, ◌-◌, ◌≤◌, ◌≡◌, ◌≢◌, ◌+◌, Bool, not, ◌||◌, ◌==◌, [], ◌∷◌, ◌++◌, Option, none, some, length,
  length-append, if_intro, arith,
}
use demonic_c.Text.{Bytes}
use demonic_c.Runtime.Core.{Value, null, buffer, stream, descriptor, Slot, Table, dmc_file, fail}
use demonic_c.Runtime.Core.Valid.{with_handle-leaves}
use demonic_c.Runtime.Fs.{Stdio, ReadResult, not_read, or_result, read_stream, file_read}

abbrev pub stored_length : Option Bytes → ℕ
stored_length none = 0
stored_length (some b) = length b

module _ {F : Type 0} (io : Stdio F) where
  -- A read that keeps to the size of the buffer, whether it failed on its handle or not.
  record Fits (capacity : ℕ) (r : Option ReadResult × Table F) : Type 0 where
    fits : stored_length (or_result not_read r).0.stored ≤ capacity

  read_stream-Fits :
      (h capacity : ℕ) (slot : Slot F) (value : Value F) (t : Table F)
      → ((f : F) (n : ℕ) → length (io.fread f n).0 ≤ n)
      → capacity ≢ 0
      → Fits capacity (read_stream io h capacity slot value t)
  unfolding fail
  read_stream-Fits h capacity slot (stream fp) t law room =
      let got = io.fread fp (capacity - 1) in
      let small : length got.0 ≤ capacity - 1 = law fp (capacity - 1) in
      let all : length (got.0 ++ (0 ∷ [])) ≡ length got.0 + 1 = length-append got.0 (0 ∷ []) in
      let enough : length (got.0 ++ (0 ∷ [])) ≤ capacity = omega arith in
      if_intro (Fits capacity) (io.ferror got.1) (λ _. record { fits = enough })
        (λ _. record { fits = enough })
  read_stream-Fits h capacity slot null t law room = record { fits = omega arith }
  read_stream-Fits h capacity slot (buffer b) t law room = record { fits = omega arith }
  read_stream-Fits h capacity slot (descriptor d) t law room = record { fits = omega arith }

  -- What `dmc_file_read` stores, with the null byte behind it, is no longer than the buffer, where
  -- `fread` stores no more bytes than it is asked for.
  file_read-bounded :
      (arguments : Bool) (h capacity : ℕ) (t : Table F)
      → ((f : F) (n : ℕ) → length (io.fread f n).0 ≤ n)
      → stored_length (file_read io arguments h capacity t).0.stored ≤ capacity
  unfolding file_read fail
  file_read-bounded arguments h capacity t law =
      if_intro (λ (r : ReadResult × Table F). stored_length r.0.stored ≤ capacity)
        (not arguments || capacity == 0) (λ _. omega arith)
        λ allowed.
          (with_handle-leaves (Fits capacity) h dmc_file
            (λ slot. read_stream io h capacity slot slot.value) t
            (λ m. record { fits = omega arith })
            λ slot e k. read_stream-Fits h capacity slot slot.value t law (ground arith)).fits
