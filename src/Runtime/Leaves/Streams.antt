-- ===== src/Runtime/Leaves/Streams.antt =====
-- Each call of runtime/fs/dmc_fs.c leaves a valid table.
use demonic_c.Base.{
  ◌-◌, not, ◌||◌, ◌==◌, ℕ, ◌≡◌, refl, sym, subst, Bool, Option, none, some, get_elem?, if_intro,
}
use demonic_c.Text.{Bytes, codes}
use demonic_c.Runtime.Core.{
  dmc_file, Value, null, buffer, stream, descriptor, Slot, Table, empty_slot, fail, with_slot,
}
use demonic_c.Runtime.Core.Valid.{Holds, IsTable, with_handle-leaves}
use demonic_c.Runtime.Core.Valid.Reserve.{reserve-Reserved}
use demonic_c.Runtime.Fs.{
  Stdio, not_read, not_written, reserve_file, file_open, read_stream, file_read, write_stream,
  file_write, file_close,
}
use demonic_c.Runtime.Leaves.{
  Leaves, fail-Leaves, replaced-Leaves, Reserved-Leaves, or_result-Leaves,
}

module _ {F : Type 0} (io : Stdio F) where
  reserve_file-Leaves :
      (grown : Bool) (o : Option F) (t : Table F) → IsTable t → Leaves (reserve_file io grown o t)
  unfolding fail
  reserve_file-Leaves grown none t v = fail-Leaves (codes "file open failed") none t v
  reserve_file-Leaves grown (some file) t v =
      Reserved-Leaves
        (reserve-Reserved grown (record { kind = dmc_file; value = stream file; size = 0 }) t tt v)

  pub file_open-Leaves :
      (grown : Bool) (path mode : Option Bytes) (t : Table F)
      → IsTable t
      → Leaves (file_open io grown path mode t)
  unfolding file_open
  file_open-Leaves grown none mode t v = fail-Leaves (codes "file_open: null argument") none t v
  file_open-Leaves grown (some path) none t v =
      fail-Leaves (codes "file_open: null argument") none t v
  file_open-Leaves grown (some path) (some mode) t v =
      reserve_file-Leaves grown (io.fopen path mode) t v

  -- A stream in place of the one that was read or written.
  stream-Leaves :
      {A : Type 0} (a : A) (h : ℕ) (slot : Slot F) (f : F) (t : Table F)
      → get_elem? t.slots h ≡ some slot
      → slot.kind ≡ dmc_file
      → IsTable t
      → Leaves (a, with_slot h (record slot { value = stream f }) t)
  stream-Leaves a h slot f t e k v =
      replaced-Leaves a h slot (record slot { value = stream f }) t e (λ p. cc)
        (subst (λ c. Holds {F = F} c (stream f) slot.size) (sym k) tt) v

  read_stream-Leaves :
      (h n : ℕ) (slot : Slot F) (value : Value F) (t : Table F)
      → get_elem? t.slots h ≡ some slot
      → slot.kind ≡ dmc_file
      → IsTable t
      → Leaves (read_stream io h n slot value t)
  unfolding fail
  read_stream-Leaves h n slot (stream fp) t e k v =
      let (got, after) = io.fread fp (n - 1) in
      let valid = (stream-Leaves tt h slot after t e k v).valid in
      if_intro Leaves (io.ferror after)
        (λ _. fail-Leaves (codes "file_read: read error") (some _) _ valid)
        (λ _. record { valid = valid })
  read_stream-Leaves h n slot null t e k v = fail-Leaves (codes "file_read: invalid file") none t v
  read_stream-Leaves h n slot (buffer b) t e k v =
      fail-Leaves (codes "file_read: invalid file") none t v
  read_stream-Leaves h n slot (descriptor d) t e k v =
      fail-Leaves (codes "file_read: invalid file") none t v

  pub file_read-Leaves :
      (arguments : Bool) (h n : ℕ) (t : Table F) → IsTable t → Leaves (file_read io arguments h n t)
  unfolding file_read
  file_read-Leaves arguments h n t v =
      if_intro Leaves (not arguments || n == 0)
        (λ _.
          or_result-Leaves not_read _ (fail-Leaves (codes "file_read: invalid argument") none t v))
        λ _. or_result-Leaves not_read _ (
          with_handle-leaves Leaves h dmc_file (λ slot. read_stream io h n slot slot.value) t
            (λ m. fail-Leaves m none t v)
            λ slot e k. read_stream-Leaves h n slot slot.value t e k v)

  write_stream-Leaves :
      (h : ℕ) (text : Bytes) (slot : Slot F) (value : Value F) (t : Table F)
      → get_elem? t.slots h ≡ some slot
      → slot.kind ≡ dmc_file
      → IsTable t
      → Leaves (write_stream io h text slot value t)
  unfolding fail
  write_stream-Leaves h text slot (stream fp) t e k v =
      let (flushed, last) = io.fflush (io.fwrite fp text).1 in
      let valid = (stream-Leaves tt h slot last t e k v).valid in
      if_intro Leaves flushed (λ _. record { valid = valid })
        (λ _. fail-Leaves (codes "file_write: flush failed") none _ valid)
  write_stream-Leaves h text slot null t e k v =
      fail-Leaves (codes "file_write: invalid file") none t v
  write_stream-Leaves h text slot (buffer b) t e k v =
      fail-Leaves (codes "file_write: invalid file") none t v
  write_stream-Leaves h text slot (descriptor d) t e k v =
      fail-Leaves (codes "file_write: invalid file") none t v

  pub file_write-Leaves :
      (arguments : Bool) (h : ℕ) (text : Bytes) (t : Table F)
      → IsTable t
      → Leaves (file_write io arguments h text t)
  unfolding file_write
  file_write-Leaves arguments h text t v =
      if_intro Leaves arguments
        (λ _. or_result-Leaves not_written _ (
          with_handle-leaves Leaves h dmc_file (λ slot. write_stream io h text slot slot.value) t
            (λ m. fail-Leaves m none t v)
            λ slot e k. write_stream-Leaves h text slot slot.value t e k v))
        (λ _.
          or_result-Leaves not_written _
            (fail-Leaves (codes "file_write: invalid argument") none t v))

  pub file_close-Leaves : (h : ℕ) (t : Table F) → IsTable t → Leaves (file_close io h t)
  unfolding file_close
  file_close-Leaves h t v =
      with_handle-leaves Leaves h dmc_file _ t (λ m. fail-Leaves m none t v)
        λ slot e k.
          if_intro Leaves _ (λ _. replaced-Leaves (some tt) h slot empty_slot t e (λ p. cc) refl v)
            (λ _. replaced-Leaves none h slot empty_slot t e (λ p. cc) refl v)
