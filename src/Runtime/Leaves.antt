-- ===== src/Runtime/Leaves.antt =====
-- Each call on handles and on memory leaves a valid table.
pub mod Streams
pub mod Tcp
use demonic_c.Base.{
  ◌-◌, not, ◌||◌, ◌==◌, ℕ, ◌≡◌, ◌≢◌, refl, sym, ◌∙◌, subst, Bool, true, false, Option, none, some,
  length, length-replicate, length-set_elem, get_elem?, replicate, leb, set_elem, if_intro,
  Option-cases, get_elem?-inside, inl, inr, ltb, ◌<◌, arith, All-get_elem?,
}
use demonic_c.Text.{Bytes, codes}
use demonic_c.Runtime.Core.{
  dmc_none, dmc_memory, dmc_file, dmc_socket, Value, null, buffer, stream, descriptor, Slot, Table,
  empty_slot, set_error, fail, with_slot, release,
}
use demonic_c.Runtime.Core.Valid.{
  Holds, IsSound, IsTable, set_error-IsTable, taken-used, with_slot-IsTable, with_handle-leaves,
  release-IsTable,
}
use demonic_c.Runtime.Core.Valid.Reserve.{Reserved, reserved, refused, reserve-Reserved}
use demonic_c.Runtime.Mem.{
  read_slot, write_slot, free_slot, bytes_of, mem_alloc, mem_size, mem_read, mem_write, mem_free,
}
use demonic_c.Runtime.Fs.{
  Stdio, not_read, not_written, or_result, reserve_file, file_open, read_stream, file_read,
  write_stream, file_write, file_close,
}
use demonic_c.Runtime.Net.{Sockets, reserve_socket, tcp_connect, tcp_send, tcp_recv, tcp_close}

module _ {F : Type 0} where
  -- A call that left a valid table, whatever it returned.
  pub record Leaves {A : Type 0} (r : A × Table F) : Type 0 where
    pub valid : IsTable r.1

  pub fail-Leaves :
      {A : Type 0} (m : Bytes) (a : A) (t : Table F) → IsTable t → Leaves (a, set_error m t)
  fail-Leaves m a t v = record { valid = set_error-IsTable m t v }

  pub Reserved-Leaves :
      {slot : Slot F} {t : Table F} {r : Option ℕ × Table F} → Reserved slot t r → Leaves r
  Reserved-Leaves (reserved v _ _ _ _) = record { valid = v }
  Reserved-Leaves (refused v) = record { valid = v }

  pub replaced-Leaves :
      {A : Type 0} (a : A) (h : ℕ) (old new : Slot F) (t : Table F)
      → get_elem? t.slots h ≡ some old
      → old.kind ≢ dmc_none
      → IsSound new
      → IsTable t
      → Leaves (a, with_slot h new t)
  replaced-Leaves a h old new t e taken s v = record {
    valid = with_slot-IsTable h new t (taken-used h t v e taken) s v;
  }

  pub mem_alloc-Leaves :
      (allocated grown : Bool) (n : ℕ) (t : Table F)
      → IsTable t
      → Leaves (mem_alloc allocated grown n t)
  unfolding mem_alloc
  mem_alloc-Leaves allocated grown n t v =
      if_intro Leaves _ (λ _. fail-Leaves (codes "invalid allocation size") none t v)
        λ _.
          if_intro Leaves allocated
            (λ _. Reserved-Leaves (
              reserve-Reserved grown
                (record { kind = dmc_memory; value = buffer (replicate n 0); size = n }) t
                (length-replicate n 0) v))
            (λ _. fail-Leaves (codes "memory allocation failed") none t v)

  pub mem_size-Leaves : (out : Bool) (h : ℕ) (t : Table F) → IsTable t → Leaves (mem_size out h t)
  unfolding mem_size
  mem_size-Leaves true h t v =
      with_handle-leaves Leaves h dmc_memory (λ slot t'. (some slot.size, t')) t
        (λ m. fail-Leaves m none t v) (λ _ _ _. record { valid = v })
  mem_size-Leaves false h t v = record { valid = v }

  pub memory-length : (v : Value F) (n : ℕ) → Holds dmc_memory v n → length (bytes_of v) ≡ n
  memory-length (buffer b) n h = h
  memory-length null n h = absurd h
  memory-length (stream f) n h = absurd h
  memory-length (descriptor d) n h = absurd h

  -- A place below the size of a slot of memory is one of its bytes.
  pub inside-memory :
      (h i : ℕ) (t : Table F) {slot : Slot F}
      → IsTable t
      → get_elem? t.slots h ≡ some slot
      → slot.kind ≡ dmc_memory
      → leb slot.size i ≡ false
      → i < length (bytes_of slot.value)
  inside-memory h i t {slot} v e k inside =
      let held : Holds slot.kind slot.value slot.size = All-get_elem? IsSound t.slots h v.sound e in
      let size =
        memory-length slot.value slot.size (subst (λ c. Holds c slot.value slot.size) k held) in
      ground (arith, size, inside)

  pub mem_read-Leaves :
      (out : Bool) (h i : ℕ) (t : Table F) → IsTable t → Leaves (mem_read out h i t)
  unfolding mem_read read_slot fail
  mem_read-Leaves true h i t v =
      with_handle-leaves Leaves h dmc_memory (read_slot i) t (λ m. fail-Leaves m none t v)
        λ slot e k.
          if_intro Leaves (leb slot.size i)
            (λ _. fail-Leaves (codes "memory read outside buffer") none t v)
            (λ inside. elim (Option-cases (get_elem? (bytes_of slot.value) i)) [
              | inl gone ↦ absurd (get_elem?-inside _ i (inside-memory h i t v e k inside) gone)
              | inr (byte, there) ↦ rw there (record { valid = v })
            ])
  mem_read-Leaves false h i t v = record { valid = v }

  -- The buffer keeps its size when it is written to.
  pub written-IsSound :
      (slot : Slot F) (i value : ℕ)
      → IsSound slot
      → slot.kind ≡ dmc_memory
      → IsSound (record slot { value = buffer (set_elem (bytes_of slot.value) i value) })
  written-IsSound slot i value s k =
      let held : length (bytes_of slot.value) ≡ slot.size =
        memory-length slot.value slot.size (subst (λ c. Holds c slot.value slot.size) k s) in
      subst (λ c. Holds {F = F} c (buffer (set_elem (bytes_of slot.value) i value)) slot.size)
        (sym k) (length-set_elem (bytes_of slot.value) i value ∙ held)

  pub mem_write-Leaves : (h i value : ℕ) (t : Table F) → IsTable t → Leaves (mem_write h i value t)
  unfolding mem_write write_slot fail
  mem_write-Leaves h i value t v =
      with_handle-leaves Leaves h dmc_memory (write_slot h i value) t (λ m. fail-Leaves m none t v)
        λ slot e k.
          if_intro Leaves (leb slot.size i)
            (λ _. fail-Leaves (codes "memory write outside buffer") none t v)
            (λ inside.
              let lt = inside-memory h i t v e k inside in
              let room : ltb i (length (bytes_of slot.value)) ≡ true = ground (arith, lt) in
              rw room (
                replaced-Leaves (some tt) h slot _ t e (λ p. cc)
                  (written-IsSound slot i value (All-get_elem? IsSound t.slots h v.sound e) k) v))

  pub release-Leaves : (h : ℕ) (t : Table F) → IsTable t → Leaves (release h t)
  release-Leaves h t v = record { valid = release-IsTable h t v }

  pub mem_free-Leaves : (h : ℕ) (t : Table F) → IsTable t → Leaves (mem_free h t)
  unfolding mem_free free_slot
  mem_free-Leaves h t v =
      with_handle-leaves Leaves h dmc_memory (free_slot h) t (λ m. fail-Leaves m none t v)
        λ slot e k.
          release-Leaves h (with_slot h empty_slot t)
            (replaced-Leaves tt h slot empty_slot t e (λ p. cc) refl v).valid

  pub or_result-Leaves :
      {A : Type 0} (a : A) (r : Option A × Table F) → Leaves r → Leaves (or_result a r)
  or_result-Leaves a (none, t) h = record { valid = h.valid }
  or_result-Leaves a (some x, t) h = record { valid = h.valid }
