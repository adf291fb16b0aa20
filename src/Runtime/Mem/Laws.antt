-- ===== src/Runtime/Mem/Laws.antt =====
-- What the buffers of runtime/mem/dmc_mem.c promise: reads against writes, and `dmc_mem_free`.
use demonic_c.Base.{
  ℕ, ◌≡◌, ◌≢◌, ◌⊎◌, refl, sym, ap, ◌∙◌, true, false, Option, none, some, leb, ltb, length,
  get_elem?, set_elem, inl, inr, Bool-cases, Option-cases, if◌then◌else◌, get_elem?-set_elem,
  get_elem?-set_elem_other, get_elem?-length,
}
use demonic_c.Text.{codes}
use demonic_c.Runtime.Core.{
  dmc_memory, same_kind, Slot, Table, Call, empty_slot, set_error, fail, get, with_slot, release,
  with_handle,
}
use demonic_c.Runtime.Core.Valid.{kind_self, IsTable, with_handle-leaves}
use demonic_c.Runtime.Leaves.{inside-memory}
use demonic_c.Runtime.Mem.{
  bytes_of, read_slot, written, write_slot, free_slot, mem_read, mem_write, mem_free,
}

module _ {F : Type 0} where
  -- The slot of a handle is a buffer.
  pub record Buffer (t : Table F) (h : ℕ) (slot : Slot F) : Type 0 where
    pub there : get_elem? t.slots h ≡ some slot
    pub kind : slot.kind ≡ dmc_memory

  -- A call on a handle whose slot is a buffer.
  with_handle-Buffer :
      {A : Type 0} (h : ℕ) (k : Slot F → Call F A) (t : Table F) {slot : Slot F}
      → Buffer t h slot
      → with_handle h dmc_memory k t ≡ k slot t
  unfolding get
  with_handle-Buffer h k t {slot} b =
      let same : same_kind slot.kind dmc_memory ≡ true = kind_self slot.kind dmc_memory b.kind in
      rw (b.there, same)

  -- What a call on a handle that succeeds is on.
  Found : {A : Type 0} (h : ℕ) (k : Slot F → Call F A) (t : Table F) → Option A × Table F → Type 0
  Found h k t r = (r.0 ≡ none) ⊎ ((slot : Slot F) × Buffer t h slot × (r ≡ k slot t))

  with_handle-Found :
      {A : Type 0} (h : ℕ) (k : Slot F → Call F A) (t : Table F)
      → Found h k t (with_handle h dmc_memory k t)
  unfolding Found
  with_handle-Found h k t =
      with_handle-leaves (Found h k t) h dmc_memory k t (λ m. inl refl)
        λ slot e same. inr (slot, record { there = e; kind = same }, refl)

  pub mem_read-Buffer :
      (h i : ℕ) (t : Table F) {slot : Slot F} {byte : ℕ}
      → Buffer t h slot
      → leb slot.size i ≡ false
      → get_elem? (bytes_of slot.value) i ≡ some byte
      → mem_read true h i t ≡ (some byte, t)
  unfolding mem_read read_slot
  mem_read-Buffer h i t b inside there = with_handle-Buffer h (read_slot i) t b ∙ rw (inside, there)

  -- What a write that succeeds has done.
  record Wrote (h i value : ℕ) (t t' : Table F) : Type 0 where
    slot : Slot F
    before : Buffer t h slot
    inside : leb slot.size i ≡ false
    after : t' ≡ with_slot h (written slot i value) t

  write_slot-Wrote :
      (h i value : ℕ) (slot : Slot F) (t : Table F) {t' : Table F}
      → Buffer t h slot
      → write_slot h i value slot t ≡ (some tt, t')
      → Wrote h i value t t'
  unfolding write_slot fail
  write_slot-Wrote h i value slot t {t'} b e = elim (Bool-cases (leb slot.size i)) [
    | inl outside ↦
        let refused : Option.none ≡ some tt =
          ap (λ (r : Option (Unit {0}) × Table F). r.0) (rw outside at e) in
        absurd (cc refused)
    | inr inside ↦ elim (Bool-cases (ltb i (length (bytes_of slot.value)))) [
      | inl room ↦
          let done : with_slot h (written slot i value) t ≡ t' =
            ap (λ (r : Option (Unit {0}) × Table F). r.1) (rw (inside, room) at e) in
          record { slot = slot; before = b; inside = inside; after = sym done }
      | inr full ↦
          let refused : Option.none ≡ some tt =
            ap (λ (r : Option (Unit {0}) × Table F). r.0) (rw (inside, full) at e) in
          absurd (cc refused)
    ]
  ]

  mem_write-Wrote :
      (h i value : ℕ) (t : Table F) {t' : Table F}
      → mem_write h i value t ≡ (some tt, t')
      → Wrote h i value t t'
  unfolding mem_write Found
  mem_write-Wrote h i value t e = elim (with_handle-Found h (write_slot h i value) t) [
    | inl failed ↦
        let refused : Option.none ≡ some tt =
          sym failed ∙ ap (λ (r : Option (Unit {0}) × Table F). r.0) e in
        absurd (cc refused)
    | inr (slot, b, r) ↦ write_slot-Wrote h i value slot t b (sym r ∙ e)
  ]

  -- A byte that was written is what is read at its place.
  pub mem_read-mem_write :
      (h i value : ℕ) (t t' : Table F)
      → IsTable t
      → mem_write h i value t ≡ (some tt, t')
      → mem_read true h i t' ≡ (some value, t')
  mem_read-mem_write h i value t t' v e =
      let w = mem_write-Wrote h i value t e in
      let new = written w.slot i value in
      let there : get_elem? t'.slots h ≡ some new =
        ap (λ (u : Table F). get_elem? u.slots h) w.after
        ∙ get_elem?-set_elem t.slots h new (get_elem?-length t.slots h w.before.there) in
      mem_read-Buffer h i t' (record { there = there; kind = w.before.kind }) w.inside
        (get_elem?-set_elem (bytes_of w.slot.value) i value
          (inside-memory h i t v w.before.there w.before.kind w.inside))

  -- What a read returns, by the slot of its handle alone.
  byte_at : ℕ → Option (Slot F) → Option ℕ
  byte_at i none = none
  byte_at i (some slot) =
      if same_kind slot.kind dmc_memory
      then (if leb slot.size i then none else get_elem? (bytes_of slot.value) i)
      else none

  mem_read-byte_at :
      (h i : ℕ) (t : Table F) → (mem_read true h i t).0 ≡ byte_at i (get_elem? t.slots h)
  unfolding mem_read read_slot get fail byte_at
  mem_read-byte_at h i t = elim (Option-cases (get_elem? t.slots h)) [
    | inl e ↦ rw e
    | inr (slot, e) ↦ elim (Bool-cases (same_kind slot.kind dmc_memory)) [
      | inr other ↦ rw (e, other)
      | inl same ↦ elim (Bool-cases (leb slot.size i)) [
        | inl outside ↦ rw (e, same, outside)
        | inr inside ↦ elim (Option-cases (get_elem? (bytes_of slot.value) i)) [
          | inl gone ↦ rw (e, same, inside, gone)
          | inr (byte, there) ↦ rw (e, same, inside, there)
        ]
      ]
    ]
  ]

  byte_at-written :
      (slot : Slot F) (i j value : ℕ)
      → i ≢ j
      → byte_at j (some (written slot i value)) ≡ byte_at j (some slot)
  unfolding byte_at
  byte_at-written slot i j value h = rw (get_elem?-set_elem_other (bytes_of slot.value) i j value h)

  -- A write that succeeds changes no other byte: a read of another handle, or of another index of the same
  -- handle, returns what it returned before.
  pub mem_read-mem_write_other :
      (h i value g j : ℕ) (t t' : Table F)
      → mem_write h i value t ≡ (some tt, t')
      → (h ≢ g) ⊎ ((h ≡ g) × (i ≢ j))
      → (mem_read true g j t').0 ≡ (mem_read true g j t).0
  mem_read-mem_write_other h i value g j t t' e apart =
      let w = mem_write-Wrote h i value t e in
      let new = written w.slot i value in
      mem_read-byte_at g j t'
      ∙ elim apart [
        | inl other ↦ ap (byte_at j) (
            ap (λ (u : Table F). get_elem? u.slots g) w.after
            ∙ get_elem?-set_elem_other t.slots h g new other)
        | inr (same, other) ↦
            ap (byte_at j) (
              ap (λ (u : Table F). get_elem? u.slots g) w.after
              ∙ (ap (λ k. get_elem? (set_elem t.slots h new) k) (sym same)
                  ∙ get_elem?-set_elem t.slots h new (get_elem?-length t.slots h w.before.there)))
            ∙ (byte_at-written w.slot i j value other
                ∙ ap (byte_at j) (sym (ap (λ k. get_elem? t.slots k) (sym same) ∙ w.before.there)))
      ]
      ∙ sym (mem_read-byte_at g j t)

  -- `dmc_release` of a slot that is empty.
  release-empty :
      (h : ℕ) (t : Table F)
      → get_elem? t.slots h ≡ some empty_slot
      → release h t ≡ (none, set_error (codes "invalid runtime handle") t)
  unfolding release same_kind fail
  release-empty h t e = rw e

  -- `dmc_mem_free` returns -1 on every buffer, with the error of an invalid handle, though it has freed
  -- it: the slot is empty, and no later read of the handle succeeds.
  pub mem_free-fails :
      (h : ℕ) (t : Table F) {slot : Slot F}
      → Buffer t h slot
      → (mem_free h t
          ≡ (none, set_error (codes "invalid runtime handle") (with_slot h empty_slot t)))
        × ((i : ℕ) → (mem_read true h i (mem_free h t).1).0 ≡ none)
  unfolding mem_free free_slot byte_at same_kind set_error
  mem_free-fails h t b =
      let gone : get_elem? (with_slot h (empty_slot {F = F}) t).slots h ≡ some empty_slot =
        get_elem?-set_elem t.slots h empty_slot (get_elem?-length t.slots h b.there) in
      let result =
        with_handle-Buffer h (free_slot h) t b ∙ release-empty h (with_slot h empty_slot t) gone in
      (
        result,
        λ i.
            mem_read-byte_at h i (mem_free h t).1
            ∙ ap (byte_at i)
                (ap (λ (r : Option (Unit {0}) × Table F). get_elem? r.1.slots h) result ∙ gone),
      )

  pub mem_free-none : (h : ℕ) (t : Table F) → (mem_free h t).0 ≡ none
  unfolding mem_free Found
  mem_free-none h t = elim (with_handle-Found h (free_slot h) t) [
    | inl failed ↦ failed
    | inr (slot, b, _) ↦ ap (λ (r : Option (Unit {0}) × Table F). r.0) (mem_free-fails h t b).0
  ]
