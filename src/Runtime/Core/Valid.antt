-- ===== src/Runtime/Core/Valid.antt =====
-- The invariant of the table of handles.
pub mod Reserve
use demonic_c.Base.{
  ℕ, ◌+◌, ◌-◌, ◌≤◌, ◌<◌, ◌≡◌, ◌≢◌, ◌⊎◌, refl, sym, ap, ◌∙◌, subst, Bool, true, false, List, [],
  ◌++◌, append-nil, Option, none, some, String, if_intro, Bool-cases, Option-cases, inl, inr, ltb,
  leb, length, get_elem?, replicate, drop, arith, All, All-append, All-replicate, All-set_elem,
  All-drop-append, All-drop-get_elem?, length-append, length-replicate, drop-drop, All-drop-one,
  length-set_elem, get_elem?-set_elem, get_elem?-set_elem_other, get_elem?-append, drop-set_elem,
}
use demonic_c.Text.{Bytes, codes}
use demonic_c.Runtime.Core.{
  Kind, dmc_none, dmc_memory, dmc_file, dmc_socket, same_kind, Value, null, buffer, stream,
  descriptor, Slot, max_handles, Table, Call, empty_slot, set_error, fail, new_capacity,
  at_least_min, grow, ensure_capacity, put_slot, reserve_in, reserve, get, with_slot, release,
  with_handle,
}

pub same_kind_eq : (a b : Kind) → same_kind a b ≡ true → a ≡ b
unfolding same_kind
same_kind_eq dmc_none dmc_none e = refl
same_kind_eq dmc_memory dmc_memory e = refl
same_kind_eq dmc_file dmc_file e = refl
same_kind_eq dmc_socket dmc_socket e = refl
same_kind_eq dmc_none dmc_memory e = cc
same_kind_eq dmc_none dmc_file e = cc
same_kind_eq dmc_none dmc_socket e = cc
same_kind_eq dmc_memory dmc_none e = cc
same_kind_eq dmc_memory dmc_file e = cc
same_kind_eq dmc_memory dmc_socket e = cc
same_kind_eq dmc_file dmc_none e = cc
same_kind_eq dmc_file dmc_memory e = cc
same_kind_eq dmc_file dmc_socket e = cc
same_kind_eq dmc_socket dmc_none e = cc
same_kind_eq dmc_socket dmc_memory e = cc
same_kind_eq dmc_socket dmc_file e = cc

pub kind_self : (a b : Kind) → a ≡ b → same_kind a b ≡ true
unfolding same_kind
kind_self a b p = subst (λ k. same_kind a k ≡ true) p (self a)
  where
    self : (k : Kind) → same_kind k k ≡ true
    self dmc_none = refl
    self dmc_memory = refl
    self dmc_file = refl
    self dmc_socket = refl

-- Growing gives room for what is needed, and no more than the limit.
pub new_capacity-bounds :
    (capacity needed : ℕ)
    → needed ≤ max_handles
    → capacity < needed
    → (needed ≤ new_capacity capacity needed) × (new_capacity capacity needed ≤ max_handles)
unfolding new_capacity
new_capacity-bounds capacity needed h k = ground arith

lt_or_le : (a b : ℕ) → (a < b) ⊎ (b ≤ a)
lt_or_le a b = elim (Bool-cases (ltb a b)) [
  | inl e ↦ inl (ground arith)
  | inr e ↦ inr (ground arith)
]

module _ {F : Type 0} where
  -- What a slot of each kind holds: nothing, a buffer of its size, a stream, a socket.
  abbrev pub Holds : Kind → Value F → ℕ → Type 0
  Holds dmc_none null size = size ≡ 0
  Holds dmc_memory (buffer b) size = length b ≡ size
  Holds dmc_file (stream f) size = Unit
  Holds dmc_socket (descriptor d) size = Unit
  Holds _ _ size = ⊥

  abbrev pub IsSound : Slot F → Type 0
  IsSound slot = Holds slot.kind slot.value slot.size

  abbrev pub IsNone : Slot F → Type 0
  IsNone slot = slot.kind ≡ dmc_none

  -- The used slots fit the table and the table the limit, no slot from the used ones on is taken, and
  -- each holds what its kind says; no call has touched memory behind a buffer.
  pub record IsTable (t : Table F) : Type 0 where
    pub fits : t.used ≤ length t.slots
    pub capped : length t.slots ≤ max_handles
    pub unused : All IsNone (drop t.used t.slots)
    pub sound : All IsSound t.slots
    pub defined : t.undefined ≡ false

  pub set_error-IsTable : (m : Bytes) (t : Table F) → IsTable t → IsTable (set_error m t)
  unfolding set_error
  set_error-IsTable m t v = record {
    fits = v.fits;
    capped = v.capped;
    unused = v.unused;
    sound = v.sound;
    defined = v.defined;
  }

  pub fail-IsTable :
      (A : Type 0) (m : String) (t : Table F) → IsTable t → IsTable (fail {A = A} m t).1
  unfolding fail
  fail-IsTable A m t v = set_error-IsTable _ t v

  pub grow-IsTable :
      (capacity : ℕ) (t : Table F)
      → length t.slots ≤ capacity
      → capacity ≤ max_handles
      → IsTable t
      → IsTable (grow capacity t)
  grow-IsTable capacity t h k v =
      let more = replicate (capacity - length t.slots) (empty_slot {F = F}) in
      let grown = length-append t.slots more in
      let room = length-replicate (capacity - length t.slots) (empty_slot {F = F}) in
      record {
        fits = omega (arith, grown, v.fits);
        capped = omega (arith, grown, room);
        unused =
            All-drop-append IsNone t.used t.slots more v.unused
              (All-replicate IsNone _ empty_slot refl);
        sound = All-append IsSound t.slots more v.sound (All-replicate IsSound _ empty_slot refl);
        defined = v.defined;
      }

  pub put_slot-IsTable :
      (slot : Slot F) (t : Table F)
      → IsSound slot
      → t.used < length t.slots
      → IsTable t
      → IsTable (put_slot slot t)
  unfolding put_slot
  put_slot-IsTable slot t s h v = record {
    fits = omega (arith, length-set_elem t.slots t.used slot);
    capped = omega (arith, length-set_elem t.slots t.used slot, v.capped);
    unused =
        rw (drop-set_elem (t.used + 1) t.slots t.used slot (omega arith))
          (rw (← drop-drop t.used 1 t.slots) (All-drop-one IsNone (drop t.used t.slots) v.unused));
    sound = All-set_elem IsSound t.slots t.used slot v.sound s;
    defined = v.defined;
  }

  -- A slot that is taken is one of the used ones.
  pub taken-used :
      (h : ℕ) (t : Table F) {slot : Slot F}
      → IsTable t
      → get_elem? t.slots h ≡ some slot
      → slot.kind ≢ dmc_none
      → h < t.used
  taken-used h t v e taken = elim (lt_or_le h t.used) [
    | inl below ↦ below
    | inr above ↦ absurd (taken (All-drop-get_elem? IsNone t.used t.slots h v.unused above e))
  ]

  pub with_slot-IsTable :
      (h : ℕ) (slot : Slot F) (t : Table F)
      → h < t.used
      → IsSound slot
      → IsTable t
      → IsTable (with_slot h slot t)
  with_slot-IsTable h slot t below s v = record {
    fits = omega (arith, length-set_elem t.slots h slot, v.fits);
    capped = omega (arith, length-set_elem t.slots h slot, v.capped);
    unused = rw (drop-set_elem t.used t.slots h slot below) v.unused;
    sound = All-set_elem IsSound t.slots h slot v.sound s;
    defined = v.defined;
  }

  -- What `dmc_get` and the rest of a call leave, if the rest is right on the slot of the handle.
  pub with_handle-leaves :
      {A : Type 0} (P : Option A × Table F → Type 0) (h : ℕ) (kind : Kind) (k : Slot F → Call F A)
      (t : Table F)
      → ((m : Bytes) → P (none, set_error m t))
      → ((slot : Slot F) → get_elem? t.slots h ≡ some slot → slot.kind ≡ kind → P (k slot t))
      → P (with_handle h kind k t)
  unfolding get fail
  with_handle-leaves P h kind k t bad good = elim (Option-cases (get_elem? t.slots h)) [
    | inl e ↦ rw e (bad (codes "invalid runtime handle"))
    | inr (slot, e) ↦ elim (Bool-cases (same_kind slot.kind kind)) [
      | inl same ↦ rw (e, same) (good slot e (same_kind_eq slot.kind kind same))
      | inr other ↦ rw (e, other) (bad (codes "invalid runtime handle"))
    ]
  ]

  pub release-IsTable : (h : ℕ) (t : Table F) → IsTable t → IsTable (release h t).1
  unfolding release fail
  release-IsTable h t v = elim (Option-cases (get_elem? t.slots h)) [
    | inl e ↦ rw e (set_error-IsTable (codes "invalid runtime handle") t v)
    | inr (slot, e) ↦ elim (Bool-cases (same_kind slot.kind dmc_none)) [
      | inl free ↦ rw (e, free) (set_error-IsTable (codes "invalid runtime handle") t v)
      | inr taken ↦
          rw (e, taken)
            (with_slot-IsTable h empty_slot t
              (taken-used h t v e (λ p. cc (kind_self slot.kind dmc_none p))) refl v)
    ]
  ]
