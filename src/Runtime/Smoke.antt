-- ===== src/Runtime/Smoke.antt =====
-- runtime/smoke/dmc_runtime_smoke.c: the program that tests the runtime.
use demonic_c.Base.{
  ℕ, zero, suc, ◌≡◌, ◌⊎◌, inl, inr, ap, Bool, true, false, ◌&&◌, [], ◌∷◌, Option, none, some,
  if◌then◌else◌, ◌==◌, Bool-cases,
}
use demonic_c.Text.{Bytes, codes, eqb}
use demonic_c.Runtime.Core.{Table}
use demonic_c.Runtime.Mem.{mem_alloc, mem_read, mem_write, mem_free}
use demonic_c.Runtime.Mem.Laws.{mem_free-none}
use demonic_c.Runtime.Fs.{Stdio, file_open, file_read, file_write, file_close}

-- A handle as a number: what has failed returns the largest of 64 bits.
abbrev pub handle_of : Option ℕ → ℕ
handle_of none = 18446744073709551615
handle_of (some h) = h

-- Whether a status is 0.
abbrev pub succeeded : {A : Type 0} → Option A → Bool
succeeded none = false
succeeded (some _) = true

abbrev pub is_byte : Option ℕ → ℕ → Bool
is_byte none n = false
is_byte (some b) n = b == n

-- The bytes of a buffer up to its first null.
unfoldable pub c_string : Bytes → Bytes
c_string [] = []
c_string (zero ∷ bs) = []
c_string (suc c ∷ bs) = suc c ∷ c_string bs

abbrev pub stored_is : Option Bytes → Bytes → Bool
stored_is none text = false
stored_is (some stored) text = eqb (c_string stored) text

abbrev pub smoke_file : Bytes
smoke_file = codes "/tmp/dmc-runtime-smoke.txt"

module _ {F : Type 0} (io : Stdio F) (allocated grown : Bool) where
  -- The file is opened again and read: the status at the end of the program.
  unfoldable pub smoke_read : Table F → ℕ
  unfolding file_open file_read file_close eqb c_string
  smoke_read t =
      let opened = file_open io grown (some smoke_file) (some (codes "r")) t in
      let file = handle_of opened.0 in
      let got = file_read io true file 32 opened.1 in
      if got.0.success
        && stored_is got.0.stored (codes "hellfire")
        && succeeded (file_close io file got.1).0
      then 0
      else 4

  unfoldable pub smoke_write : Table F → ℕ
  unfolding file_open file_write file_close smoke_read
  smoke_write t =
      let opened = file_open io grown (some smoke_file) (some (codes "w")) t in
      let file = handle_of opened.0 in
      let wrote = file_write io true file (codes "hellfire") opened.1 in
      let closed = file_close io file wrote.1 in
      if wrote.0.success && is_byte wrote.0.written 8 && succeeded closed.0
      then smoke_read closed.1
      else 3

  -- What the program returns.
  unfoldable pub smoke : Table F → ℕ
  unfolding mem_alloc mem_write mem_read mem_free smoke_write
  smoke t =
      let reserved = mem_alloc allocated grown 2 t in
      let memory = handle_of reserved.0 in
      let wrote = mem_write memory 0 65 reserved.1 in
      let got = mem_read true memory 0 wrote.1 in
      let freed = mem_free memory got.1 in
      if succeeded wrote.0 && is_byte got.0 65
      then (if succeeded freed.0 then smoke_write freed.1 else 2)
      else 1

  -- The test of the runtime fails on every run: it returns 2, for the -1 of `dmc_mem_free`, wherever it
  -- does not return 1 before, whatever the allocator and stdio do.
  pub smoke-fails : (t : Table F) → (smoke t ≡ 1) ⊎ (smoke t ≡ 2)
  unfolding smoke
  smoke-fails t =
      let reserved = mem_alloc allocated grown 2 t in
      let memory = handle_of reserved.0 in
      let wrote = mem_write memory 0 65 reserved.1 in
      let got = mem_read true memory 0 wrote.1 in
      let refused : succeeded (mem_free memory got.1).0 ≡ false =
        ap succeeded (mem_free-none memory got.1) in
      elim (Bool-cases (succeeded wrote.0 && is_byte got.0 65)) [
        | inl e ↦ inr (rw (e, refused))
        | inr e ↦ inl (rw e)
      ]
