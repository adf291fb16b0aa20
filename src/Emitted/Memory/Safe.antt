-- ===== src/Emitted/Memory/Safe.antt =====
-- The buffers of the emitted C stay valid under the calls of a program.
use demonic_c.Base.{ℕ, ◌≡◌, Bool, true, false, List, [], ◌∷◌, Option, none, some, length, get_elem?}
use demonic_c.Text.{Bytes}
use demonic_c.Emitted.Handles.{Effect, returns, undefined}
use demonic_c.Emitted.Memory.{
  Pointer, mapped, Buffer, Memory, Call, mem_alloc, mem_free, mem_size, mem_write, mem_read,
  mem_map, mem_unmap,
}

-- Whether a place points to memory that the program mapped.
abbrev of_program : Pointer → Bool
of_program (mapped bytes) = true
of_program _ = false

abbrev maps_at : Option Buffer → Bool
maps_at none = false
maps_at (some b) = of_program b.pointer

-- A call, with what the allocator does: `calloc`, the two calls of `realloc` for the buffers, and the one
-- for the files.
pub data Request : Type 0 where
  alloc : Bool → Bool → Bool → Bool → ℕ → Request
  map : Bool → Bool → Bool → Bytes → ℕ → Request
  free : ℕ → Request
  size_of : ℕ → Request
  write : ℕ → ℕ → ℕ → Request
  read : ℕ → ℕ → Request
  unmap : ℕ → Request

unfoldable pub request : Request → Call
unfolding mem_alloc mem_map mem_free mem_size mem_write mem_read mem_unmap
request (alloc zeros first second files_grown n) = mem_alloc zeros first second files_grown n
request (map first second files_grown bytes n) = mem_map first second files_grown bytes n
request (free h) = mem_free h
request (size_of h) = mem_size h
request (write h i v) = mem_write h i v
request (read h i) = mem_read h i
request (unmap h) = mem_unmap h

-- The memory behind these calls; `none` is undefined behaviour.
abbrev pub behind : (Memory → Option Memory) → Effect Memory ℕ → Option Memory
behind k (returns r t) = k t
behind k undefined = none

unfoldable pub after_requests : List Request → Memory → Option Memory
unfolding request
after_requests [] t = some t
after_requests (q ∷ qs) t = behind (after_requests qs) (request q t)

-- What a call asks of the allocator and of the program: the two calls of `realloc` succeed or fail
-- together, the size of a mapping is that of the memory there, and no mapping is given to `mem_free`.
abbrev pub Allowed : Request → Memory → Type 0
Allowed (alloc zeros first second files_grown n) t = first ≡ second
Allowed (map first second files_grown bytes n) t = (first ≡ second) × (length bytes ≡ n)
Allowed (free h) t = maps_at (get_elem? t.buffers h) ≡ false
Allowed _ t = Unit

abbrev pub Behind : (Memory → Type 0) → Effect Memory ℕ → Type 0
Behind P (returns r t) = P t
Behind P undefined = Unit

-- Calls of which each asks that of the memory it finds.
abbrev pub Proper : List Request → Memory → Type 0
Proper [] t = Unit
Proper (q ∷ qs) t = Allowed q t × Behind (Proper qs) (request q t)
