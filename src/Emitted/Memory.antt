-- ===== src/Emitted/Memory.antt =====
-- The buffers of the emitted C, `_dmc_resize_mem` to `mem_unmap` in `emit_runtime` of compiler/dmc.cpp.
pub mod Valid
pub mod Safe
use demonic_c.Base.{
  ℕ, ◌+◌, ◌-◌, ◌*◌, ◌^◌, ◌%◌, Bool, true, false, not, ◌||◌, ◌&&◌, List, [], ◌∷◌, ◌++◌, Option, none,
  some, if◌then◌else◌, ltb, leb, ◌==◌, length, get_elem?, set_elem, replicate,
}
use demonic_c.Text.{Bytes}
use demonic_c.Emitted.Handles.{Effect, returns, undefined, to_int, minus_one}

-- What a pointer of `_dmc_mem` points to: nothing, bytes of `calloc`, bytes that the program mapped, or
-- the `regex_t` of a pattern, which `regex_new` gives the size 0.
pub data Pointer : Type 0 where
  null : Pointer
  allocated : Bytes → Pointer
  mapped : Bytes → Pointer
  compiled : Bytes → Pointer

-- `_dmc_mem[h]` and `_dmc_mem_sz[h]`.
pub record Buffer : Type 0 where
  pub pointer : Pointer
  pub size : ℕ

-- The two arrays of `_dmc_mem_cap` places, `_dmc_files_cap`, and `_dmc_next`. `dangling` tells that one of
-- the arrays has been freed and is still pointed to.
pub record Memory : Type 0 where
  pub buffers : List Buffer
  pub file_slots : ℕ
  pub next : ℕ
  pub dangling : Bool

abbrev pub no_memory : Memory
no_memory = record { buffers = []; file_slots = 0; next = 1; dangling = false }

abbrev pub no_buffer : Buffer
no_buffer = record { pointer = null; size = 0 }

abbrev pub Call : Type 0
Call = Memory → Effect Memory ℕ

-- `new_cap`.
abbrev pub new_cap : ℕ → ℕ → ℕ
new_cap cap need =
    let doubled = if cap == 0 then 128 else cap * 2 in if ltb doubled need then need else doubled

-- What `_dmc_resize_mem` does: it returns 0 with the places, or -1, and then with an array freed or not.
pub data Resize : Type 0 where
  fits : List Buffer → Resize
  fails : Resize
  dangles : Resize

-- `first` and `second` tell whether the calls of `realloc` succeed. One that does has freed its old
-- array, if there was one, and the pointer to it is kept where the other fails.
unfoldable pub resize_mem : Bool → Bool → ℕ → List Buffer → Resize
resize_mem first second need buffers =
    if leb need (length buffers)
    then fits buffers
    else if first && second
    then fits (buffers ++ replicate (new_cap (length buffers) need - length buffers) no_buffer)
    else if (first || second) && not (length buffers == 0)
    then dangles
    else fails

-- `_dmc_resize_files`, of which only the number of places is kept.
unfoldable pub resize_files : Bool → ℕ → ℕ → Option ℕ
resize_files grown need slots =
    if leb need slots then some slots else if grown then some (new_cap slots need) else none

-- `_dmc_ensure(h)`, and whether it returns 0.
abbrev pub with_files : Memory → Option ℕ → Bool × Memory
with_files t none = (false, t)
with_files t (some slots) = (true, record t { file_slots = slots })

abbrev pub with_buffers : Bool → ℕ → Memory → Resize → Bool × Memory
with_buffers files_grown h t fails = (false, t)
with_buffers files_grown h t dangles = (false, record t { dangling = true })
with_buffers files_grown h t (fits buffers) =
    with_files (record t { buffers = buffers }) (resize_files files_grown (h + 1) t.file_slots)

unfoldable pub ensure : Bool → Bool → Bool → ℕ → Memory → Bool × Memory
unfolding resize_mem resize_files
ensure first second files_grown h t =
    with_buffers files_grown h t (resize_mem first second (h + 1) t.buffers)

-- `_dmc_mem[h] = …; _dmc_mem_sz[h] = …; return h;` behind `_dmc_ensure`.
abbrev pub give : Buffer → ℕ → Bool × Memory → Effect Memory ℕ
give b h (false, t) = returns minus_one t
give b h (true, t) =
    if ltb h (length t.buffers)
    then returns h (record t { buffers = set_elem t.buffers h b })
    else undefined

-- The number of the next handle is an `int`. Behind a failure that left an array dangling every handle
-- is behind the places, so that the next `realloc` is of the freed array.
unfoldable pub take_handle : Bool → Bool → Bool → Buffer → Call
unfolding ensure set_elem
take_handle first second files_grown b t =
    if leb 2147483647 t.next || t.dangling
    then undefined
    else give b t.next (ensure first second files_grown t.next (record t { next = t.next + 1 }))

abbrev pub is_negative : ℕ → Bool
is_negative n = leb (2 ^ 63) n

-- `zeros` tells whether `calloc` succeeds. Nothing looks at its result.
unfoldable pub mem_alloc : Bool → Bool → Bool → Bool → ℕ → Call
unfolding take_handle
mem_alloc zeros first second files_grown n t =
    if is_negative n || n == 0 || ltb 1073741824 n
    then returns minus_one t
    else take_handle first second files_grown
        (record { pointer = if zeros then allocated (replicate n 0) else null; size = n }) t

-- `if (h < 0 || h >= _dmc_mem_cap) return -1;`, and the place.
abbrev pub on_place : (Buffer → Call) → Option Buffer → Call
on_place k none t = returns minus_one t
on_place k (some b) t = if t.dangling then undefined else k b t

unfoldable pub with_place : ℕ → (Buffer → Call) → Call
with_place h k t =
    if is_negative h then returns minus_one t else on_place k (get_elem? t.buffers h) t

unfoldable pub put_buffer : ℕ → Buffer → Memory → Memory
unfolding set_elem
put_buffer h b t = record t { buffers = set_elem t.buffers h b }

-- `free` of bytes that are not of `calloc` is undefined.
abbrev pub free_pointer : ℕ → Pointer → Call
free_pointer h null t = returns minus_one t
free_pointer h (allocated bytes) t = returns 0 (put_buffer h no_buffer t)
free_pointer h (mapped bytes) t = undefined
free_pointer h (compiled pattern) t = returns 0 (put_buffer h no_buffer t)

unfoldable pub mem_free : ℕ → Call
unfolding with_place put_buffer
mem_free h = with_place h (λ b. free_pointer h b.pointer)

unfoldable pub mem_size : ℕ → Call
unfolding with_place
mem_size h = with_place h (λ b. returns (to_int b.size))

-- The guard of a read or a write, with the bytes.
abbrev pub on_pointer : (Bytes → Call) → Pointer → Call
on_pointer k null t = returns minus_one t
on_pointer k (allocated bytes) t = k bytes t
on_pointer k (mapped bytes) t = k bytes t
on_pointer k (compiled pattern) t = k [] t

unfoldable pub with_bytes : ℕ → ℕ → (Buffer → Bytes → Call) → Call
unfolding with_place
with_bytes h i k = with_place h λ b.
    on_pointer
      (λ bytes t. if is_negative i || leb b.size i then returns minus_one t else k b bytes t)
      b.pointer

abbrev pub rewritten : Bytes → Pointer → Pointer
rewritten bytes null = null
rewritten bytes (allocated old) = allocated bytes
rewritten bytes (mapped old) = mapped bytes
rewritten bytes (compiled pattern) = compiled pattern

-- A byte behind the allocation is undefined.
unfoldable pub mem_write : ℕ → ℕ → ℕ → Call
unfolding with_bytes put_buffer set_elem
mem_write h i v = with_bytes h i λ b bytes t.
    if ltb i (length bytes)
    then returns 0
        (put_buffer h (record b { pointer = rewritten (set_elem bytes i (v % 256)) b.pointer }) t)
    else undefined

abbrev pub byte_or_undefined : Option ℕ → Call
byte_or_undefined none t = undefined
byte_or_undefined (some byte) t = returns byte t

unfoldable pub mem_read : ℕ → ℕ → Call
unfolding with_bytes
mem_read h i = with_bytes h i (λ b bytes. byte_or_undefined (get_elem? bytes i))

-- `bytes` is what is at the address.
unfoldable pub mem_map : Bool → Bool → Bool → Bytes → ℕ → Call
unfolding take_handle
mem_map first second files_grown bytes size =
    take_handle first second files_grown (record { pointer = mapped bytes; size = size })

unfoldable pub mem_unmap : ℕ → Call
unfolding with_place put_buffer
mem_unmap h = with_place h (λ b t. returns 0 (put_buffer h no_buffer t))
