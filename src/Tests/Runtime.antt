-- ===== src/Tests/Runtime.antt =====
-- The theorems on the runtime at small tables and buffers.
use demonic_c.Base.{
  ℕ, ◌≡◌, refl, inr, arith, true, false, List, [], ◌∷◌, none, some, length, take, drop,
}
use demonic_c.Text.{Bytes, codes}
use demonic_c.Runtime.Core.{Table, no_handles, empty_slot, set_error, with_slot}
use demonic_c.Runtime.Core.Valid.{IsTable}
use demonic_c.Runtime.Mem.{mem_alloc, mem_read, mem_write, mem_free}
use demonic_c.Runtime.Mem.Laws.{mem_read-mem_write, mem_read-mem_write_other, mem_free-fails}
use demonic_c.Runtime.Mem.Alloc.{mem_alloc-zeros}
use demonic_c.Runtime.Fs.{Stdio, file_open, file_read}
use demonic_c.Runtime.Net.{Sockets}
use demonic_c.Runtime.Fs.Bounds.{stored_length}
use demonic_c.Runtime.Calls.{
  Request, alloc, write, open_file, read_file, after_calls, after_calls-IsTable,
}
use demonic_c.Runtime.Smoke.{smoke}

-- Streams that are what is left to read; a new one is over a file that holds `hello`.
abbrev memory_files : Stdio Bytes
memory_files = record {
  fopen = λ path mode. some (codes "hello");
  fread = λ f n. (take n f, drop n f);
  ferror = λ f. false;
  fwrite = λ f b. (length b, f);
  fflush = λ f. (true, f);
  fclose = λ f. true;
}

abbrev no_sockets : Sockets
no_sockets = record {
  lookup = λ host port. false;
  connect = λ host port. none;
  send = λ fd b. none;
  recv = λ fd n. none;
  close = λ fd. true;
}

-- A buffer of two bytes, and a file of which three bytes are read.
abbrev session : List Request
session =
    alloc true true 2
    ∷ write 0 1 65
    ∷ open_file true (some (codes "f")) (some (codes "r"))
    ∷ read_file true 1 4
    ∷ []

abbrev behind_session : Table Bytes
behind_session = after_calls memory_files no_sockets session no_handles

session-read : (mem_read true 0 1 behind_session).0 ≡ some 65
unfolding after_calls mem_read file_read file_open mem_write mem_alloc
session-read = refl

abbrev behind_alloc : Table Bytes
behind_alloc = (mem_alloc true true 2 no_handles).1

behind_alloc-IsTable : IsTable behind_alloc
unfolding after_calls
behind_alloc-IsTable = after_calls-IsTable memory_files no_sockets (alloc true true 2 ∷ [])

abbrev behind_write : Table Bytes
behind_write = (mem_write 0 1 65 behind_alloc).1

mem_read-mem_write_example : mem_read true 0 1 behind_write ≡ (some 65, behind_write)
unfolding mem_alloc mem_write
mem_read-mem_write_example =
    mem_read-mem_write 0 1 65 behind_alloc behind_write behind_alloc-IsTable refl

mem_read-mem_write_other_example :
    (mem_read true 0 0 behind_write).0 ≡ (mem_read true 0 0 behind_alloc).0
unfolding mem_alloc mem_write
mem_read-mem_write_other_example =
    mem_read-mem_write_other 0 1 65 0 0 behind_alloc behind_write refl (inr (refl, λ e. cc e))

no_handles-IsTable : IsTable (no_handles {F = Bytes})
unfolding after_calls
no_handles-IsTable = after_calls-IsTable memory_files no_sockets []

mem_alloc-zeros_example :
    (0 ≡ (no_handles {F = Bytes}).used) × (mem_read true 0 1 behind_alloc ≡ (some 0, behind_alloc))
unfolding mem_alloc
mem_alloc-zeros_example =
    mem_alloc-zeros true true 2 no_handles 0 behind_alloc 1 no_handles-IsTable refl (omega arith)

mem_free-fails_example :
    (mem_free 0 behind_alloc
      ≡ (none, set_error (codes "invalid runtime handle") (with_slot 0 empty_slot behind_alloc)))
    × ((i : ℕ) → (mem_read true 0 i (mem_free 0 behind_alloc).1).0 ≡ none)
unfolding mem_alloc
mem_free-fails_example = mem_free-fails 0 behind_alloc (record { there = refl; kind = refl })

file_read-session : stored_length (file_read memory_files true 1 4 behind_session).0.stored ≡ 3
unfolding after_calls file_read file_open mem_write mem_alloc
file_read-session = refl

smoke-no_handles : smoke memory_files true true no_handles ≡ 2
unfolding smoke
smoke-no_handles = refl
