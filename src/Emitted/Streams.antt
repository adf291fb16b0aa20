-- ===== src/Emitted/Streams.antt =====
-- The files of the emitted C, `file_open` to `file_close` in `emit_runtime` of compiler/dmc.cpp. What stdio
-- does is a parameter.
use demonic_c.Base.{
  ℕ, ◌+◌, ◌-◌, ◌^◌, ◌<◌, ◌≡◌, refl, Bool, true, false, ◌||◌, List, [], ◌++◌, Option, none, some,
  if◌then◌else◌, ltb, leb, length, get_elem?, get_elem?-set_elem, set_elem, replicate, arith,
}
use demonic_c.Text.{Bytes}
use demonic_c.Runtime.Fs.{Stdio}
use demonic_c.Emitted.Handles.{Effect, returns, undefined, to_int, minus_one}
use demonic_c.Emitted.Memory.{Memory, ensure}
use demonic_c.Emitted.Sockets.{string_in}

-- The places of the buffers, which take handles of the same numbers, and `_dmc_files` with its
-- `_dmc_files_cap` pointers, where `none` is null.
record Files (F : Type 0) : Type 0 where
  memory : Memory
  streams : List (Option F)

module _ {F : Type 0} where
  -- `_dmc_files[h] = fopen(p, m); return _dmc_files[h] ? h : -1;` behind `_dmc_ensure`, which has put null
  -- pointers behind the others.
  abbrev opened_at : ℕ → Option F → ℕ
  opened_at h none = minus_one
  opened_at h (some f) = h

  abbrev open_behind : Option F → ℕ → List (Option F) → Bool × Memory → Effect (Files F) ℕ
  open_behind file h streams (false, m) =
      returns minus_one (record { memory = m; streams = streams })
  open_behind file h streams (true, m) =
      let padded = streams ++ replicate (m.file_slots - length streams) none in
      if ltb h (length padded)
      then returns (opened_at h file) (record { memory = m; streams = set_elem padded h file })
      else undefined

  -- `if (h < 0 || h >= _dmc_files_cap || !_dmc_files[h])`, with what is returned then.
  abbrev on_stream :
      {A : Type 0}
      → A
      → (F → Files F → Effect (Files F) A)
      → Option (Option F)
      → Files F
      → Effect (Files F) A
  on_stream otherwise k none t = returns otherwise t
  on_stream otherwise k (some none) t = returns otherwise t
  on_stream otherwise k (some (some f)) t = k f t

  unfoldable with_stream :
      {A : Type 0} → ℕ → A → (F → Files F → Effect (Files F) A) → Files F → Effect (Files F) A
  with_stream h otherwise k t =
      if leb (2 ^ 63) h
      then returns otherwise t
      else on_stream otherwise k (get_elem? t.streams h) t

  unfoldable put_stream : ℕ → Option F → Files F → Files F
  unfolding set_elem
  put_stream h f t = record t { streams = set_elem t.streams h f }

module _ {F : Type 0} (io : Stdio F) where
  -- A null pointer is `none`. `first` and `second` are of `_dmc_resize_mem`.
  unfoldable file_open :
      Bool → Bool → Bool → Option Bytes → Option Bytes → Files F → Effect (Files F) ℕ
  unfolding ensure set_elem
  file_open first second grown none mode t = returns minus_one t
  file_open first second grown (some path) none t = returns minus_one t
  file_open first second grown (some path) (some mode) t =
      let m = t.memory in
      if leb 2147483647 m.next || m.dangling
      then undefined
      else open_behind (io.fopen path mode) m.next t.streams
          (ensure first second grown m.next (record m { next = m.next + 1 }))

  -- With 65536 bytes for at most 65535 and a null byte. The result is the string that is there then.
  abbrev read_from : ℕ → Bytes × F → Files F → Effect (Files F) Bytes
  read_from h (got, f) t =
      if ltb 65535 (length got)
      then undefined
      else returns (if io.ferror f then [] else string_in got) (put_stream h (some f) t)

  unfoldable file_read : ℕ → Files F → Effect (Files F) Bytes
  unfolding with_stream put_stream string_in
  file_read h = with_stream h [] (λ f. read_from h (io.fread f 65535))

  abbrev written_to : ℕ → Option ℕ × F → Files F → Effect (Files F) ℕ
  written_to h (none, f) t = returns minus_one (put_stream h (some (io.fflush f).1) t)
  written_to h (some n, f) t = returns (to_int n) (put_stream h (some (io.fflush f).1) t)

  -- `print` is `fprintf` with "%s". Its failure is `none`, which as an `int` is -1 here.
  unfoldable file_write :
      (F → Bytes → Option ℕ × F) → ℕ → Option Bytes → Files F → Effect (Files F) ℕ
  unfolding with_stream put_stream
  file_write print h none t = returns minus_one t
  file_write print h (some s) t = with_stream h minus_one (λ f. written_to h (print f s)) t

  unfoldable file_close : ℕ → Files F → Effect (Files F) ℕ
  unfolding with_stream put_stream
  file_close h =
      with_stream h minus_one
        λ f t. returns (if io.fclose f then 0 else minus_one) (put_stream h none t)

  -- A file that has been closed is not closed again: where `h` has a stream, `file_close` leaves a table
  -- on which a second call of it returns -1 and changes nothing, whether `fclose` succeeded or not.
  file_close-file_close :
      (h : ℕ) (f : F) (t : Files F)
      → h < 2 ^ 63
      → h < length t.streams
      → get_elem? t.streams h ≡ some (some f)
      → (r : ℕ) × (t' : Files F) × (file_close h t ≡ returns r t')
        × (file_close h t' ≡ returns minus_one t')
  unfolding file_close
  file_close-file_close h f t positive inside e =
      let low : leb (2 ^ 63) h ≡ false = ground (arith, positive) in
      (
        if io.fclose f then 0 else minus_one,
        put_stream h none t,
        rw (low, e) refl,
        rw (low, get_elem?-set_elem t.streams h none inside) refl,
      )
