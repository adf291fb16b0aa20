-- ===== src/Emitted/Sockets/Bounds.antt =====
-- `tcp_recv` of the emitted C against the 65536 bytes of its buffer.
use demonic_c.Base.{
  ℕ, ◌+◌, ◌-◌, ◌^◌, ◌≤◌, ◌<◌, ◌≡◌, refl, true, false, [], ◌∷◌, ◌++◌, Option, none, some, leb, ◌==◌,
  length, drop, arith, suc, length-append, if_intro, length-drop,
}
use demonic_c.Text.{Bytes}
use demonic_c.Emitted.Handles.{returns, undefined, to_int}
use demonic_c.Emitted.Sockets.{
  Network, Received, size_of_int, at_most, string_in, stored_in, tcp_recv,
}

-- The size that `recv` is given: up to 2^63, at most the room for the bytes before the null byte.
size-small : (max : ℕ) → max < 2 ^ 63 → size_of_int (to_int (at_most max)) ≤ 65535
size-small max h = ground (arith, h)

-- Of a negative number of 32 bits it is the number of 64 bits.
size-negative :
    (max : ℕ) → 2 ^ 64 - 2 ^ 31 ≤ max → max < 2 ^ 64 → size_of_int (to_int (at_most max)) ≡ max
size-negative max h k = ground (arith, h, k)

size-le : (max : ℕ) → max < 2 ^ 63 → size_of_int (to_int (at_most max)) ≤ max
size-le max h = ground (arith, h)

string_in-short : (bytes rest : Bytes) → length (string_in (bytes ++ (0 ∷ rest))) ≤ length bytes
unfolding string_in
string_in-short [] rest = omega arith
string_in-short (c ∷ cs) rest =
    if_intro (λ (u : Bytes). length u ≤ suc (length cs)) (c == 0) (λ _. omega arith)
      (λ _. omega (arith, string_in-short cs rest))

module _ {A W : Type 0} (net : Network A W) where
  -- What a call that has received at most that many bytes leaves.
  record IsStored (size : ℕ) (text : Bytes) (t : Received W) : Type 0 where
    pub short : length text ≤ size
    pub whole : length t.b ≡ 65536

  stored_in-IsStored :
      (size : ℕ) (b : Bytes) (r : Option Bytes × W)
      → size ≤ 65535
      → length b ≡ 65536
      → ((bytes : Bytes) → r.0 ≡ some bytes → length bytes ≤ size)
      → (text : Bytes) × (t : Received W) × (stored_in net b r ≡ returns text t)
        × IsStored size text t
  unfolding string_in
  stored_in-IsStored size b (none, w) low whole few =
      let same : length (drop 1 b) ≡ length b - 1 = length-drop 1 b in
      (
        [],
        record { b = 0 ∷ drop 1 b; world = w },
        refl,
        record { short = omega arith; whole = omega (arith, same, whole) },
      )
  stored_in-IsStored size b (some bytes, w) low whole few =
      let some_few : length bytes ≤ size = few bytes refl in
      let inside : leb 65536 (length bytes) ≡ false = ground (arith, some_few, low) in
      let left : length (drop (length bytes + 1) b) ≡ length b - (length bytes + 1) =
        length-drop (length bytes + 1) b in
      let all : length (bytes ++ (0 ∷ drop (length bytes + 1) b))
          ≡ length bytes + suc (length (drop (length bytes + 1) b)) =
        length-append bytes (0 ∷ drop (length bytes + 1) b) in
      (
        string_in (bytes ++ (0 ∷ drop (length bytes + 1) b)),
        record { b = bytes ++ (0 ∷ drop (length bytes + 1) b); world = w },
        rw inside refl,
        record {
          short = omega (arith, string_in-short bytes (drop (length bytes + 1) b), some_few);
          whole = omega (arith, all, left, whole, some_few, low);
        },
      )

  -- Where `recv` gives no more bytes than it is asked for, `tcp_recv` of a `max` that is not negative
  -- returns a text of at most `max` and at most 65535 bytes, and its buffer keeps its size.
  tcp_recv-bounded :
      (s max : ℕ) (t : Received W)
      → ((s n : ℕ) (w : W) (bytes : Bytes) → (net.recv s n w).0 ≡ some bytes → length bytes ≤ n)
      → max < 2 ^ 63
      → length t.b ≡ 65536
      → (text : Bytes) × (t' : Received W) × (tcp_recv net s max t ≡ returns text t')
        × (length text ≤ max)
        × (length text ≤ 65535)
        × (length t'.b ≡ 65536)
  unfolding tcp_recv
  tcp_recv-bounded s max t law positive whole =
      let size = size_of_int (to_int (at_most max)) in
      let (text, t', returned, is) =
        stored_in-IsStored size t.b (net.recv (to_int s) size t.world) (size-small max positive)
          whole (law (to_int s) size t.world) in
      (
        text,
        t',
        returned,
        omega (arith, is.short, size-le max positive),
        omega (arith, is.short, size-small max positive),
        is.whole,
      )

  -- On a `max` from -2^31 to -1, `tcp_recv` asks for 2^64 + `max` bytes. If `recv` gives 65536 or more of
  -- them, which is more than the buffer holds, the behaviour is undefined.
  pub tcp_recv-overflows :
      (s max : ℕ) (t : Received W) (bytes : Bytes) (w : W)
      → 2 ^ 64 - 2 ^ 31 ≤ max
      → max < 2 ^ 64
      → net.recv (to_int s) max t.world ≡ (some bytes, w)
      → 65536 ≤ length bytes
      → tcp_recv net s max t ≡ undefined
  unfolding tcp_recv
  tcp_recv-overflows s max t bytes w negative word received long =
      let over : leb 65536 (length bytes) ≡ true = ground (arith, long) in
      rw (size-negative max negative word, received, over) refl
