-- ===== src/Emitted/Text/Sub.antt =====
-- What `text_sub` of the emitted C returns.
use demonic_c.Base.{
  ℕ, ◌+◌, ◌-◌, ◌^◌, ◌<◌, ◌≡◌, inl, inr, sym, ap, ◌∙◌, false, [], ltb, leb, length, take, drop,
  take_all, drop_all, length-drop, arith, Bool-cases,
}
use demonic_c.Text.{Bytes}
use demonic_c.Emitted.Handles.{returns}
use demonic_c.Emitted.Text.{of_bytes, in_sub, Buffers, is_negative, clipped, sub_from, text_sub}

take-clipped :
    (s : Bytes) (start len : ℕ)
    → start < length s
    → take (clipped start len (length s)) (drop start s) ≡ take len (drop start s)
take-clipped s start len inside = elim (Bool-cases (ltb (length s) (start + len))) [
  | inl e ↦
      let size : length (drop start s) ≡ length s - start = length-drop start s in
      rw e (
        take_all (drop start s) (length s - start) (omega (arith, size))
        ∙ sym (take_all (drop start s) len (ground (arith, e, size))))
  | inr e ↦ rw e
]

-- `text_sub` returns the bytes of a string in no buffer from `start` on, `len` of them or as many as
-- there are, where `start` is not negative and less than 2^62, and `len` not negative and less than
-- 65536.
pub text_sub-take :
    (s : Bytes) (start len : ℕ) (t : Buffers)
    → start < 2 ^ 62
    → len < 65536
    → text_sub (of_bytes s) start len t
      ≡ returns in_sub (record t { sub = take len (drop start s) })
unfolding text_sub sub_from
text_sub-take s start len t near short =
    let p1 : is_negative start ≡ false = ground (arith, near) in
    let p2 : is_negative len ≡ false = ground (arith, short) in
    let p3 : is_negative (start + len) ≡ false = ground (arith, near, short) in
    elim (Bool-cases (leb (length s) start)) [
      | inl e ↦
          let none_left : drop start s ≡ [] = drop_all s start (ground (arith, e)) in
          rw (p1, e, none_left)
            (ap (λ u. returns in_sub (record t { sub = u })) (sym (take_all [] len (omega arith))))
      | inr e ↦
          let inside : start < length s = ground (arith, e) in
          let small : leb 65536 (clipped start len (length s)) ≡ false =
            ground (arith, short, inside) in
          rw (p1, e, p2, p3, small)
            (ap (λ u. returns in_sub (record t { sub = u })) (take-clipped s start len inside))
    ]
