-- ===== src/Peephole.antt =====
-- `Parser::peephole` of compiler/dmc.cpp, the last pass over the generated C.
use demonic_c.Base.{
  ℕ, zero, suc, ◌≡◌, refl, true, false, ◌++◌, [], ◌∷◌, arith, length, drop, Bool-cases, inl, inr,
  ◌≤◌, length-drop_le,
}
use demonic_c.Text.{Bytes, codes, starts_with}

-- `result` is what the loop returns from the bytes from `i` on. A round passes over a byte at least,
-- so a unit of fuel for each byte is enough.
unfoldable pub peephole_from : ℕ → Bytes → Bytes
peephole_from zero s = []
peephole_from (suc f) [] = []
peephole_from (suc f) (c ∷ cs) = elim (starts_with (codes "(1) ?") (c ∷ cs)) [
  | true ↦ codes "(1) ?" ++ peephole_from f (drop 5 (c ∷ cs))
  | false ↦ c ∷ peephole_from f cs
]

unfoldable pub peephole : Bytes → Bytes
unfolding peephole_from
peephole s = peephole_from (length s) s

starts_with-split : (p s : Bytes) → starts_with p s ≡ true → p ++ drop (length p) s ≡ s
unfolding starts_with
starts_with-split [] s e = refl
starts_with-split (x ∷ p) [] e = cc
starts_with-split (x ∷ p) (y ∷ s) e = ground (arith, starts_with-split p s)

length-drop-5 :
    (c : ℕ) (cs : Bytes) (f : ℕ) → length (c ∷ cs) ≤ suc f → length (drop 5 (c ∷ cs)) ≤ f
length-drop-5 c cs f h = omega (arith, length-drop_le 4 cs)

peephole_from_lem : (f : ℕ) (s : Bytes) → length s ≤ f → peephole_from f s ≡ s
unfolding peephole_from
peephole_from_lem zero [] h = refl
peephole_from_lem zero (c ∷ cs) h = absurd (omega arith)
peephole_from_lem (suc f) [] h = refl
peephole_from_lem (suc f) (c ∷ cs) h = elim (Bool-cases (starts_with (codes "(1) ?") (c ∷ cs))) [
  | inl e ↦
      rw (peephole_from, e, peephole_from_lem f (drop 5 (c ∷ cs)) (length-drop-5 c cs f h))
        (starts_with-split (codes "(1) ?") (c ∷ cs) e)
  | inr e ↦ rw (peephole_from, e, peephole_from_lem f cs (omega arith)) refl
]

-- The pass changes no text.
pub peephole-id : (s : Bytes) → peephole s ≡ s
unfolding peephole
peephole-id s = peephole_from_lem (length s) s (omega arith)
