-- ===== src/Format/Lines.antt =====
-- `std::getline` of text that was written line by line, and the blanks in front of lines.
use demonic_c.Base.{
  ℕ, zero, suc, ◌≡◌, refl, ap, ◌∙◌, false, List, [], ◌∷◌, ◌++◌, ◌==◌, if_intro, Bool-cases, inl,
  inr, replicate, All,
}
use demonic_c.Text.{Bytes}
use demonic_c.Format.{cons_first, lines, is_blank, trim}

abbrev pub NoNewline : Bytes → Type 0
NoNewline = All (λ c. (c == b'\n') ≡ false)

-- Each line with its newline.
abbrev pub unlines : List Bytes → Bytes
unlines [] = []
unlines (l ∷ ls) = l ++ b'\n' ∷ unlines ls

cons_first-NoNewline :
    (c : ℕ) (ls : List Bytes)
    → (c == b'\n') ≡ false
    → All NoNewline ls
    → All NoNewline (cons_first c ls)
cons_first-NoNewline c [] h a = ((h, tt), tt)
cons_first-NoNewline c (l ∷ ls) h a = ((h, a.0), a.1)

pub lines-NoNewline : (s : Bytes) → All NoNewline (lines s)
unfolding lines
lines-NoNewline [] = tt
lines-NoNewline (c ∷ cs) =
    if_intro (All NoNewline) (c == b'\n') (λ e. (tt, lines-NoNewline cs))
      (λ e. cons_first-NoNewline c (lines cs) e (lines-NoNewline cs))

lines-line : (l rest : Bytes) → NoNewline l → lines (l ++ b'\n' ∷ rest) ≡ l ∷ lines rest
unfolding lines
lines-line [] rest h = refl
lines-line (c ∷ l) rest h = rw h.0 (ap (cons_first c) (lines-line l rest h.1))

pub lines-unlines : (ls : List Bytes) → All NoNewline ls → lines (unlines ls) ≡ ls
unfolding lines
lines-unlines [] h = refl
lines-unlines (l ∷ ls) h = lines-line l (unlines ls) h.0 ∙ ap (◌∷◌ l) (lines-unlines ls h.1)

pub trim-NoNewline : (l : Bytes) → NoNewline l → NoNewline (trim l)
unfolding trim
trim-NoNewline [] h = tt
trim-NoNewline (c ∷ l) h = if_intro NoNewline (is_blank c) (λ e. trim-NoNewline l h.1) (λ e. h)

pub spaces-NoNewline : (n : ℕ) (l : Bytes) → NoNewline l → NoNewline (replicate n b' ' ++ l)
spaces-NoNewline zero l h = h
spaces-NoNewline (suc n) l h = (refl, spaces-NoNewline n l h)

trim-trim : (l : Bytes) → trim (trim l) ≡ trim l
unfolding trim
trim-trim [] = refl
trim-trim (c ∷ l) = elim (Bool-cases (is_blank c)) [
  | inl e ↦ rw e (trim-trim l)
  | inr e ↦ rw e (rw e)
]

-- Spaces in front of a trimmed line are what `trim` takes off.
pub trim-spaces : (n : ℕ) (l : Bytes) → trim (replicate n b' ' ++ trim l) ≡ trim l
unfolding trim
trim-spaces zero l = trim-trim l
trim-spaces (suc n) l = trim-spaces n l
