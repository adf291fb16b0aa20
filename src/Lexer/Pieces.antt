-- ===== src/Lexer/Pieces.antt =====
-- One round of the main loop of `lex` in compiler/dmc.cpp, against the grammar.
use demonic_c.Base.{
  ℕ, ◌+◌, ◌≤◌, ◌≡◌, refl, sym, ap, subst, Bool, true, false, ◌&&◌, ◌||◌, [], ◌∷◌, ◌++◌, ◌==◌,
  ==_iff, if_intro, Bool-cases, inl, inr, false, &&-eq-true, arith, All,
}
use demonic_c.Text.{Bytes, isspace, isdigit, isalpha, front_is}
use demonic_c.Lexer.{
  is_word, is_pair, span, skip_comment, number_tail, StringEnd, scan_string, Piece, skip, token,
  unterminated, operator, string_piece, token_piece, next,
}
use demonic_c.Lexer.Grammar.{
  newlines, line_breaks, NoByte, Digits, IsFraction, point, IsSign, sign, IsExponent, power,
  IsTokenText, word, number, quoted, pair, symbol, space, comment, IsOpen, IsGapAt, IsTokenAt,
}
use demonic_c.Lexer.Cuts.{span-Cuts, IsNumberTail, number_tail-Cuts, skip_comment-Cuts}
use demonic_c.Lexer.Strings.{Closes, closes, stays_open, scan_string-Closes}

-- No byte that satisfies `P` is a newline, so such bytes leave the line number.
pub newlines-All :
    (P : ℕ → Bool) (cs : Bytes)
    → ((c : ℕ) → P c ≡ true → (c == b'\n') ≡ false)
    → All (λ c. P c ≡ true) cs
    → newlines cs ≡ 0
newlines-All P [] h a = refl
newlines-All P (c ∷ cs) h a = rw (h c a.0) (omega (arith, newlines-All P cs h a.1))

-- A backslash hides newlines, and adds none.
pub line_breaks-newlines : (s : Bytes) → line_breaks s ≤ newlines s
line_breaks-newlines [] = omega arith
line_breaks-newlines (c ∷ []) = omega arith
line_breaks-newlines (c ∷ d ∷ s) = elim (Bool-cases (c == b'\\')) [
  | inl e ↦ rw (e, line_breaks) (omega (arith, line_breaks-newlines s))
  | inr e ↦ rw (e, line_breaks) (omega (arith, line_breaks-newlines (d ∷ s)))
]

pub line_breaks-exact : (s : Bytes) → NoByte b'\\' s → line_breaks s ≡ newlines s
line_breaks-exact [] n = refl
line_breaks-exact (c ∷ []) n = omega arith
line_breaks-exact (c ∷ d ∷ s) n =
    rw (n.0, line_breaks) (omega (arith, line_breaks-exact (d ∷ s) n.1))

line_breaks-quoted : (s : Bytes) → line_breaks (b'"' ∷ s) ≡ line_breaks s
line_breaks-quoted [] = refl
line_breaks-quoted (d ∷ s) = omega arith

pub newlines-NoByte : (cs : Bytes) → NoByte b'\n' cs → newlines cs ≡ 0
newlines-NoByte [] h = refl
newlines-NoByte (c ∷ cs) h = rw h.0 (omega (arith, newlines-NoByte cs h.1))

pub word-no_newline : (c : ℕ) → is_word c ≡ true → (c == b'\n') ≡ false
word-no_newline c h = ground arith

pub newlines-append : (s t : Bytes) → newlines (s ++ t) ≡ newlines s + newlines t
newlines-append [] t = omega arith
newlines-append (c ∷ s) t = omega (arith, newlines-append s t)

pub digit-no_newline : (c : ℕ) → isdigit c ≡ true → (c == b'\n') ≡ false
digit-no_newline c h = ground arith

pub newlines-Digits : (ds : Bytes) → Digits ds → newlines ds ≡ 0
newlines-Digits ds = newlines-All isdigit ds digit-no_newline

pub newlines-IsFraction : {rest s : Bytes} → IsFraction rest s → newlines s ≡ 0
newlines-IsFraction (IsFraction.none _) = refl
newlines-IsFraction (point {p} {ds} e f d _) = ground (arith, newlines-Digits ds d)

pub newlines-IsExponent : {rest s : Bytes} → IsExponent rest s → newlines s ≡ 0
newlines-IsExponent (IsExponent.none _) = refl
newlines-IsExponent (power s ds e sg d _) =
    ground (arith, newlines-append s ds, newlines-IsSign sg, newlines-Digits ds d)
  where
    newlines-IsSign : {rest s : Bytes} → IsSign rest s → newlines s ≡ 0
    newlines-IsSign (IsSign.none _) = refl
    newlines-IsSign (sign e) = ground arith

pub newlines-IsNumberTail : {rest s : Bytes} → IsNumberTail rest s → newlines s ≡ 0
newlines-IsNumberTail (ds, fs, es, e, d, _, f, x) = rw e (
    omega (
      arith,
      newlines-append ds (fs ++ es),
      newlines-append fs es,
      newlines-Digits ds d,
      newlines-IsFraction f,
      newlines-IsExponent x,
    ))

-- A piece that `next` found at the front of `src`, on line `l`.
pub data IsPiece (l : ℕ) (src : Bytes) : Piece → Type 0 where
  skips : {l' : ℕ} {g rest : Bytes} → IsGapAt l l' src g rest → IsPiece l src (skip l' rest)
  tokens : {l' : ℕ} {t rest : Bytes} → IsTokenAt l l' src t rest → IsPiece l src (token t l' rest)
  fails :
      {l' : ℕ} {s : Bytes}
      → src ≡ b'"' ∷ s
      → IsOpen s
      → l' ≡ l + line_breaks s
      → IsPiece l src (unterminated l')

-- A token with no newline in it.
pub IsTokenAt-one_line :
    {l : ℕ} {src t rest : Bytes}
    → IsTokenText rest t
    → src ≡ t ++ rest
    → newlines t ≡ 0
    → IsPiece l src (token t l rest)
IsTokenAt-one_line {t = t} text whole e =
    tokens (record { text = text; whole = whole; exact = omega (arith, e, line_breaks-newlines t) })

pub string_piece-IsPiece :
    {l : ℕ} {cs : Bytes} {r : StringEnd} → Closes l cs r → IsPiece l (b'"' ∷ cs) (string_piece r)
string_piece-IsPiece (closes {t = t} text whole exact) = tokens (record {
  text = quoted text;
  whole = ap (◌∷◌ b'"') whole;
  exact = omega (arith, exact, line_breaks-quoted t);
})
string_piece-IsPiece (stays_open text exact) = fails refl text exact

pub operator-IsPiece :
    (l c : ℕ) (cs : Bytes)
    → (c == b'\n') ≡ false
    → (isspace c || isalpha c || c == b'_' || isdigit c || c == b'"') ≡ false
    → (c == b'/' && front_is b'/' cs) ≡ false
    → IsPiece l (c ∷ cs) (operator l c cs)
unfolding operator
operator-IsPiece l c [] n e no_comment = IsTokenAt-one_line (symbol e tt) refl (rw n)
operator-IsPiece l c (d ∷ cs) n e no_comment =
    if_intro (IsPiece l (c ∷ d ∷ cs)) (is_pair c d)
      (λ p. IsTokenAt-one_line (pair p) refl (ground arith))
      (λ p. IsTokenAt-one_line (symbol e (p, no_comment)) refl (rw n))

pub comment-IsPiece :
    (l c : ℕ) (cs : Bytes)
    → c == b'/' && front_is b'/' cs ≡ true
    → IsPiece l (c ∷ cs) (skip l (skip_comment (c ∷ cs)))
unfolding skip_comment
comment-IsPiece l c [] e = ground arith
comment-IsPiece l c (d ∷ cs) e =
    let (c_slash, d_slash) = &&-eq-true (c == b'/') (d == b'/') e in
    let (body, whole, no_newline, ends) = skip_comment-Cuts cs in
    rw ((==_iff c b'/').0 c_slash, (==_iff d b'/').0 d_slash)
      (skips (record {
        text = comment no_newline ends;
        whole = ap (λ r. b'/' ∷ b'/' ∷ r) whole;
        exact = omega (arith, newlines-NoByte body no_newline);
      }))

module _ (l c : ℕ) (cs : Bytes) (not_newline : (c == b'\n') ≡ false) where
  pub word-IsPiece :
      (isalpha c || c == b'_') ≡ true → IsPiece l (c ∷ cs) (token_piece l c (span is_word cs))
  word-IsPiece e =
      let cut = span-Cuts is_word cs in
      IsTokenAt-one_line (word e cut.part.0 cut.part.1) (ap (◌∷◌ c) cut.whole)
        (rw not_newline (omega (arith, newlines-All is_word _ word-no_newline cut.part.0)))

  pub number-IsPiece : isdigit c ≡ true → IsPiece l (c ∷ cs) (token_piece l c (number_tail cs))
  number-IsPiece e =
      let cut = number_tail-Cuts cs in
      let (ds, fs, es, whole, d, stop, f, x) = cut.part in
      IsTokenAt-one_line
        (subst (λ t. IsTokenText (number_tail cs).1 (c ∷ t)) (sym whole)
          (number ds fs es e d stop f x))
        (ap (◌∷◌ c) cut.whole) (rw not_newline (omega (arith, newlines-IsNumberTail cut.part)))

  pub string-IsPiece : (c == b'"') ≡ true → IsPiece l (c ∷ cs) (string_piece (scan_string cs l))
  string-IsPiece e = rw ((==_iff c b'"').0 e) (string_piece-IsPiece (scan_string-Closes cs l))

pub space-IsPiece :
    (l c : ℕ) (cs : Bytes)
    → (c == b'\n') ≡ false
    → isspace c ≡ true
    → IsPiece l (c ∷ cs) (skip l cs)
space-IsPiece l c cs n e =
    skips (record { text = space e; whole = refl; exact = rw n (omega arith) })

pub newline-IsPiece :
    (l c : ℕ) (cs : Bytes) → (c == b'\n') ≡ true → IsPiece l (c ∷ cs) (skip (l + 1) cs)
newline-IsPiece l c cs e =
    skips (record { text = space (ground arith); whole = refl; exact = rw e })

pub next-IsPiece : (l c : ℕ) (cs : Bytes) → IsPiece l (c ∷ cs) (next l c cs)
unfolding next
next-IsPiece l c cs =
    let P = IsPiece l (c ∷ cs) in
    if_intro P _ (newline-IsPiece l c cs) λ n. if_intro P _ (space-IsPiece l c cs n) λ s.
      if_intro P _ (comment-IsPiece l c cs) λ m. if_intro P _ (word-IsPiece l c cs n) λ w.
        if_intro P _ (number-IsPiece l c cs n) λ d.
          if_intro P _ (string-IsPiece l c cs n) λ q. operator-IsPiece l c cs n (ground arith) m
