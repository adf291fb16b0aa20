-- ===== src/Lexer/Total.antt =====
-- How `lex` of compiler/dmc.cpp can end.
use demonic_c.Base.{
  ℕ, zero, suc, ◌≤◌, ◌<◌, ◌≡◌, ◌⊎◌, inl, inr, refl, ap, List, [], ◌∷◌, ◌++◌, arith, length,
  length-append,
}
use demonic_c.Text.{Bytes}
use demonic_c.Result.{Result, ok, throws, map_ok}
use demonic_c.Lexer.{Token, Piece, after_piece, unterminated_string, eof, lex_from, lex}
use demonic_c.Lexer.Grammar.{
  Lexes, stop, gap, tok, LeavesOpen, opens, IsTokenText, IsTokenAt, word, IsGap, IsGapAt, space,
  comment,
}
use demonic_c.Lexer.Pieces.{IsPiece, skips, tokens, fails, next-IsPiece}

IsGap-nonempty : {rest g : Bytes} → IsGap rest g → 0 < length g
IsGap-nonempty (space e) = omega arith
IsGap-nonempty (comment h e) = omega arith

pub IsTokenText-nonempty : {rest t : Bytes} → IsTokenText rest t → 0 < length t
IsTokenText-nonempty (word e h s) = omega arith
IsTokenText-nonempty _ = omega arith

split-shorter : {n : ℕ} (s a b : Bytes) → s ≡ a ++ b → 0 < length a → length s ≤ n → length b < n
split-shorter s a b e h k = let size = ap length e in omega (arith, size, length-append a b)

-- A run that returned tokens, or that threw, on a source that reads so.
abbrev Ends : ℕ → Bytes → Result (List Token) → Type 0
Ends l src r =
    ((ts : List Token) × (r ≡ ok ts) × Lexes l src ts)
    ⊎ ((e : ℕ) × (r ≡ throws (unterminated_string e)) × LeavesOpen l src e)

Ends-gap :
    {l l' : ℕ} {src g rest : Bytes} {r : Result (List Token)}
    → IsGapAt l l' src g rest
    → Ends l' rest r
    → Ends l src r
Ends-gap at_gap (inl (ts, e, lexes)) = inl (ts, e, gap at_gap lexes)
Ends-gap at_gap (inr (n, e, leaves)) = inr (n, e, LeavesOpen.gap at_gap leaves)

Ends-tok :
    {l l' : ℕ} {src t rest : Bytes} {r : Result (List Token)}
    → IsTokenAt l l' src t rest
    → Ends l' rest r
    → Ends l src (map_ok (◌∷◌ (record { text = t; line = l' })) r)
Ends-tok {l' = l'} {t = t} at_token (inl (ts, e, lexes)) =
    inl (record { text = t; line = l' } ∷ ts, rw e, tok at_token lexes)
Ends-tok at_token (inr (n, e, leaves)) = inr (n, rw e, LeavesOpen.tok at_token leaves)

after_piece-Ends :
    (rec : ℕ → Bytes → Result (List Token)) (n : ℕ)
    → ((l : ℕ) (s : Bytes) → length s < n → Ends l s (rec l s))
    → {l : ℕ} {src : Bytes} {p : Piece} → length src ≤ n
    → IsPiece l src p
    → Ends l src (after_piece rec p)
after_piece-Ends rec n ih {l} {src} h (skips {l'} {g} {rest} at_gap) =
    Ends-gap at_gap
      (ih l' rest (split-shorter src g rest at_gap.whole (IsGap-nonempty at_gap.text) h))
after_piece-Ends rec n ih {l} {src} h (tokens {l'} {t} {rest} at_token) =
    Ends-tok at_token
      (ih l' rest (split-shorter src t rest at_token.whole (IsTokenText-nonempty at_token.text) h))
after_piece-Ends rec n ih {l} {src} h (fails {l'} whole text exact) =
    inr (l', refl, rw whole (opens text exact))

lex_from-Ends : (f l : ℕ) (src : Bytes) → length src ≤ f → Ends l src (lex_from f l src)
unfolding lex_from
lex_from-Ends f l [] h = inl (eof l ∷ [], refl, stop)
lex_from-Ends zero l (c ∷ cs) h = absurd (omega arith)
lex_from-Ends (suc f) l (c ∷ cs) h =
    after_piece-Ends (lex_from f) (suc f) (λ l' s less. lex_from-Ends f l' s (omega arith)) h
      (next-IsPiece l c cs)

-- On every source `lex` ends, and the source says how. Either `lex` returns tokens whose texts are the
-- source in order with white space and comments between them; each text is of the lexical grammar and
-- goes as far as the grammar allows, so that no word, number, operator of two bytes or comment is cut
-- short; and the line of each token is 1 and the newlines up to its end, of which those behind a backslash
-- in a string do not count. Or the source is such tokens and gaps and then a string that nothing closes
-- before the end, and `lex` throws the error of an unterminated string with the line there, counted so.
pub lex_ends-Lexes :
    (src : Bytes)
    → ((ts : List Token) × (lex src ≡ ok ts) × Lexes 1 src ts)
      ⊎ ((e : ℕ) × (lex src ≡ throws (unterminated_string e)) × LeavesOpen 1 src e)
unfolding lex
lex_ends-Lexes src = lex_from-Ends (length src) 1 src (omega arith)

-- On every source `lex` returns a list of tokens or throws the error of an unterminated string.
pub lex_ends :
    (src : Bytes)
    → ((ts : List Token) × (lex src ≡ ok ts))
      ⊎ ((l : ℕ) × (lex src ≡ throws (unterminated_string l)))
lex_ends src = elim (lex_ends-Lexes src) [
  | inl (ts, e, _) ↦ inl (ts, e)
  | inr (l, e, _) ↦ inr (l, e)
]
