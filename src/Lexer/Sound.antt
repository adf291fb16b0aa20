-- ===== src/Lexer/Sound.antt =====
-- The tokens of `lex` in compiler/dmc.cpp against the grammar.
use demonic_c.Base.{ℕ, zero, suc, ◌≡◌, subst, List, [], ◌∷◌, length}
use demonic_c.Text.{Bytes}
use demonic_c.Result.{Result, ok, map_ok-eq-ok}
use demonic_c.Lexer.{Token, Piece, after_piece, lex_from, lex}
use demonic_c.Lexer.Grammar.{Lexes, stop, gap, tok}
use demonic_c.Lexer.Pieces.{IsPiece, skips, tokens, fails, next-IsPiece}

after_piece-Lexes :
    {l : ℕ} {src : Bytes} {p : Piece} (rec : ℕ → Bytes → Result (List Token))
    → ((l' : ℕ) (rest : Bytes) (ts : List Token) → rec l' rest ≡ ok ts → Lexes l' rest ts)
    → IsPiece l src p
    → {ts : List Token} → after_piece rec p ≡ ok ts
    → Lexes l src ts
after_piece-Lexes rec ih (skips g) e = gap g (ih _ _ _ e)
after_piece-Lexes {l} {src} rec ih (tokens {l'} {t} {rest} at_token) e =
    let (ts', read, whole) = map_ok-eq-ok _ (rec l' rest) e in
    subst (Lexes l src) whole (tok at_token (ih _ _ _ read))
after_piece-Lexes rec ih (fails _ _ _) e = cc

lex_from-Lexes :
    (f l : ℕ) (src : Bytes) (ts : List Token) → lex_from f l src ≡ ok ts → Lexes l src ts
unfolding lex_from
lex_from-Lexes f l [] ts e = subst (Lexes l []) (cc) stop
lex_from-Lexes zero l (c ∷ cs) ts e = cc
lex_from-Lexes (suc f) l (c ∷ cs) ts e =
    after_piece-Lexes (lex_from f) (lex_from-Lexes f) (next-IsPiece l c cs) e

-- Whenever `lex` returns, the source is the texts of the returned tokens in order, with white space
-- and comments between them, each text goes as far as the lexical grammar allows, and each token has the line on
-- which it ends, where newlines behind a backslash in a string do not count.
pub lex-Lexes : (src : Bytes) {ts : List Token} → lex src ≡ ok ts → Lexes 1 src ts
unfolding lex
lex-Lexes src {ts} e = lex_from-Lexes (length src) 1 src ts e
