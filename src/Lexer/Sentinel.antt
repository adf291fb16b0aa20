-- ===== src/Lexer/Sentinel.antt =====
-- The `<eof>` token at the end of the tokens of `lex`, and the line numbers.
use demonic_c.Base.{ℕ, ◌+◌, ◌≤◌, ◌<◌, ◌≡◌, ◌≢◌, refl, ap, List, [], ◌∷◌, ◌++◌, arith, length, All}
use demonic_c.Text.{Bytes, codes}
use demonic_c.Result.{ok}
use demonic_c.Lexer.{Token, eof, lex}
use demonic_c.Lexer.Grammar.{newlines, NoByte, IsTokenText, word, number, Lexes, stop, gap, tok}
use demonic_c.Lexer.Pieces.{newlines-append, line_breaks-newlines, line_breaks-exact}
use demonic_c.Lexer.Sound.{lex-Lexes}
use demonic_c.Lexer.Total.{IsTokenText-nonempty}

IsTokenText-ne-eof : {rest t : Bytes} → IsTokenText rest t → t ≢ codes "<eof>"
IsTokenText-ne-eof (word {c} {cs} e h _) p = ground arith
IsTokenText-ne-eof (number {c} ds fs es e d _ f x) p = ground arith
IsTokenText-ne-eof _ p = ground arith

-- A token from the source: not empty, and no end marker.
abbrev IsProper : Token → Type 0
IsProper t = (0 < length t.text) × (t.text ≢ codes "<eof>")

abbrev EndsInEof : List Token → Type 0
EndsInEof ts = (body : List Token) × (l : ℕ) × (ts ≡ body ++ (eof l ∷ [])) × All IsProper body

Lexes-EndsInEof : {l : ℕ} {src : Bytes} {ts : List Token} → Lexes l src ts → EndsInEof ts
Lexes-EndsInEof (stop {l}) = ([], l, refl, tt)
Lexes-EndsInEof (gap g h) = Lexes-EndsInEof h
Lexes-EndsInEof (tok {l' = l'} {t = t} at_token h) =
    let (body, last, whole, proper) = Lexes-EndsInEof h in
    let head : Token = record { text = t; line = l' } in
    (
      head ∷ body,
      last,
      ap (◌∷◌ head) whole,
      ((IsTokenText-nonempty at_token.text, IsTokenText-ne-eof at_token.text), proper),
    )

-- Whenever `lex` returns, its list is tokens from the source, none of them empty or spelled `<eof>`,
-- and then exactly one end marker.
pub lex-EndsInEof :
    (src : Bytes) {ts : List Token}
    → lex src ≡ ok ts
    → (body : List Token) × (l : ℕ) × (ts ≡ body ++ (eof l ∷ []))
      × All (λ t. (0 < length t.text) × (t.text ≢ codes "<eof>")) body
lex-EndsInEof src e = Lexes-EndsInEof (lex-Lexes src e)

-- Line numbers never fall, from `l` on.
abbrev pub Ascends : ℕ → List Token → Type 0
Ascends l [] = Unit
Ascends l (t ∷ ts) = (l ≤ t.line) × Ascends t.line ts

abbrev pub last_line : ℕ → List Token → ℕ
last_line l [] = l
last_line l (t ∷ ts) = last_line t.line ts

Ascends-weaken : {l l' : ℕ} (ts : List Token) → l ≤ l' → Ascends l' ts → Ascends l ts
Ascends-weaken [] h a = tt
Ascends-weaken (t ∷ ts) h a = (omega arith, a.1)

NoByte-append : (b : ℕ) (s t : Bytes) → NoByte b (s ++ t) → NoByte b s × NoByte b t
NoByte-append b [] t h = (tt, h)
NoByte-append b (c ∷ s) t h = let (p, q) = NoByte-append b s t h.1 in ((h.0, p), q)

Lexes-Ascends : {l : ℕ} {src : Bytes} {ts : List Token} → Lexes l src ts → Ascends l ts
Lexes-Ascends stop = (omega arith, tt)
Lexes-Ascends {ts = ts} (gap g h) = Ascends-weaken ts (omega (arith, g.exact)) (Lexes-Ascends h)
Lexes-Ascends (tok at_token h) = (omega (arith, at_token.exact), Lexes-Ascends h)

Lexes-last_line :
    {l : ℕ} {src : Bytes} {ts : List Token}
    → Lexes l src ts
    → (l₀ : ℕ)
    → (last_line l₀ ts ≤ l + newlines src) × (NoByte b'\\' src → last_line l₀ ts ≡ l + newlines src)
Lexes-last_line stop l₀ = (omega arith, λ n. omega arith)
Lexes-last_line (gap {g = g} {rest = rest} at_gap h) l₀ =
    let (bound, exact) = Lexes-last_line h l₀ in
    rw at_gap.whole (
      omega (arith, newlines-append g rest, at_gap.exact),
      λ n. omega (arith, newlines-append g rest, at_gap.exact, exact (NoByte-append _ g rest n).1),
    )
Lexes-last_line (tok {l' = l'} {t = t} {rest = rest} at_token h) l₀ =
    let (bound, exact) = Lexes-last_line h l' in
    rw at_token.whole (
      omega (arith, newlines-append t rest, at_token.exact, line_breaks-newlines t),
      λ n.
          let (n₁, n₂) = NoByte-append b'\\' t rest n in
          omega (arith, newlines-append t rest, at_token.exact, line_breaks-exact t n₁, exact n₂),
    )

-- The line numbers that `lex` gives start at 1 and never fall, the last is at most one more than the
-- newlines of the source, and it is exactly that where the source has no backslash.
pub lex-lines :
    (src : Bytes) {ts : List Token}
    → lex src ≡ ok ts
    → Ascends 1 ts
      × (last_line 1 ts ≤ 1 + newlines src)
      × (NoByte b'\\' src → last_line 1 ts ≡ 1 + newlines src)
lex-lines src e =
    let read = lex-Lexes src e in
    let (bound, exact) = Lexes-last_line read 1 in (Lexes-Ascends read, bound, exact)
