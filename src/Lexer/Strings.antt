-- ===== src/Lexer/Strings.antt =====
-- The string loop of `lex` against the grammar of quoted texts.
use demonic_c.Base.{
  ℕ, ◌+◌, ◌≡◌, refl, ap, true, false, [], ◌∷◌, ◌++◌, ◌==◌, ==_iff, if◌then◌else◌, if_intro, arith,
  Bool-cases, inl, inr,
}
use demonic_c.Text.{Bytes}
use demonic_c.Lexer.{StringEnd, closed, unclosed, prepend, scan_string}
use demonic_c.Lexer.Grammar.{line_breaks, IsQuoted, quote, IsOpen, end_of_source, lone}

-- What `scan_string` found behind an opening quote on line `l`.
pub data Closes (l : ℕ) (cs : Bytes) : StringEnd → Type 0 where
  closes :
      {t rest : Bytes} {l' : ℕ}
      → IsQuoted t
      → cs ≡ t ++ rest
      → l' ≡ l + line_breaks t
      → Closes l cs (closed t l' rest)
  stays_open : {l' : ℕ} → IsOpen cs → l' ≡ l + line_breaks cs → Closes l cs (unclosed l')

line_breaks-plain :
    (c : ℕ) (s : Bytes)
    → (c == b'\\') ≡ false
    → line_breaks (c ∷ s) ≡ (if c == b'\n' then 1 else 0) + line_breaks s
line_breaks-plain c [] e = omega arith
line_breaks-plain c (d ∷ s) e = rw (e, line_breaks) refl

pub Closes-plain :
    {l l₁ : ℕ} {c : ℕ} {cs : Bytes} {r : StringEnd}
    → (c == b'"') ≡ false
    → (c == b'\\') ≡ false
    → l₁ ≡ (if c == b'\n' then l + 1 else l)
    → Closes l₁ cs r
    → Closes l (c ∷ cs) (prepend (c ∷ []) r)
Closes-plain {c = c} q b e (closes {t} text whole exact) =
    closes (IsQuoted.plain q b text) (ap (◌∷◌ c) whole)
      (ground (arith, line_breaks-plain c t b, e, exact))
Closes-plain {c = c} {cs = cs} q b e (stays_open text exact) =
    stays_open (IsOpen.plain q b text) (ground (arith, line_breaks-plain c cs b, e, exact))

pub Closes-quote :
    {l c : ℕ} {cs : Bytes} → (c == b'"') ≡ true → Closes l (c ∷ cs) (closed (c ∷ []) l cs)
Closes-quote {l} {c} {cs} e = rw ((==_iff c b'"').0 e) (closes quote refl (omega arith))

pub Closes-escape :
    {l c d : ℕ} {cs : Bytes} {r : StringEnd}
    → (c == b'\\') ≡ true
    → Closes l cs r
    → Closes l (c ∷ d ∷ cs) (prepend (c ∷ d ∷ []) r)
Closes-escape {c = c} {d = d} e (closes {t} text whole exact) =
    rw ((==_iff c b'\\').0 e) (closes (IsQuoted.escape text) (ap (λ s. b'\\' ∷ d ∷ s) whole) exact)
Closes-escape {c = c} {d = d} e (stays_open text exact) =
    rw ((==_iff c b'\\').0 e) (stays_open (IsOpen.escape text) exact)

-- The last byte of a source, in a string.
Closes-last :
    {l c : ℕ} → (c == b'"') ≡ false → Closes l (c ∷ []) (unclosed (if c == b'\n' then l + 1 else l))
Closes-last {l} {c} q = elim (Bool-cases (c == b'\\')) [
  | inl b ↦ rw ((==_iff c b'\\').0 b) (stays_open lone (omega arith))
  | inr b ↦ stays_open (IsOpen.plain q b end_of_source) (ground arith)
]

pub scan_string-Closes : (cs : Bytes) (l : ℕ) → Closes l cs (scan_string cs l)
unfolding scan_string
scan_string-Closes [] l = stays_open end_of_source (omega arith)
scan_string-Closes (c ∷ []) l =
    if_intro (Closes l (c ∷ [])) (c == b'"') (λ e. Closes-quote e) Closes-last
scan_string-Closes (c ∷ d ∷ cs) l = elim (Bool-cases (c == b'"')) [
  | inl e ↦ rw (e, scan_string) (Closes-quote e)
  | inr e ↦ elim (Bool-cases (c == b'\\')) [
    | inl b ↦ rw (e, b, scan_string) (Closes-escape b (scan_string-Closes cs l))
    | inr b ↦ rw (e, b, scan_string) (Closes-plain e b refl (scan_string-Closes (d ∷ cs) _))
  ]
]
