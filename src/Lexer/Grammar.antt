-- ===== src/Lexer/Grammar.antt =====
-- The lexical grammar of `lex` in compiler/dmc.cpp, written without its loops: the texts of tokens,
-- what may stand between them, and the line numbers.
use demonic_c.Base.{
  ℕ, ◌+◌, ◌≡◌, Bool, true, false, not, ◌&&◌, ◌||◌, List, [], ◌∷◌, ◌++◌, ◌==◌, if◌then◌else◌, All,
}
use demonic_c.Text.{Bytes, isspace, isdigit, isalpha, front_isdigit}
use demonic_c.Lexer.{Token, is_word, is_pair, eof}

abbrev pub newlines : Bytes → ℕ
newlines [] = 0
newlines (c ∷ cs) = (if c == b'\n' then 1 else 0) + newlines cs

-- The newlines of the text of a token, without those that a backslash takes with it.
abbrev pub line_breaks : Bytes → ℕ
line_breaks [] = 0
line_breaks (c ∷ []) = if c == b'\n' then 1 else 0
line_breaks (c ∷ d ∷ s) = elim (c == b'\\') [
  | true ↦ line_breaks s
  | false ↦ (if c == b'\n' then 1 else 0) + line_breaks (d ∷ s)
]

abbrev pub NoByte : ℕ → Bytes → Type 0
NoByte b = All (λ c. (c == b) ≡ false)

abbrev pub Digits : Bytes → Type 0
Digits = All (λ c. isdigit c ≡ true)

-- `s` is empty or begins with a byte that `p` refuses.
abbrev pub Stops : (ℕ → Bool) → Bytes → Type 0
Stops p [] = Unit
Stops p (c ∷ s) = p c ≡ false

-- `s` does not begin with a point and a digit.
abbrev pub NoPoint : Bytes → Type 0
NoPoint (p ∷ d ∷ s) = (p == b'.' && isdigit d) ≡ false
NoPoint _ = Unit

-- In these relations `rest` is what follows in the source; each text goes as far as it can.
-- Nothing, or a point and digits.
pub data IsFraction (rest : Bytes) : Bytes → Type 0 where
  none : NoPoint rest → IsFraction rest []
  point :
      {p : ℕ} {ds : Bytes}
      → (p == b'.') ≡ true
      → front_isdigit ds ≡ true
      → Digits ds
      → Stops isdigit rest
      → IsFraction rest (p ∷ ds)

abbrev pub is_sign : ℕ → Bool
is_sign c = c == b'+' || c == b'-'

abbrev pub is_power : ℕ → Bool
is_power c = c == b'e' || c == b'E'

pub data IsSign (rest : Bytes) : Bytes → Type 0 where
  none : Stops is_sign rest → IsSign rest []
  sign : {c : ℕ} → is_sign c ≡ true → IsSign rest (c ∷ [])

pub data IsExponent (rest : Bytes) : Bytes → Type 0 where
  none : Stops is_power rest → IsExponent rest []
  power :
      {e : ℕ} (s ds : Bytes)
      → is_power e ≡ true
      → IsSign (ds ++ rest) s
      → Digits ds
      → Stops isdigit rest
      → IsExponent rest (e ∷ (s ++ ds))

-- The inside of a string and its closing quote. A backslash takes the next byte with it, if there
-- is one.
pub data IsQuoted : Bytes → Type 0 where
  quote : IsQuoted (b'"' ∷ [])
  escape : {d : ℕ} {s : Bytes} → IsQuoted s → IsQuoted (b'\\' ∷ d ∷ s)
  plain :
      {c : ℕ} {s : Bytes}
      → (c == b'"') ≡ false
      → (c == b'\\') ≡ false
      → IsQuoted s
      → IsQuoted (c ∷ s)

-- The inside of a string that nothing closes, up to the end of the source.
pub data IsOpen : Bytes → Type 0 where
  end_of_source : IsOpen []
  lone : IsOpen (b'\\' ∷ [])
  escape : {d : ℕ} {s : Bytes} → IsOpen s → IsOpen (b'\\' ∷ d ∷ s)
  plain :
      {c : ℕ} {s : Bytes} → (c == b'"') ≡ false → (c == b'\\') ≡ false → IsOpen s → IsOpen (c ∷ s)

-- `c` begins neither an operator of two bytes nor a comment.
abbrev pub Alone : ℕ → Bytes → Type 0
Alone c [] = Unit
Alone c (d ∷ s) = (is_pair c d ≡ false) × ((c == b'/' && d == b'/') ≡ false)

pub data IsTokenText (rest : Bytes) : Bytes → Type 0 where
  word :
      {c : ℕ} {cs : Bytes}
      → (isalpha c || c == b'_') ≡ true
      → All (λ d. is_word d ≡ true) cs
      → Stops is_word rest
      → IsTokenText rest (c ∷ cs)
  number :
      {c : ℕ} (ds fs es : Bytes)
      → isdigit c ≡ true
      → Digits ds
      → Stops isdigit (fs ++ (es ++ rest))
      → IsFraction (es ++ rest) fs
      → IsExponent rest es
      → IsTokenText rest (c ∷ (ds ++ (fs ++ es)))
  quoted : {s : Bytes} → IsQuoted s → IsTokenText rest (b'"' ∷ s)
  pair : {c d : ℕ} → is_pair c d ≡ true → IsTokenText rest (c ∷ d ∷ [])
  symbol :
      {c : ℕ}
      → (isspace c || isalpha c || c == b'_' || isdigit c || c == b'"') ≡ false
      → Alone c rest
      → IsTokenText rest (c ∷ [])

-- A byte of white space, or a comment up to the end of its line.
pub data IsGap (rest : Bytes) : Bytes → Type 0 where
  space : {c : ℕ} → isspace c ≡ true → IsGap rest (c ∷ [])
  comment :
      {s : Bytes}
      → NoByte b'\n' s
      → Stops (λ c. not (c == b'\n')) rest
      → IsGap rest (b'/' ∷ b'/' ∷ s)

-- `src` begins with the token text `t`, which ends on line `l'`.
pub record IsTokenAt (l l' : ℕ) (src t rest : Bytes) : Type 0 where
  pub text : IsTokenText rest t
  pub whole : src ≡ t ++ rest
  pub exact : l' ≡ l + line_breaks t

pub record IsGapAt (l l' : ℕ) (src g rest : Bytes) : Type 0 where
  pub text : IsGap rest g
  pub whole : src ≡ g ++ rest
  pub exact : l' ≡ l + newlines g

-- From line `l` on, the source is the texts of these tokens in order with gaps between them, and
-- each token has the line on which it ends.
pub data Lexes : ℕ → Bytes → List Token → Type 0 where
  stop : {l : ℕ} → Lexes l [] (eof l ∷ [])
  gap :
      {l l' : ℕ} {src g rest : Bytes} {ts : List Token}
      → IsGapAt l l' src g rest
      → Lexes l' rest ts
      → Lexes l src ts
  tok :
      {l l' : ℕ} {src t rest : Bytes} {ts : List Token}
      → IsTokenAt l l' src t rest
      → Lexes l' rest ts
      → Lexes l src (record { text = t; line = l' } ∷ ts)

-- From line `l` on, the source is texts of tokens with gaps between them, and then a quote that nothing
-- closes, with the end of the source on line `e`.
pub data LeavesOpen : ℕ → Bytes → ℕ → Type 0 where
  opens : {l e : ℕ} {s : Bytes} → IsOpen s → e ≡ l + line_breaks s → LeavesOpen l (b'"' ∷ s) e
  gap :
      {l l' e : ℕ} {src g rest : Bytes}
      → IsGapAt l l' src g rest
      → LeavesOpen l' rest e
      → LeavesOpen l src e
  tok :
      {l l' e : ℕ} {src t rest : Bytes}
      → IsTokenAt l l' src t rest
      → LeavesOpen l' rest e
      → LeavesOpen l src e
