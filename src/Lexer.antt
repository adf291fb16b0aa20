-- ===== src/Lexer.antt =====
-- `lex` of compiler/dmc.cpp. The index `i` into `source` is modelled by the bytes from `i` on.
pub mod Grammar
pub mod Cuts
pub mod Strings
pub mod Pieces
pub mod Sound
pub mod Sentinel
pub mod Total
use demonic_c.Base.{
  ℕ, zero, suc, ◌+◌, Bool, true, false, ◌&&◌, ◌||◌, List, [], ◌∷◌, ◌++◌, ◌==◌, if◌then◌else◌,
  length,
}
use demonic_c.Text.{Bytes, codes, front_is, isspace, isdigit, isalpha, isalnum, to_string}
use demonic_c.Result.{Error, runtime_error, Result, ok, throws, out_of_fuel, map_ok}

-- `struct Token`.
pub record Token : Type 0 where
  pub text : Bytes
  pub line : ℕ

abbrev pub is_word : ℕ → Bool
is_word c = isalnum c || c == b'_'

-- `while (i < size && p(source[i])) ++i`: what is passed over, and what is left.
unfoldable pub span : (ℕ → Bool) → Bytes → Bytes × Bytes
span p [] = ([], [])
span p (c ∷ cs) = elim (p c) [
  | true ↦ let (taken, rest) = span p cs in (c ∷ taken, rest)
  | false ↦ ([], c ∷ cs)
]

unfoldable pub skip_comment : Bytes → Bytes
skip_comment [] = []
skip_comment (c ∷ cs) = elim (c == b'\n') [ true ↦ c ∷ cs | false ↦ skip_comment cs ]

-- A `.` counts only in front of a digit.
unfoldable pub fraction : Bytes → Bytes × Bytes
unfolding span
fraction (p ∷ d ∷ r) =
    if p == b'.' && isdigit d
    then (let (ds, rest) = span isdigit (d ∷ r) in (p ∷ ds, rest))
    else ([], p ∷ d ∷ r)
fraction r = ([], r)

unfoldable pub exponent_sign : Bytes → Bytes × Bytes
exponent_sign [] = ([], [])
exponent_sign (c ∷ cs) = if c == b'+' || c == b'-' then (c ∷ [], cs) else ([], c ∷ cs)

-- Digits need not follow the `e`.
unfoldable pub exponent : Bytes → Bytes × Bytes
unfolding span exponent_sign
exponent [] = ([], [])
exponent (e ∷ r) =
    if e == b'e' || e == b'E'
    then (let (s, r₁) = exponent_sign r in
        let (ds, rest) = span isdigit r₁ in (e ∷ (s ++ ds), rest))
    else ([], e ∷ r)

-- What follows the first digit of a number.
unfoldable pub number_tail : Bytes → Bytes × Bytes
unfolding span fraction exponent
number_tail cs =
    let (ds, r₁) = span isdigit cs in
    let (fs, r₂) = fraction r₁ in let (es, rest) = exponent r₂ in (ds ++ (fs ++ es), rest)

pub data StringEnd : Type 0 where
  closed : Bytes → ℕ → Bytes → StringEnd
  unclosed : ℕ → StringEnd

abbrev pub prepend : Bytes → StringEnd → StringEnd
prepend p (closed t l rest) = closed (p ++ t) l rest
prepend p (unclosed l) = unclosed l

-- The loop behind an opening quote; the text has the closing one. A byte behind a backslash is
-- passed over, and is not counted where it is a newline.
unfoldable pub scan_string : Bytes → ℕ → StringEnd
scan_string [] line = unclosed line
scan_string (c ∷ []) line =
    if c == b'"' then closed (c ∷ []) line [] else unclosed (if c == b'\n' then line + 1 else line)
scan_string (c ∷ d ∷ cs) line = elim (c == b'"') [
  | true ↦ closed (c ∷ []) line (d ∷ cs)
  | false ↦ elim (c == b'\\') [
    | true ↦ prepend (c ∷ d ∷ []) (scan_string cs line)
    | false ↦ prepend (c ∷ []) (scan_string (d ∷ cs) (if c == b'\n' then line + 1 else line))
  ]
]

-- One round of the main loop: bytes with no token, a token and the line behind it, or the throw.
pub data Piece : Type 0 where
  skip : ℕ → Bytes → Piece
  token : Bytes → ℕ → Bytes → Piece
  unterminated : ℕ → Piece

abbrev pub is_pair : ℕ → ℕ → Bool
is_pair c d =
    (c == b'=' || c == b'!' || c == b'<' || c == b'>') && d == b'='
    || c == b'&' && d == b'&'
    || c == b'|' && d == b'|'
    || c == b'-' && d == b'>'
    || c == b':' && d == b':'
    || c == b'#' && d == b'['

unfoldable pub operator : ℕ → ℕ → Bytes → Piece
operator line c [] = token (c ∷ []) line []
operator line c (d ∷ cs) =
    if is_pair c d then token (c ∷ d ∷ []) line cs else token (c ∷ []) line (d ∷ cs)

abbrev pub string_piece : StringEnd → Piece
string_piece (closed t l rest) = token (b'"' ∷ t) l rest
string_piece (unclosed l) = unterminated l

abbrev pub token_piece : ℕ → ℕ → Bytes × Bytes → Piece
token_piece line c (taken, rest) = token (c ∷ taken) line rest

unfoldable pub next : ℕ → ℕ → Bytes → Piece
unfolding span skip_comment number_tail scan_string operator
next line c cs =
    if c == b'\n'
    then skip (line + 1) cs
    else if isspace c
    then skip line cs
    else if c == b'/' && front_is b'/' cs
    then skip line (skip_comment (c ∷ cs))
    else if isalpha c || c == b'_'
    then token_piece line c (span is_word cs)
    else if isdigit c
    then token_piece line c (number_tail cs)
    else if c == b'"'
    then string_piece (scan_string cs line)
    else operator line c cs

abbrev pub eof : ℕ → Token
eof line = record { text = codes "<eof>"; line = line }

abbrev pub unterminated_string : ℕ → Error
unterminated_string l = runtime_error (codes "unterminated string at line " ++ to_string l)

-- What is done with a piece; `rest` is the rest of the loop.
abbrev pub after_piece : (ℕ → Bytes → Result (List Token)) → Piece → Result (List Token)
after_piece rest (skip l s) = rest l s
after_piece rest (token t l s) = map_ok (◌∷◌ (record { text = t; line = l })) (rest l s)
after_piece rest (unterminated l) = throws (unterminated_string l)

-- Each round passes over a byte at least, so one unit of fuel for each byte is enough.
unfoldable pub lex_from : ℕ → ℕ → Bytes → Result (List Token)
unfolding next to_string
lex_from f line [] = ok (eof line ∷ [])
lex_from zero line (c ∷ cs) = out_of_fuel
lex_from (suc f) line (c ∷ cs) = after_piece (lex_from f) (next line c cs)

unfoldable pub lex : Bytes → Result (List Token)
unfolding lex_from
lex source = lex_from (length source) 1 source
