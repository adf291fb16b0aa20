-- ===== src/Text.antt =====
-- `std::string` as a list of bytes, with the members of it that the compiler calls.
use Prim.Native.Char.{code}
use Prim.Native.String.{String}
use demonic_c.Base.{
  ℕ, zero, suc, ◌+◌, ◌/◌, ◌%◌, ◌≡◌, ◌↔◌, refl, Bool, true, false, ◌&&◌, ◌||◌, List, [], ◌∷◌, ◌++◌,
  Option, none, some, arith, leb, ltb, ◌==◌, if◌then◌else◌, take, drop, All,
}

abbrev pub Bytes : Type 0
Bytes = List ℕ

-- The bytes of an ASCII literal.
abbrev pub codes : String → Bytes
codes String.[] = []
codes (String.◌∷◌ c s) = code c ∷ codes s

-- `operator==` on strings.
unfoldable pub eqb : Bytes → Bytes → Bool
eqb [] [] = true
eqb (x ∷ a) (y ∷ b) = x == y && eqb a b
eqb _ _ = false

pub eqb_iff : (a b : Bytes) → (eqb a b ≡ true) ↔ (a ≡ b)
unfolding eqb
eqb_iff (x ∷ a) (y ∷ b) = ground (arith, eqb_iff a b)
eqb_iff _ _ = ground arith

-- `s` is the literal `t`.
abbrev pub is : Bytes → String → Bool
is s t = eqb s (codes t)

-- `s.rfind(p, 0) == 0`.
unfoldable pub starts_with : Bytes → Bytes → Bool
starts_with [] s = true
starts_with (x ∷ p) [] = false
starts_with (x ∷ p) (y ∷ s) = x == y && starts_with p s

-- `s.find(p)`; `none` is `npos`.
unfoldable pub find : Bytes → Bytes → Option ℕ
unfolding starts_with
find p [] = if starts_with p [] then some 0 else none
find p (c ∷ s) =
    if starts_with p (c ∷ s)
    then some 0
    else elim (find p s) [ none ↦ none | some i ↦ some (suc i) ]

-- `s.rfind(p)`: the last place.
unfoldable pub rfind : Bytes → Bytes → Option ℕ
unfolding starts_with
rfind p [] = if starts_with p [] then some 0 else none
rfind p (c ∷ s) = elim (rfind p s) [
  | some i ↦ some (suc i)
  | none ↦ if starts_with p (c ∷ s) then some 0 else none
]

-- `s.find(p) != npos`.
unfoldable pub contains : Bytes → Bytes → Bool
unfolding starts_with
contains p [] = starts_with p []
contains p (c ∷ s) = starts_with p (c ∷ s) || contains p s

-- A pattern is in no text without its first byte.
pub contains-none :
    (q : ℕ) (p s : Bytes) → All (λ c. (q == c) ≡ false) s → contains (q ∷ p) s ≡ false
unfolding contains starts_with
contains-none q p [] h = refl
contains-none q p (c ∷ s) (h, hs) = rw h (contains-none q p s hs)

-- The same for `find` from the end.
pub rfind-none : (q : ℕ) (p s : Bytes) → All (λ c. (q == c) ≡ false) s → rfind (q ∷ p) s ≡ none
unfolding rfind starts_with
rfind-none q p [] h = refl
rfind-none q p (c ∷ s) (h, hs) = rw (rfind-none q p s hs, h) refl

abbrev pub find_byte : ℕ → Bytes → Option ℕ
find_byte b [] = none
find_byte b (c ∷ s) =
    if c == b then some 0 else elim (find_byte b s) [ none ↦ none | some i ↦ some (suc i) ]

-- `s.substr(pos, len)` for `pos <= s.size()`.
abbrev pub substr : Bytes → ℕ → ℕ → Bytes
substr s pos len = take len (drop pos s)

-- `s.front() == b`, false on the empty string.
abbrev pub front_is : ℕ → Bytes → Bool
front_is b [] = false
front_is b (c ∷ s) = c == b

-- `<cctype>` in the C locale.
abbrev pub isspace : ℕ → Bool
isspace c = c == 32 || leb 9 c && leb c 13

abbrev pub isdigit : ℕ → Bool
isdigit c = leb b'0' c && leb c b'9'

abbrev pub isalpha : ℕ → Bool
isalpha c = leb b'a' c && leb c b'z' || leb b'A' c && leb c b'Z'

abbrev pub isalnum : ℕ → Bool
isalnum c = isalpha c || isdigit c

-- `isalpha(s[0])` behind `!s.empty()`.
abbrev pub front_isalpha : Bytes → Bool
front_isalpha [] = false
front_isalpha (c ∷ s) = isalpha c

abbrev pub front_isdigit : Bytes → Bool
front_isdigit [] = false
front_isdigit (c ∷ s) = isdigit c

-- `std::to_string` of a number that is not negative. Each round divides by ten, so `n + 1` rounds
-- are enough.
unfoldable pub to_string_from : ℕ → ℕ → Bytes
to_string_from zero n = []
to_string_from (suc f) n = elim (ltb n 10) [
  | true ↦ (n + b'0') ∷ []
  | false ↦ to_string_from f (n / 10) ++ ((n % 10 + b'0') ∷ [])
]

unfoldable pub to_string : ℕ → Bytes
unfolding to_string_from
to_string n = to_string_from (suc n) n

-- A chain of `+` on strings.
abbrev pub cat : List Bytes → Bytes
cat [] = []
cat (s ∷ ss) = s ++ cat ss
