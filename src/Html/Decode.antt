-- ===== src/Html/Decode.antt =====
-- What a reader of the text of `html_escape` sees, and the bytes that matter in HTML.
use demonic_c.Base.{
  ℕ, zero, suc, ◌≡◌, refl, sym, ap, ◌∙◌, subst, true, false, [], ◌∷◌, ◌++◌, ◌==◌, if◌then◌else◌,
  if_intro, All, All-append, ==_iff, Bool-cases, inl, inr,
}
use demonic_c.Text.{Bytes, codes, starts_with}
use demonic_c.Html.{escape_byte, html_escape}

-- The byte that an `&` before `cs` begins the entity of, and how much of `cs` is the rest of it.
unfoldable pub entity : Bytes → ℕ × ℕ
entity cs =
    if starts_with (codes "amp;") cs
    then (b'&', 4)
    else if starts_with (codes "lt;") cs
    then (b'<', 3)
    else if starts_with (codes "gt;") cs
    then (b'>', 3)
    else if starts_with (codes "quot;") cs
    then (b'"', 5)
    else (b'&', 0)

-- The text with the four entities of `html_escape` read back, past its first `n` bytes.
unfoldable pub decode_past : ℕ → Bytes → Bytes
unfolding entity
decode_past n [] = []
decode_past (suc n) (c ∷ cs) = decode_past n cs
decode_past zero (c ∷ cs) =
    if c == b'&' then (entity cs).0 ∷ decode_past (entity cs).1 cs else c ∷ decode_past 0 cs

entity_case :
    (a c : ℕ) (cs : Bytes)
    → (c == a) ≡ true
    → decode_past 0 (escape_byte a ++ cs) ≡ a ∷ decode_past 0 cs
    → decode_past 0 (escape_byte c ++ cs) ≡ c ∷ decode_past 0 cs
entity_case a c cs e h =
    subst (λ x. decode_past 0 (escape_byte x ++ cs) ≡ x ∷ decode_past 0 cs) (sym ((==_iff c a).0 e))
      h

decode_escape_byte :
    (c : ℕ) (cs : Bytes) → decode_past 0 (escape_byte c ++ cs) ≡ c ∷ decode_past 0 cs
unfolding decode_past escape_byte starts_with
decode_escape_byte c cs = elim (Bool-cases (c == b'&')) [
  | inl e ↦ entity_case b'&' c cs e refl
  | inr e1 ↦ elim (Bool-cases (c == b'<')) [
    | inl e ↦ entity_case b'<' c cs e refl
    | inr e2 ↦ elim (Bool-cases (c == b'>')) [
      | inl e ↦ entity_case b'>' c cs e refl
      | inr e3 ↦ elim (Bool-cases (c == b'"')) [
        | inl e ↦ entity_case b'"' c cs e refl
        | inr e4 ↦ rw (e1, e2, e3, e4, e1) refl
      ]
    ]
  ]
]

-- What a reader of the escaped text sees is the text.
pub decode-html_escape : (s : Bytes) → decode_past 0 (html_escape s) ≡ s
unfolding html_escape decode_past
decode-html_escape [] = refl
decode-html_escape (c ∷ cs) =
    decode_escape_byte c (html_escape cs) ∙ ap (◌∷◌ c) (decode-html_escape cs)

unfoldable pub Harmless : ℕ → Type 0
Harmless c = ((c == b'<') ≡ false) × ((c == b'>') ≡ false) × ((c == b'"') ≡ false)

escape_byte-Harmless : (c : ℕ) → All Harmless (escape_byte c)
unfolding escape_byte Harmless
escape_byte-Harmless c =
    if_intro (All Harmless) (c == b'&')
      (λ e. (
        (refl, refl, refl),
        ((refl, refl, refl), ((refl, refl, refl), ((refl, refl, refl), ((refl, refl, refl), tt)))),
      ))
      (λ e1.
        if_intro (All Harmless) (c == b'<')
          (λ e. (
            (refl, refl, refl),
            ((refl, refl, refl), ((refl, refl, refl), ((refl, refl, refl), tt))),
          ))
          (λ e2.
            if_intro (All Harmless) (c == b'>')
              (λ e. (
                (refl, refl, refl),
                ((refl, refl, refl), ((refl, refl, refl), ((refl, refl, refl), tt))),
              ))
              (λ e3.
                if_intro (All Harmless) (c == b'"')
                  (λ e. (
                    (refl, refl, refl),
                    (
                      (refl, refl, refl),
                      (
                        (refl, refl, refl),
                        ((refl, refl, refl), ((refl, refl, refl), ((refl, refl, refl), tt))),
                      ),
                    ),
                  ))
                  (λ e4. ((e2, e3, e4), tt)))))

-- No angle bracket and no double quote stands in an escaped text.
pub html_escape-Harmless : (s : Bytes) → All Harmless (html_escape s)
unfolding html_escape
html_escape-Harmless [] = tt
html_escape-Harmless (c ∷ cs) =
    All-append Harmless _ _ (escape_byte-Harmless c) (html_escape-Harmless cs)
