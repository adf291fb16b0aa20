-- ===== src/Emitted/Json/Member.antt =====
-- What `json_get` of the emitted C reads at the first quoted text.
use demonic_c.Base.{
  ℕ, zero, suc, ◌+◌, ◌≤◌, ◌≡◌, refl, sym, ap, ◌∙◌, true, false, [], ◌∷◌, ◌++◌, ◌==◌, ==_iff, some,
  length, length-append, take_all, drop, drop-drop, replicate, All, arith,
}
use demonic_c.Text.{Bytes, codes, find, find_byte, starts_with}
use demonic_c.Emitted.Json.{
  needle, skip_blanks, copied, ends_text, value_at, behind_colon, behind_needle, json_get,
}

starts_with-append : (p s : Bytes) → starts_with p (p ++ s) ≡ true
unfolding starts_with
starts_with-append [] s = refl
starts_with-append (c ∷ p) s = rw ((==_iff c c).1 refl) (starts_with-append p s)

-- A pattern is found behind a text without its first byte.
find-behind :
    (q : ℕ) (p before s : Bytes)
    → All (λ c. (q == c) ≡ false) before
    → find (q ∷ p) (before ++ ((q ∷ p) ++ s)) ≡ some (length before)
unfolding find
find-behind q p [] s h = rw (starts_with-append (q ∷ p) s)
find-behind q p (c ∷ before) s (h, hs) = rw (h, find-behind q p before s hs) refl

drop-append : (a b : Bytes) → drop (length a) (a ++ b) ≡ b
drop-append [] b = refl
drop-append (c ∷ a) b = drop-append a b

copied-text :
    (v s : Bytes) (room : ℕ)
    → All (λ c. (c == b'"') ≡ false) v
    → length v ≤ room
    → copied ends_text room (v ++ (b'"' ∷ s)) ≡ v
unfolding copied
copied-text [] s zero h le = refl
copied-text [] s (suc room) h le = refl
copied-text (c ∷ v) s zero h le = absurd (omega (arith, le))
copied-text (c ∷ v) s (suc room) (h, hs) le =
    rw h (ap (◌∷◌ c) (copied-text v s room hs (omega (arith, le))))

abbrev pub spaces : ℕ → Bytes
spaces n = replicate n b' '

-- A quoted key, a colon with spaces on both sides, and a quoted value, with bytes in front and behind.
abbrev pub member : Bytes → Bytes → ℕ → ℕ → Bytes → Bytes → Bytes
member before key left right value behind =
    before
    ++ ((b'"' ∷ (key ++ codes "\""))
        ++ (spaces left ++ (b':' ∷ (spaces right ++ (b'"' ∷ (value ++ (b'"' ∷ behind)))))))

-- The colon behind the spaces.
find_byte-spaces : (n : ℕ) (s : Bytes) → find_byte b':' (spaces n ++ (b':' ∷ s)) ≡ some n
find_byte-spaces zero s = refl
find_byte-spaces (suc n) s = rw (find_byte-spaces n s) refl

drop-spaces : (n : ℕ) (s : Bytes) → drop (n + 1) (spaces n ++ (b':' ∷ s)) ≡ s
drop-spaces zero s = refl
drop-spaces (suc n) s = let one : suc n + 1 ≡ suc (n + 1) = omega arith in rw one (drop-spaces n s)

skip_blanks-spaces : (n : ℕ) (s : Bytes) → skip_blanks (spaces n ++ (b'"' ∷ s)) ≡ b'"' ∷ s
unfolding skip_blanks
skip_blanks-spaces zero s = refl
skip_blanks-spaces (suc n) s = skip_blanks-spaces n s

-- `json_get` returns the value behind a key, where the quote of the key is the first quote in the bytes,
-- the value is quoted and has no quote in it, and nothing but spaces, as many as there are, stands
-- between the key and the colon and between the colon and the value. The key is any of 509 bytes at most,
-- the value has 65535 at most, and what stands in front and behind is free of conditions otherwise.
pub json_get-member :
    (before key : Bytes) (left right : ℕ) (value behind : Bytes)
    → All (λ c. (b'"' == c) ≡ false) before
    → length key ≤ 509
    → All (λ c. (c == b'"') ≡ false) value
    → length value ≤ 65535
    → json_get (member before key left right value behind) key ≡ value
unfolding json_get value_at skip_blanks
json_get-member before key left right value behind clear short quoteless fits =
    let word : Bytes = key ++ codes "\"" in
    let quoted : Bytes = b'"' ∷ (value ++ (b'"' ∷ behind)) in
    let rest : Bytes = spaces left ++ (b':' ∷ (spaces right ++ quoted)) in
    let json : Bytes = before ++ ((b'"' ∷ word) ++ rest) in
    let size : length word ≡ length key + 1 = length-append key (codes "\"") in
    let whole : needle key ≡ b'"' ∷ word =
      take_all (b'"' ∷ word) 511 (omega (arith, size, short)) in
    let dropped : drop (length before + length (b'"' ∷ word)) json ≡ rest =
      sym (drop-drop (length before) (length (b'"' ∷ word)) json)
      ∙ ap (drop (length (b'"' ∷ word))) (drop-append before ((b'"' ∷ word) ++ rest))
      ∙ drop-append (b'"' ∷ word) rest in
    ap (λ n. behind_needle json (length n) (find n json)) whole
    ∙ ap (behind_needle json (length (b'"' ∷ word))) (find-behind b'"' word before rest clear)
    ∙ ap (λ s. behind_colon s (find_byte b':' s)) dropped
    ∙ ap (behind_colon rest) (find_byte-spaces left (spaces right ++ quoted))
    ∙ ap (λ s. value_at (skip_blanks s)) (drop-spaces left (spaces right ++ quoted))
    ∙ ap value_at (skip_blanks-spaces right (value ++ (b'"' ∷ behind)))
    ∙ copied-text value behind 65535 quoteless fits
