-- ===== src/Emitted/Http.antt =====
-- `_dmc_http_url_ok` and the commands of `http_get` and `http_status` of the emitted C, in
-- `emit_runtime` of compiler/dmc.cpp.
use demonic_c.Base.{
  ℕ, ◌<◌, ◌≡◌, refl, ap, Bool, false, not, ◌||◌, [], ◌∷◌, ◌++◌, ◌==◌, Option, none, some,
  if◌then◌else◌, length, length-append, take, take_all, All, arith,
}
use demonic_c.Text.{eqb, Bytes, codes, is, contains, contains-none}

-- `strstr(url, p)`, for a string that is not null.
unfoldable pub http_url_ok : Bytes → Bool
unfolding contains
http_url_ok url = not (
    is url ""
    || contains (codes "\"") url
    || contains (codes "'") url
    || contains (codes "&&") url
    || contains (codes ";") url
    || contains (codes "|") url
    || contains (codes "`") url)

-- What `http_get` passes to `popen`, which gives it to a shell, if anything. `snprintf` cuts at the 2048
-- bytes of the buffer.
unfoldable pub http_get_command : Bytes → Option Bytes
unfolding http_url_ok
http_get_command url =
    if http_url_ok url then some (take 2047 (codes "curl -LfsS --max-time 20 -- " ++ url)) else none

unfoldable pub http_status_command : Bytes → Option Bytes
unfolding http_url_ok
http_status_command url =
    if http_url_ok url
    then some (take 2047 (codes "curl -Lso /dev/null -w %{http_code} --max-time 20 -- " ++ url))
    else none

-- None of the bytes that the patterns of `http_url_ok` begin with.
pub record Passed (c : ℕ) : Type 0 where
  pub no_quote : (b'"' == c) ≡ false
  pub no_tick : (b'\'' == c) ≡ false
  pub no_and : (b'&' == c) ≡ false
  pub no_semicolon : (b';' == c) ≡ false
  pub no_bar : (b'|' == c) ≡ false
  pub no_backquote : (b'`' == c) ≡ false

All-around :
    {P Q : ℕ → Type 0} (s : Bytes) (behind : Bytes)
    → ((c : ℕ) → P c → Q c)
    → All P s
    → All Q behind
    → All Q (s ++ behind)
All-around [] behind f hs b = b
All-around (c ∷ s) behind f (h, hs) b = (f c h, All-around s behind f hs b)

abbrev pub substituted : Bytes → Bytes
substituted c = codes "$(" ++ (c ++ codes ")")

-- `http_get` passes every command of a shell, as a command substitution, on to `popen`, if it has none of
-- the bytes `"`, `'`, `&`, `;`, `|` and the backquote and is not too long.
pub http_get_command-substituted :
    (c : Bytes)
    → All Passed c
    → length c < 2000
    → http_get_command (substituted c)
      ≡ some (codes "curl -LfsS --max-time 20 -- $(" ++ (c ++ codes ")"))
unfolding http_get_command http_url_ok eqb
http_get_command-substituted c h short =
    let quote =
      contains-none b'"' [] (substituted c)
        (refl, (refl, All-around c (codes ")") (λ b p. p.no_quote) h (refl, tt))) in
    let tick =
      contains-none b'\'' [] (substituted c)
        (refl, (refl, All-around c (codes ")") (λ b p. p.no_tick) h (refl, tt))) in
    let ands =
      contains-none b'&' (codes "&") (substituted c)
        (refl, (refl, All-around c (codes ")") (λ b p. p.no_and) h (refl, tt))) in
    let semicolon =
      contains-none b';' [] (substituted c)
        (refl, (refl, All-around c (codes ")") (λ b p. p.no_semicolon) h (refl, tt))) in
    let bar =
      contains-none b'|' [] (substituted c)
        (refl, (refl, All-around c (codes ")") (λ b p. p.no_bar) h (refl, tt))) in
    let backquote =
      contains-none b'`' [] (substituted c)
        (refl, (refl, All-around c (codes ")") (λ b p. p.no_backquote) h (refl, tt))) in
    rw (quote, tick, ands, semicolon, bar, backquote)
      (ap (λ u. some (codes "curl -LfsS --max-time 20 -- $(" ++ u))
        (take_all (c ++ codes ")") 2017
          (let size = length-append c (codes ")") in omega (arith, size, short))))
