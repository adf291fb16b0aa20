-- ===== src/Parser/Expression/Behind.antt =====
-- What stands behind an expression, and what `parse_binary` does there.
use demonic_c.Base.{
  ℕ, zero, suc, ◌≤◌, ◌<◌, ◌≡◌, ◌⊎◌, inl, inr, refl, ap, ◌∙◌, Bool, false, not, ◌&&◌, String, List,
  [], ◌∷◌, if◌then◌else◌, ltb, leb, arith, Bool-cases,
}
use demonic_c.Text.{Bytes, codes, eqb, eqb_iff, is, cat}
use demonic_c.Lexer.{Token}
use demonic_c.Parser.State.{
  State, M, Outcome, ok, throws, out_of_fuel, bind, ◌>>=◌, ◌>>◌, pure, peek, take, when◌run◌else◌,
}
use demonic_c.Parser.Fold.{binary_precedence}
use demonic_c.Parser.Expression.{expression, parse_binary, binary_loop, postfix, unary_expr}
use demonic_c.Parser.Expression.Grammar.{Tree, tokens, at, operand_level}

-- A run that ends as it is told, unless its fuel does.
abbrev pub OrFuel : {A : Type 0} → Outcome A → Outcome A → Type 0
OrFuel m r = (m ≡ r) ⊎ (m ≡ out_of_fuel)

-- A token that is read as such and goes on no operand: no `(`, `.`, `[`, `::` or `{`.
pub record Plain (n : Token) : Type 0 where
  pub no_call : is n.text "(" ≡ false
  pub no_field : is n.text "." ≡ false
  pub no_index : is n.text "[" ≡ false
  pub no_scope : is n.text "::" ≡ false
  pub no_brace : is n.text "{" ≡ false

pub postfix-Plain :
    (f : ℕ) (v : Bytes) (s : State) (n : Token) (rest : List Token)
    → Plain n
    → OrFuel (postfix f v (at s (n ∷ rest))) (ok v (at s (n ∷ rest)))
unfolding postfix peek when◌run◌else◌
postfix-Plain zero v s n rest p = inr refl
postfix-Plain (suc f) v s n rest p = inl (rw (p.no_call, p.no_field, p.no_index))

-- What a token with a precedence is not.
pub other_than :
    (t : Bytes) (c : String)
    → 0 < binary_precedence t
    → binary_precedence (codes c) ≡ 0
    → is t c ≡ false
other_than t c h e = elim (Bool-cases (is t c)) [
  | inl same ↦ absurd (omega (arith, h, e, ap binary_precedence ((eqb_iff t (codes c)).0 same)))
  | inr other ↦ other
]

operator-Plain : (n : Token) → 0 < binary_precedence n.text → Plain n
unfolding binary_precedence eqb
operator-Plain n h = record {
  no_call = other_than n.text "(" h refl;
  no_field = other_than n.text "." h refl;
  no_index = other_than n.text "[" h refl;
  no_scope = other_than n.text "::" h refl;
  no_brace = other_than n.text "{" h refl;
}

pub precedence_le : (t : Bytes) → binary_precedence t ≤ 6
unfolding binary_precedence
precedence_le t = ground arith

-- What stands behind an expression: no part of an operand, and no assignment.
pub record Follows (end : Bytes) (n : Token) : Type 0 where
  pub plain : Plain n
  pub no_assignment : is n.text "=" && not (is end "=") ≡ false

pub operator-Follows : (end : Bytes) (n : Token) → 0 < binary_precedence n.text → Follows end n
unfolding binary_precedence eqb
operator-Follows end n h =
    let other : is n.text "=" ≡ false = other_than n.text "=" h refl in
    record { plain = operator-Plain n h; no_assignment = rw other }

pub OrFuel-bind :
    {A B : Type 0} {m : Outcome A} {a : A} {t : State} (k : A → M B) {r : Outcome B}
    → OrFuel m (ok a t)
    → OrFuel (k a t) r
    → OrFuel (bind m k) r
OrFuel-bind k (inl e) (inl x) = inl (ap (λ m. bind m k) e ∙ x)
OrFuel-bind k (inl e) (inr x) = inr (ap (λ m. bind m k) e ∙ x)
OrFuel-bind k (inr e) x = inr (ap (λ m. bind m k) e)

-- The same with a run behind it that is not known to return.
pub bind-then :
    {A B : Type 0} {m : Outcome A} {a : A} {t : State} (k : A → M B) {r : Outcome B}
    → OrFuel m (ok a t)
    → k a t ≡ r
    → OrFuel (bind m k) r
bind-then k e x = OrFuel-bind k e (inl x)

-- An operand, with the loop of `parse_binary` behind it.
abbrev start : ℕ → ℕ → Bytes → M Bytes
start f p end =
    unary_expr f end >>= λ operand. postfix f operand >>= λ first. binary_loop f p end first

-- What `parse_binary` does behind that loop.
abbrev assign : ℕ → Bytes → Bytes → M Bytes
assign f end left = do
  next ← peek
  when is next "=" && not (is end "=")
      run (do
        take
        rhs ← expression f end
        pure (cat (codes "(" ∷ left ∷ codes " = " ∷ rhs ∷ codes ")" ∷ [])))
      else pure left

bind_assoc :
    {A B C : Type 0} (m : Outcome A) (k : A → M B) (l : B → M C)
    → bind m (λ a s. bind (k a s) l) ≡ bind (bind m k) l
bind_assoc (ok a s) k l = refl
bind_assoc (throws e s) k l = refl
bind_assoc Outcome.out_of_bounds k l = refl
bind_assoc Outcome.overflow k l = refl
bind_assoc out_of_fuel k l = refl

parse_binary-start :
    (f p : ℕ) (end : Bytes) (s : State)
    → parse_binary (suc f) p end s ≡ bind (start f p end s) (assign f end)
unfolding parse_binary
parse_binary-start f p end s =
    ap (bind (unary_expr f end s))
      (λ i operand t. bind_assoc (postfix f operand t) (binary_loop f p end) (assign f end) i)
    ∙ bind_assoc (unary_expr f end s)
        (λ operand t. bind (postfix f operand t) (binary_loop f p end)) (assign f end)

-- A token at which the loop on the level `p` ends.
abbrev pub stops : ℕ → Token → Bool
stops p n = ltb 0 (binary_precedence n.text) && leb p (binary_precedence n.text)

binary_loop-stops :
    (g p : ℕ) (end v : Bytes) (s : State) (n : Token) (rest : List Token)
    → stops p n ≡ false
    → OrFuel (binary_loop g p end v (at s (n ∷ rest))) (ok v (at s (n ∷ rest)))
unfolding binary_loop peek when◌run◌else◌
binary_loop-stops zero p end v s n rest h = inr refl
binary_loop-stops (suc g) p end v s n rest h = inl (rw h)

assign-Follows :
    (f : ℕ) (end v : Bytes) (s : State) (n : Token) (rest : List Token)
    → Follows end n
    → assign f end v (at s (n ∷ rest)) ≡ ok v (at s (n ∷ rest))
unfolding peek when◌run◌else◌
assign-Follows f end v s n rest w = rw (w.no_assignment)

-- What is proved of an expression of a level: the loop of `parse_binary` goes on behind it with its text
-- to the left, and, where it is an operand, `unary_expr` gives its text.
pub record Good (s : State) (q : ℕ) (e : Tree) (v : Bytes) : Type 0 where
  pub climbs :
      (f p : ℕ) (end : Bytes) (n : Token) (rest : List Token)
      → p ≤ q
      → binary_precedence n.text ≤ q
      → Follows end n
      → (g : ℕ) × OrFuel
          (start f p end (at s (tokens e (n ∷ rest))))
          (binary_loop g p end v (at s (n ∷ rest)))
  pub operand :
      (f : ℕ) (end : Bytes) (n : Token) (rest : List Token)
      → operand_level ≤ q
      → Plain n
      → OrFuel (unary_expr f end (at s (tokens e (n ∷ rest)))) (ok v (at s (n ∷ rest)))

pub parse_binary-Good :
    (f q : ℕ) (end : Bytes) (s : State) {e : Tree} {v : Bytes} (n : Token) (rest : List Token)
    → Good s q e v
    → binary_precedence n.text ≤ q
    → stops q n ≡ false
    → Follows end n
    → OrFuel (parse_binary f q end (at s (tokens e (n ∷ rest)))) (ok v (at s (n ∷ rest)))
unfolding parse_binary
parse_binary-Good zero q end s n rest good low stop w = inr refl
parse_binary-Good (suc f) q end s {e} {v} n rest good low stop w =
    let (g, started) = good.climbs f q end n rest (omega arith) low w in
    let whole = parse_binary-start f q end (at s (tokens e (n ∷ rest))) in
    let done : OrFuel (start f q end (at s (tokens e (n ∷ rest)))) (ok v (at s (n ∷ rest))) =
      elim started [
        | inl same ↦ elim (binary_loop-stops g q end v s n rest stop) [
          | inl ended ↦ inl (same ∙ ended)
          | inr short ↦ inr (same ∙ short)
        ]
        | inr short ↦ inr short
      ] in
    elim (OrFuel-bind (assign f end) done (inl (assign-Follows f end v s n rest w))) [
      | inl x ↦ inl (whole ∙ x)
      | inr x ↦ inr (whole ∙ x)
    ]
