-- ===== src/Parser/Declaration/Loop.antt =====
-- The loop of `collect_declarations`, with `skip_to_decl` behind an error.
use demonic_c.Base.{
  ||-eq-false, ℕ, zero, suc, ◌+◌, ◌*◌, ◌≤◌, ◌≡◌, refl, sym, ap, ◌∙◌, subst, false, ◌||◌, inl, inr,
  List, [], ◌∷◌, some, Bool-cases, arith, length, length-drop_le, drop, All, All-drop,
}
use demonic_c.Text.{Bytes, codes, eqb_iff, is}
use demonic_c.Result.{runtime_error, out_of_range}
use demonic_c.Lexer.{Token}
use demonic_c.Parser.State.{State, M, Outcome, ok, throws, overflow, bind, when◌run◌else◌}
use demonic_c.Parser.Runs.{Ended, current, peek-eq, current_line-eq, At, moved_on}
use demonic_c.Parser.Declaration.{
  starts_decl, skip_tokens, skip_to_decl, recover, catch, declarations,
}
use demonic_c.Parser.Declaration.Round.{
  Moves, NoStart, Declares, returns, raises, refuses, overflows, declaration-Declares,
}

-- Where `skip_to_decl` stops.
record Skips (ts us : List Token) : Type 0 where
  shorter : length us ≤ length ts
  ended : Ended us
  moved : (n : ℕ) × (us ≡ drop n ts)

Ended-after : (t : Token) (ts : List Token) → Ended (t ∷ ts) → is t.text "<eof>" ≡ false → Ended ts
Ended-after t [] e p = let q = (eqb_iff t.text (codes "<eof>")).1 e in cc
Ended-after t (u ∷ us) e p = e

skip_tokens-Skips :
    (ts : List Token) → Ended ts → (us : List Token) × (skip_tokens ts ≡ some us) × Skips ts us
unfolding skip_tokens
skip_tokens-Skips [] e = absurd e
skip_tokens-Skips (t ∷ ts) e = elim (Bool-cases (is t.text "<eof>" || starts_decl t.text)) [
  | inl p ↦ (t ∷ ts, rw p, record { shorter = omega arith; ended = e; moved = (0, refl) })
  | inr p ↦
      let (us, found, skips) = skip_tokens-Skips ts (Ended-after t ts e (||-eq-false _ _ p).0) in
      (
        us,
        rw p found,
        record {
          shorter = omega (arith, skips.shorter);
          ended = skips.ended;
          moved = (suc skips.moved.0, skips.moved.1);
        },
      )
]

-- The end of the `try` block and its handler: a token is passed, or the error is not caught.
data Recovers (s : State) : Outcome (Unit {0}) → Type 0 where
  goes_on : {s' : State} → Moves 1 s s' → Recovers s (ok tt s')
  uncaught : {s' : State} → Recovers s (throws out_of_range s')
  overflowed : Recovers s overflow

-- The handler passes a token, if the throw did or if it starts where no declaration does.
recover-Recovers :
    (s s' : State) (m : Bytes)
    → Moves 0 s s'
    → ((us : List Token)
        → Skips s'.rest us
        → skip_tokens s'.rest ≡ some us
        → 1 + length us ≤ length s.rest)
    → Recovers s (recover m s')
unfolding recover skip_to_decl
recover-Recovers s s' m p h =
    let (t, us, whole) = current s'.rest p.ended in
    let (vs, found, skips) = skip_tokens-Skips s'.rest p.ended in
    rw (current_line-eq s' whole) (
      rw found (
        goes_on (record {
          shorter = h vs skips found;
          ended = skips.ended;
          moved = moved_on p.moved skips.moved;
        })))

abbrev pub NoImport : List Token → Type 0
NoImport = All (λ t. is t.text "import" ≡ false)

skip_tokens-at :
    (t : Token) (us : List Token)
    → is t.text "<eof>" ≡ false
    → is t.text "import" ≡ false
    → NoStart (t ∷ us)
    → skip_tokens (t ∷ us) ≡ skip_tokens us
unfolding skip_tokens
skip_tokens-at t us p q (a, b, c) = rw (p, a, b, c, q)

skip_tokens-le : (ts vs : List Token) → skip_tokens ts ≡ some vs → length vs ≤ length ts
unfolding skip_tokens
skip_tokens-le [] vs h = cc
skip_tokens-le (t ∷ ts) vs h = ground (arith, skip_tokens-le ts vs)

-- A throw that passed no token was at a token that begins no declaration, so the handler passes it.
passes_token :
    (s s' : State) (t : Token) (us : List Token)
    → s.rest ≡ t ∷ us
    → is t.text "<eof>" ≡ false
    → is t.text "import" ≡ false
    → (n : ℕ) × (s'.rest ≡ drop n s.rest)
    → NoStart s.rest
    → (vs : List Token) → Skips s'.rest vs
    → skip_tokens s'.rest ≡ some vs
    → 1 + length vs ≤ length s.rest
passes_token s s' t us whole p q (zero, same) no_start vs skips found =
    let here : skip_tokens us ≡ some vs =
      sym (skip_tokens-at t us p q (subst NoStart whole no_start))
      ∙ ap skip_tokens (sym whole)
      ∙ ap skip_tokens (sym same)
      ∙ found in
    rw whole (omega (arith, skip_tokens-le us vs here))
passes_token s s' t us whole p q (suc n, same) no_start vs skips found =
    let less : length s'.rest ≤ length us =
      subst (λ ts. length ts ≤ length us) (sym (same ∙ ap (drop (suc n)) whole))
        (length-drop_le n us) in
    rw whole (omega (arith, less, skips.shorter))

catch-Recovers :
    (s : State) (t : Token) (us : List Token)
    → s.rest ≡ t ∷ us
    → is t.text "<eof>" ≡ false
    → is t.text "import" ≡ false
    → Ended s.rest
    → {r : Outcome (Unit {0})} → Declares s r
    → Recovers s (catch r)
catch-Recovers s t us whole not_end not_import e (returns p) = goes_on p
catch-Recovers s t us whole not_end not_import e (raises {e = runtime_error m} {s' = s'} p) =
    recover-Recovers s s' m
      (record { shorter = omega (arith, p.shorter); ended = p.ended; moved = p.moved })
      (λ vs skips found. omega (arith, p.shorter, skips.shorter))
catch-Recovers s t us whole not_end not_import e (raises {e = out_of_range} p) = uncaught
catch-Recovers s t us whole not_end not_import e
      (refuses {e = runtime_error m} {s' = s'} p no_start) =
    recover-Recovers s s' m p (passes_token s s' t us whole not_end not_import p.moved no_start)
catch-Recovers s t us whole not_end not_import e (refuses {e = out_of_range} p no_start) = uncaught
catch-Recovers s t us whole not_end not_import e overflows = overflowed

-- What the loop ends in: the end marker is the current token, or a literal is too big for
-- `std::stoll`, or folding a constant overflows. A syntax error does not end it.
pub data Finishes : Outcome (Unit {0}) → Type 0 where
  at_end : {s : State} → At (codes "<eof>") s → Finishes (ok tt s)
  too_big : {s : State} → Finishes (throws out_of_range s)
  folds_over : Finishes overflow

Recovers-then :
    {s : State} {r : Outcome (Unit {0})} {k : M (Unit {0})}
    → Recovers s r
    → ((s' : State) → Moves 1 s s' → Finishes (k s'))
    → Finishes (bind r (λ _. k))
Recovers-then (goes_on {s'} p) h = h s' p
Recovers-then uncaught h = too_big
Recovers-then overflowed h = folds_over

-- On a list of tokens that ends with the end marker and has no `import` in it, the loop ends, on eight
-- units of fuel for each token and two more, and every syntax error in it is caught: it comes to the
-- end marker, or throws `std::out_of_range`, or meets a signed overflow in a folded constant.
pub declarations_finish :
    (f : ℕ) (s : State)
    → Ended s.rest
    → NoImport s.rest
    → 8 * length s.rest + 2 ≤ f
    → Finishes (declarations f s)
unfolding declarations when◌run◌else◌
declarations_finish zero s e n h = absurd (omega arith)
declarations_finish (suc zero) s e n h = absurd (omega arith)
declarations_finish (suc (suc f)) s e n h =
    let (t, us, whole) = current s.rest e in
    rw (peek-eq s whole) (elim (Bool-cases (is t.text "<eof>")) [
      | inl p ↦ rw p (at_end (record { token = t; others = us; whole = whole; text = p }))
      | inr p ↦ rw p (
          Recovers-then
            (catch-Recovers s t us whole p (subst NoImport whole n).0 e
              (declaration-Declares f s e (omega arith) t us whole))
            (λ s' m.
              declarations_finish (suc f) s' m.ended
                (subst NoImport (sym m.moved.1) (All-drop _ m.moved.0 s.rest n))
                (omega (arith, m.shorter))))
    ])
