-- ===== src/Parser/Declaration/Round.antt =====
-- One round of the loop of `collect_declarations`: the `try` block.
use demonic_c.Base.{
  ℕ, suc, ◌+◌, ◌*◌, ◌≤◌, ◌≡◌, refl, ◌∙◌, true, false, inl, inr, List, [], ◌∷◌, ◌++◌, Bool-cases,
  arith, length, drop,
}
use demonic_c.Text.{Bytes, codes, eqb, is}
use demonic_c.Result.{Error}
use demonic_c.Lexer.{Token}
use demonic_c.Parser.State.{State, Outcome, ok, throws, overflow, bind, advance, when◌run◌else◌}
use demonic_c.Parser.Runs.{
  Ended, Step, Runs, Runs-bind, peek-eq, At, expect-At, take-At, expect-Runs, moved_on,
}
use demonic_c.Parser.Declaration.Total.{
  struct_rest-Runs, enum_rest-Runs, attribute_rest-Runs, attribute_loop-Runs, function_rest-Runs,
}
use demonic_c.Parser.Declaration.{structure, parse_enum, attribute_loop, function, declaration}

-- `s'` has `k` tokens fewer than `s` at least, and is further on in the same list.
pub record Moves (k : ℕ) (s s' : State) : Type 0 where
  pub shorter : k + length s'.rest ≤ length s.rest
  pub ended : Ended s'.rest
  pub moved : (n : ℕ) × (s'.rest ≡ drop n s.rest)

abbrev pub NoStart : List Token → Type 0
NoStart [] = Unit
NoStart (t ∷ ts) =
    (is t.text "struct" ≡ false) × (is t.text "enum" ≡ false) × (is t.text "fn" ≡ false)

-- The end of one declaration: it has passed a token, also where it throws, or it throws at a token
-- that begins no declaration.
pub data Declares (s : State) : Outcome (Unit {0}) → Type 0 where
  returns : {s' : State} → Moves 1 s s' → Declares s (ok tt s')
  raises : {e : Error} {s' : State} → Moves 1 s s' → Declares s (throws e s')
  refuses : {e : Error} {s' : State} → Moves 0 s s' → NoStart s.rest → Declares s (throws e s')
  overflows : Declares s overflow

-- A declaration whose first token is passed for certain.
module _ {A : Type 0} (g : A → State → State)
    (same : (a : A) (s : State) → (g a s).rest ≡ s.rest) where
  kept-Moves : {k : ℕ} {s t : State} (a : A) → Moves k s t → Moves k s (g a t)
  kept-Moves {s = s} {t = t} a p = record {
    shorter = rw (same a t) p.shorter;
    ended = rw (same a t) p.ended;
    moved = (p.moved.0, same a t ∙ p.moved.1);
  }

  Runs-Declares :
      {k : ℕ} {s t : State} {r : Outcome A}
      → Step 1 s t
      → Runs k t r
      → Declares s (bind r (λ a u. ok tt (g a u)))
  Runs-Declares p (Runs.returns {a} q) = returns (
      kept-Moves a (record {
        shorter = omega (arith, p.shorter, q.shorter);
        ended = q.ended;
        moved = moved_on p.moved q.moved;
      }))
  Runs-Declares p (Runs.raises q) = raises (record {
    shorter = omega (arith, p.shorter, q.shorter);
    ended = q.ended;
    moved = moved_on p.moved q.moved;
  })
  Runs-Declares p Runs.overflows = overflows

  Runs-refuses :
      {k : ℕ} {s : State} {r : Outcome A}
      → Runs (suc k) s r
      → NoStart s.rest
      → Declares s (bind r (λ a u. ok tt (g a u)))
  Runs-refuses (Runs.returns {a} q) no_start = returns (
      kept-Moves a
        (record { shorter = omega (arith, q.shorter); ended = q.ended; moved = q.moved }))
  Runs-refuses (Runs.raises q) no_start =
      refuses (record { shorter = omega (arith, q.shorter); ended = q.ended; moved = q.moved })
        no_start
  Runs-refuses Runs.overflows no_start = overflows

-- One declaration, on enough fuel, with the current token `t`.
module _ (f : ℕ) (s : State) (e : Ended s.rest) (h : 8 * length s.rest + 1 ≤ suc f) (t : Token)
    (us : List Token) (whole : s.rest ≡ t ∷ us) where
  here : {v : Bytes} → eqb t.text v ≡ true → At v s
  here p = record { token = t; others = us; whole = whole; text = p }

  struct-Declares :
      is t.text "struct" ≡ true
      → Declares s
          (bind (structure (suc f) s) (λ d u. ok tt (record u { structs = u.structs ++ (d ∷ []) })))
  unfolding structure
  struct-Declares p =
      let (read, step) = expect-At s (codes "struct") refl e (here p) in
      rw read (
        Runs-Declares (λ d u. record u { structs = u.structs ++ (d ∷ []) }) (λ d u. refl) step
          (struct_rest-Runs (suc f) (advance s) step.ended (omega (arith, step.shorter))))

  enum-Declares :
      is t.text "enum" ≡ true
      → Declares s
          (bind (parse_enum (suc f) s) (λ d u. ok tt (record u { enums = u.enums ++ (d ∷ []) })))
  unfolding parse_enum
  enum-Declares p =
      let (read, step) = expect-At s (codes "enum") refl e (here p) in
      rw read (
        Runs-Declares (λ d u. record u { enums = u.enums ++ (d ∷ []) }) (λ d u. refl) step
          (enum_rest-Runs (suc f) (advance s) step.ended (omega (arith, step.shorter))))

  function-Declares :
      is t.text "struct" ≡ false
      → is t.text "enum" ≡ false
      → Declares s (
          bind
            (function (suc f) s)
            (λ d u. ok tt (record u { functions = u.functions ++ (d ∷ []) })))
  unfolding function attribute_loop when◌run◌else◌
  function-Declares not_struct not_enum = elim (Bool-cases (is t.text "#[")) [
    | inl p ↦
        let (text, read, step) = take-At s (codes "#[") refl e (here p) in
        rw (peek-eq s whole) (
          rw p (
            rw read (
              Runs-Declares (λ d u. record u { functions = u.functions ++ (d ∷ []) }) (λ d u. refl)
                step
                (Runs-bind
                  (Runs-bind (attribute_rest-Runs (advance s) step.ended)
                    λ attr s₁ p₁. attribute_loop-Runs f _ s₁ p₁.ended (omega (arith, step.shorter)))
                  λ attrs s₂ p₂. Runs-bind (expect-Runs s₂ (codes "fn") refl p₂.ended) λ _ s₃ p₃.
                    function_rest-Runs (suc f) attrs s₃ p₃.ended (omega (arith, step.shorter))))))
    | inr p ↦ rw (peek-eq s whole) (
        rw p (elim (Bool-cases (is t.text "fn")) [
          | inl q ↦
              let (read, step) = expect-At s (codes "fn") refl e (here q) in
              rw read (
                Runs-Declares (λ d u. record u { functions = u.functions ++ (d ∷ []) })
                  (λ d u. refl) step
                  (function_rest-Runs (suc f) [] (advance s) step.ended
                    (omega (arith, step.shorter))))
          | inr q ↦
              Runs-refuses (λ d u. record u { functions = u.functions ++ (d ∷ []) }) (λ d u. refl)
                (Runs-bind (expect-Runs s (codes "fn") refl e)
                  λ _ s₁ p₁. function_rest-Runs (suc f) [] s₁ p₁.ended (omega arith))
                (rw whole (not_struct, not_enum, q))
        ]))
  ]

  pub declaration-Declares : Declares s (declaration (suc f) s)
  unfolding declaration when◌run◌else◌
  declaration-Declares = rw (peek-eq s whole) (elim (Bool-cases (is t.text "struct")) [
    | inl p ↦ rw p (struct-Declares p)
    | inr p ↦ rw p (elim (Bool-cases (is t.text "enum")) [
      | inl q ↦ rw q (enum-Declares q)
      | inr q ↦ rw q (function-Declares p q)
    ])
  ])
