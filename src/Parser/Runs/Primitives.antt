-- ===== src/Parser/Runs/Primitives.antt =====
-- The primitives on the token list, run.
use demonic_c.Base.{
  ℕ, ◌≡◌, ◌≢◌, refl, sym, ap, ◌∙◌, Bool, true, false, List, [], ◌∷◌, if◌then◌else◌, Bool-cases, inl,
  inr, arith, drop,
}
use demonic_c.Text.{Bytes, codes, eqb, eqb_iff, is, front_is}
use demonic_c.Lexer.{Token}
use demonic_c.Parser.State.{
  State, ok, M, bind, advance, when◌run◌else◌, read_token, current_line, peek, fail, take, expect,
  skip_if, type_warn, bind_in, bind_type, Scope,
}
use demonic_c.Parser.Runs.Steps.{
  Ended, Step, Runs, returns, Runs-weaken, Runs-bind, pure-Runs, throw_error-Runs,
}

pub current : (ts : List Token) → Ended ts → (t : Token) × (us : List Token) × (ts ≡ t ∷ us)
current [] e = absurd e
current (t ∷ us) e = (t, us, refl)

pub current_line-eq :
    (s : State) {t : Token} {us : List Token} → s.rest ≡ t ∷ us → current_line s ≡ ok t.line s
unfolding current_line
current_line-eq s e = ap (λ ts. read_token (λ t. t.line) ts s) e

pub peek-eq : (s : State) {t : Token} {us : List Token} → s.rest ≡ t ∷ us → peek s ≡ ok t.text s
unfolding peek
peek-eq s e = ap (λ ts. read_token (λ t. t.text) ts s) e

Ended-tail : (t : Token) (us : List Token) → Ended (t ∷ us) → t.text ≢ codes "<eof>" → Ended us
Ended-tail t [] e h = absurd (h e)
Ended-tail t (u ∷ us) e h = e

-- `++index_` on a token that is not the last.
advance-Step :
    (s : State) (t : Token) (us : List Token)
    → Ended s.rest
    → s.rest ≡ t ∷ us
    → t.text ≢ codes "<eof>"
    → Step 1 s (advance s)
advance-Step s t us e whole h = record {
  shorter = rw whole (omega arith);
  ended = rw whole (Ended-tail t us (rw whole at e) h);
  moved = (1, refl);
  functions = refl;
  structs = refl;
  enums = refl;
  diagnostics = refl;
  outer = refl;
}

module _ {A : Type 0} where
  pub fail-Runs : (s : State) (k : ℕ) (m : Bytes) → Ended s.rest → Runs {A = A} k s (fail m s)
  unfolding fail
  fail-Runs s k m e =
      let (t, us, whole) = current s.rest e in rw (current_line-eq s whole) (throw_error-Runs k _ e)

pub peek-Runs : (s : State) → Ended s.rest → Runs 0 s (peek s)
peek-Runs s e = let (t, us, whole) = current s.rest e in rw (peek-eq s whole) (pure-Runs t.text e)

pub type_warn-Runs : (s : State) (m : Bytes) → Ended s.rest → Runs 0 s (type_warn m s)
unfolding type_warn
type_warn-Runs s m e =
    let (t, us, whole) = current s.rest e in
    rw (current_line-eq s whole) (
      returns (record {
        shorter = omega arith;
        ended = e;
        moved = (0, refl);
        functions = refl;
        structs = refl;
        enums = refl;
        diagnostics = refl;
        outer = refl;
      }))

-- A branch between two actions.
pub when-Runs :
    {A : Type 0} (k : ℕ) (s : State) (b : Bool) (m n : M A)
    → (b ≡ true → Runs k s (m s))
    → (b ≡ false → Runs k s (n s))
    → Runs k s ((when b run m else n) s)
unfolding when◌run◌else◌
when-Runs k s true m n f g = f refl
when-Runs k s false m n f g = g refl

eq_of_eqb : {a b : Bytes} → eqb a b ≡ true → a ≡ b
eq_of_eqb {a} {b} h = (eqb_iff a b).0 h

ne_of_eqb : {a b : Bytes} → eqb a b ≡ false → a ≢ b
ne_of_eqb {a} {b} h p = cc ((eqb_iff a b).1 p)

eqb-false : {a b : Bytes} → (a ≡ b → ⊥) → eqb a b ≡ false
eqb-false {a} {b} h = elim (Bool-cases (eqb a b)) [ inl e ↦ absurd (h (eq_of_eqb e)) | inr e ↦ e ]

-- A text that does not begin with `<` is no end marker.
eof-ne : {v : Bytes} → front_is b'<' v ≡ false → v ≢ codes "<eof>"
eof-ne h p = cc

pub take-Runs : (s : State) → Ended s.rest → Runs 1 s (take s)
unfolding take
take-Runs s e =
    let (t, us, whole) = current s.rest e in
    rw (peek-eq s whole) (
      when-Runs 1 s (is t.text "<eof>") _ _ (λ h. fail-Runs s 1 _ e)
        (λ h. returns (advance-Step s t us e whole (ne_of_eqb h))))

pub expect-Runs :
    (s : State) (v : Bytes) → front_is b'<' v ≡ false → Ended s.rest → Runs 1 s (expect v s)
unfolding expect
expect-Runs s v not_end e =
    let (t, us, whole) = current s.rest e in
    rw (peek-eq s whole) (
      when-Runs 1 s (eqb t.text v) _ _
        (λ h. returns (advance-Step s t us e whole (λ p. eof-ne not_end (sym (eq_of_eqb h) ∙ p))))
        (λ h. fail-Runs s 1 _ e))

pub skip_if-Runs : (s : State) (v : Bytes) → Ended s.rest → Runs 0 s (skip_if v s)
unfolding skip_if
skip_if-Runs s v e =
    let (t, us, whole) = current s.rest e in
    rw (peek-eq s whole) (
      when-Runs 0 s (eqb t.text v) _ _
        (λ h.
          Runs-weaken (omega arith) (Runs-bind (take-Runs s e) (λ a s₁ p. pure-Runs tt p.ended)))
        (λ h. pure-Runs tt e))

-- Reading the current token changes nothing.
pub peek_then :
    {B : Type 0} {k : ℕ} (s : State) (f : Bytes → M B)
    → Ended s.rest
    → ((next : Bytes) → Runs k s (f next s))
    → Runs k s (bind (peek s) f)
peek_then s f e h = let (t, us, whole) = current s.rest e in rw (peek-eq s whole) (h t.text)

bind_in_outer :
    (name type : Bytes) (scopes : List Scope) → drop 1 (bind_in name type scopes) ≡ drop 1 scopes
bind_in_outer name type [] = refl
bind_in_outer name type (scope ∷ scopes) = refl

pub bind_type-Runs :
    (s : State) (name type : Bytes) → Ended s.rest → Runs 0 s (bind_type name type s)
unfolding bind_type
bind_type-Runs s name type e = returns (record {
  shorter = omega arith;
  ended = e;
  moved = (0, refl);
  functions = refl;
  structs = refl;
  enums = refl;
  diagnostics = refl;
  outer = bind_in_outer name type s.scopes;
})

-- The text of the current token is `v`.
pub record At (v : Bytes) (s : State) : Type 0 where
  pub token : Token
  pub others : List Token
  pub whole : s.rest ≡ token ∷ others
  pub text : eqb token.text v ≡ true

-- At the expected token nothing is thrown.
pub expect-At :
    (s : State) (v : Bytes)
    → front_is b'<' v ≡ false
    → Ended s.rest
    → At v s
    → (expect v s ≡ ok tt (advance s)) × Step 1 s (advance s)
unfolding expect when◌run◌else◌
expect-At s v not_end e here = (
  rw (peek-eq s here.whole, here.text),
  advance-Step s here.token here.others e here.whole
      (λ p. eof-ne not_end (sym (eq_of_eqb here.text) ∙ p)),
)

pub take-At :
    (s : State) (v : Bytes)
    → front_is b'<' v ≡ false
    → Ended s.rest
    → At v s
    → (t : Bytes) × (take s ≡ ok t (advance s)) × Step 1 s (advance s)
unfolding take when◌run◌else◌
take-At s v not_end e here =
    let not_eof =
      λ (p : here.token.text ≡ codes "<eof>"). eof-ne not_end (sym (eq_of_eqb here.text) ∙ p) in
    (
      here.token.text,
      rw (peek-eq s here.whole, eqb-false not_eof),
      advance-Step s here.token here.others e here.whole not_eof,
    )
