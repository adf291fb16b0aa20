-- ===== src/Parser/Runs/Steps.antt =====
-- Steps between states of the parser, and what a run ends in.
use demonic_c.Base.{ℕ, ◌+◌, ◌≤◌, ◌≡◌, refl, ap, ◌∙◌, List, [], ◌∷◌, arith, length, drop, drop-drop}
use demonic_c.Text.{Bytes, codes}
use demonic_c.Result.{Error}
use demonic_c.Lexer.{Token}
use demonic_c.Parser.State.{State, Outcome, ok, throws, overflow, M, bind, throw_error}

-- The tokens that are left end with the end marker.
abbrev pub Ended : List Token → Type 0
Ended [] = ⊥
Ended (t ∷ []) = t.text ≡ codes "<eof>"
Ended (t ∷ u ∷ ts) = Ended (u ∷ ts)

-- `s'` comes after `s`, with `k` tokens fewer at least. All scopes but the innermost are the same.
pub record Step (k : ℕ) (s s' : State) : Type 0 where
  pub shorter : k + length s'.rest ≤ length s.rest
  pub ended : Ended s'.rest
  pub moved : (n : ℕ) × (s'.rest ≡ drop n s.rest)
  pub functions : s'.functions ≡ s.functions
  pub structs : s'.structs ≡ s.structs
  pub enums : s'.enums ≡ s.enums
  pub diagnostics : s'.diagnostics ≡ s.diagnostics
  pub outer : drop 1 s'.scopes ≡ drop 1 s.scopes

-- The state where a function throws: the tokens have not grown.
pub record Stopped (s s' : State) : Type 0 where
  pub shorter : length s'.rest ≤ length s.rest
  pub ended : Ended s'.rest
  pub moved : (n : ℕ) × (s'.rest ≡ drop n s.rest)
  pub functions : s'.functions ≡ s.functions
  pub structs : s'.structs ≡ s.structs
  pub enums : s'.enums ≡ s.enums
  pub diagnostics : s'.diagnostics ≡ s.diagnostics

-- A run from `s` that returns with `k` tokens fewer, or throws, or meets a signed overflow. It does
-- not read behind the tokens, and it does not run out of fuel.
pub data Runs {A : Type 0} (k : ℕ) (s : State) : Outcome A → Type 0 where
  returns : {a : A} {s' : State} → Step k s s' → Runs k s (ok a s')
  raises : {e : Error} {s' : State} → Stopped s s' → Runs k s (throws e s')
  overflows : Runs k s overflow

-- A run that returns what has a property, or throws, or meets a signed overflow.
pub data Yields {A : Type 0} (P : A → State → Type 0) : Outcome A → Type 0 where
  yields : {a : A} {s' : State} → P a s' → Yields P (ok a s')
  throws_it : {e : Error} {s' : State} → Yields P (throws e s')
  overflows_it : Yields P overflow

pub Runs-Yields :
    {A : Type 0} (P : A → State → Type 0) {k : ℕ} {s : State} {r : Outcome A}
    → Runs k s r
    → ((a : A) (s' : State) → r ≡ ok a s' → P a s')
    → Yields P r
Runs-Yields P (returns p) each = yields (each _ _ refl)
Runs-Yields P (raises p) each = throws_it
Runs-Yields P overflows each = overflows_it

pub moved_on :
    {xs ys zs : List Token}
    → (m : ℕ) × (ys ≡ drop m xs)
    → (n : ℕ) × (zs ≡ drop n ys)
    → (k : ℕ) × (zs ≡ drop k xs)
moved_on {xs} (m, p) (n, q) = (m + n, q ∙ ap (drop n) p ∙ drop-drop m n xs)

pub Step-trans : {j k : ℕ} {s t u : State} → Step j s t → Step k t u → Step (j + k) s u
Step-trans p q = record {
  shorter = omega (arith, p.shorter, q.shorter);
  ended = q.ended;
  moved = moved_on p.moved q.moved;
  functions = q.functions ∙ p.functions;
  structs = q.structs ∙ p.structs;
  enums = q.enums ∙ p.enums;
  diagnostics = q.diagnostics ∙ p.diagnostics;
  outer = q.outer ∙ p.outer;
}

pub Step-Stopped : {j : ℕ} {s t u : State} → Step j s t → Stopped t u → Stopped s u
Step-Stopped p q = record {
  shorter = omega (arith, p.shorter, q.shorter);
  ended = q.ended;
  moved = moved_on p.moved q.moved;
  functions = q.functions ∙ p.functions;
  structs = q.structs ∙ p.structs;
  enums = q.enums ∙ p.enums;
  diagnostics = q.diagnostics ∙ p.diagnostics;
}

module _ {A : Type 0} where
  pub Runs-weaken : {j k : ℕ} {s : State} {r : Outcome A} → k ≤ j → Runs j s r → Runs k s r
  Runs-weaken h (returns p) = returns (record {
    shorter = omega (arith, p.shorter);
    ended = p.ended;
    moved = p.moved;
    functions = p.functions;
    structs = p.structs;
    enums = p.enums;
    diagnostics = p.diagnostics;
    outer = p.outer;
  })
  Runs-weaken h (raises p) = raises p
  Runs-weaken h overflows = overflows

  -- A run behind a step.
  pub Runs-after :
      {j k : ℕ} {s t : State} {r : Outcome A} → Step j s t → Runs k t r → Runs (j + k) s r
  Runs-after p (returns q) = returns (Step-trans p q)
  Runs-after p (raises q) = raises (Step-Stopped p q)
  Runs-after p overflows = overflows

pub Runs-bind :
    {A B : Type 0} {j k : ℕ} {s : State} {r : Outcome A} {f : A → M B}
    → Runs j s r
    → ((a : A) (t : State) → Step j s t → Runs k t (f a t))
    → Runs (j + k) s (bind r f)
Runs-bind (returns {a} {s' = t} p) h = Runs-after p (h a t p)
Runs-bind (raises p) h = raises p
Runs-bind overflows h = overflows

pub Step-refl : {s : State} → Ended s.rest → Step 0 s s
Step-refl e = record {
  shorter = omega arith;
  ended = e;
  moved = (0, refl);
  functions = refl;
  structs = refl;
  enums = refl;
  diagnostics = refl;
  outer = refl;
}

pub pure-Runs : {A : Type 0} {s : State} (a : A) → Ended s.rest → Runs 0 s (ok a s)
pure-Runs a e = returns (Step-refl e)

pub Stopped-refl : {s : State} → Ended s.rest → Stopped s s
Stopped-refl e = record {
  shorter = omega arith;
  ended = e;
  moved = (0, refl);
  functions = refl;
  structs = refl;
  enums = refl;
  diagnostics = refl;
}

module _ {A : Type 0} where
  pub throw_error-Runs :
      {s : State} (k : ℕ) (m : Bytes) → Ended s.rest → Runs {A = A} k s (throw_error m s)
  unfolding throw_error
  throw_error-Runs k m e = raises (Stopped-refl e)
