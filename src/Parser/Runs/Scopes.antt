-- ===== src/Parser/Runs/Scopes.antt =====
-- A run in a scope of its own, and a run under another return type.
use demonic_c.Base.{ℕ, ◌+◌, ◌≡◌, refl, ap, [], ◌∷◌, arith, drop}
use demonic_c.Text.{Bytes}
use demonic_c.Parser.State.{State, Outcome, M, bind}
use demonic_c.Parser.Runs.Steps.{Ended, Step, Runs, returns, raises, overflows, Runs-after}

-- `scopes_.emplace_back()` and `scopes_.pop_back()`.
abbrev pub pushed : State → State
pushed s = record s { scopes = [] ∷ s.scopes }

abbrev pub popped : State → State
popped s = record s { scopes = drop 1 s.scopes }

-- A run in a scope of its own, which is dropped behind it: all the scopes are then as before.
pub Runs-scope :
    {A B : Type 0} {j k : ℕ} {s : State} {r : Outcome A} {f : A → M B}
    → Runs j (pushed s) r
    → ((a : A) (t : State) → Step j s t → t.scopes ≡ s.scopes → Runs k t (f a t))
    → Runs (j + k) s (bind r (λ a t. f a (popped t)))
Runs-scope (returns {a} {s' = t} p) h =
    let inside : Step _ _ _ = record {
      shorter = p.shorter;
      ended = p.ended;
      moved = p.moved;
      functions = p.functions;
      structs = p.structs;
      enums = p.enums;
      diagnostics = p.diagnostics;
      outer = ap (drop 1) p.outer;
    } in
    Runs-after inside (h a (popped t) inside p.outer)
Runs-scope (raises p) h = raises (record {
  shorter = p.shorter;
  ended = p.ended;
  moved = p.moved;
  functions = p.functions;
  structs = p.structs;
  enums = p.enums;
  diagnostics = p.diagnostics;
})
Runs-scope overflows h = overflows

-- `current_ret_` set for what follows.
abbrev pub with_ret : Bytes → State → State
with_ret t s = record s { current_ret = t }

pub with_ret-Step : {s : State} (t : Bytes) → Ended s.rest → Step 0 s (with_ret t s)
with_ret-Step t e = record {
  shorter = omega arith;
  ended = e;
  moved = (0, refl);
  functions = refl;
  structs = refl;
  enums = refl;
  diagnostics = refl;
  outer = refl;
}
