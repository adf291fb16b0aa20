-- ===== src/Parser/Load/Settles.antt =====
-- Runs of `collect_declarations` that end.
use demonic_c.Base.{◌+◌, ◌*◌, ◌≡◌, refl, List, length, arith}
use demonic_c.Text.{Bytes}
use demonic_c.Result.{Error}
use demonic_c.Lexer.{Token}
use demonic_c.Parser.State.{State, M, Outcome, bind}
use demonic_c.Parser.Runs.{Ended}
use demonic_c.Parser.Import.{parse_imports}
use demonic_c.Parser.Declaration.{declarations}
use demonic_c.Parser.Declaration.Loop.{
  NoImport, Finishes, at_end, too_big, folds_over, declarations_finish,
}
use demonic_c.Parser.Source.{Ended-nonempty}

-- A run that returns in such a state, or throws, or meets a signed overflow.
pub data Settles (P : State → Type 0) : Outcome (List Bytes) → Type 0 where
  returned : {l : List Bytes} {u : State} → P u → Settles P (Outcome.ok l u)
  raised : {e : Error} {u : State} → Settles P (Outcome.throws e u)
  folded_over : Settles P Outcome.overflow

abbrev pub Anywhere : State → Type 0
Anywhere u = Unit {0}

abbrev pub Left : List Token → State → Type 0
Left ts u = u.rest ≡ ts

-- No `import` stands behind the imports in front.
abbrev pub ImportsFirst : State → Type 0
ImportsFirst s =
    (mods : List Bytes) (t : State)
    → parse_imports (length s.rest + 1) s ≡ Outcome.ok mods t
    → NoImport t.rest

pub Settles-bind :
    {P Q : State → Type 0} {m : Outcome (List Bytes)} {k : List Bytes → M (List Bytes)}
    → Settles P m
    → ((l : List Bytes) (u : State) → m ≡ Outcome.ok l u → P u → Settles Q (k l u))
    → Settles Q (bind m k)
Settles-bind (returned {l} {u} p) h = h l u refl p
Settles-bind raised h = raised
Settles-bind folded_over h = folded_over

pub declarations-Settles :
    (loaded : List Bytes) (s : State)
    → Ended s.rest
    → NoImport s.rest
    → Settles Anywhere (bind (declarations (10 * length s.rest) s) (λ _ v. Outcome.ok loaded v))
declarations-Settles loaded s e n =
    ended (declarations_finish (10 * length s.rest) s e n (omega (arith, Ended-nonempty s.rest e)))
  where
    ended :
        {r : Outcome (Unit {0})}
        → Finishes r
        → Settles Anywhere (bind r (λ _ v. Outcome.ok loaded v))
    ended (at_end p) = returned tt
    ended too_big = raised
    ended folds_over = folded_over
