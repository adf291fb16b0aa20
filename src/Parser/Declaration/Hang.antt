-- ===== src/Parser/Declaration/Hang.antt =====
-- The loop of `collect_declarations` at an `import` that stands behind the first declaration.
use demonic_c.Base.{ℕ, zero, suc, ◌≡◌, refl, ap, ◌∙◌, List, ◌∷◌, some}
use demonic_c.Text.{codes, eqb, eqb_iff}
use demonic_c.Lexer.{Token}
use demonic_c.Parser.State.{State, out_of_fuel, when◌run◌else◌, expect, fail, throw_error}
use demonic_c.Parser.Runs.{peek-eq, current_line-eq, At}
use demonic_c.Parser.Declaration.{
  attribute_loop, function, declaration, skip_tokens, skip_to_decl, recover, declarations,
}

skip_tokens-import :
    (ts : List Token) (t : Token) (us : List Token)
    → ts ≡ t ∷ us
    → t.text ≡ codes "import"
    → skip_tokens ts ≡ some (t ∷ us)
unfolding skip_tokens eqb
skip_tokens-import ts t us whole p = ap skip_tokens whole ∙ rw p

-- The error of `expect("fn")` is recorded, and `skip_to_decl` stays where it is.
declarations-at_import :
    (f : ℕ) (s : State) (t : Token) (us : List Token)
    → s.rest ≡ t ∷ us
    → t.text ≡ codes "import"
    → declarations f s ≡ out_of_fuel
unfolding declarations when◌run◌else◌ declaration function attribute_loop expect fail throw_error
    recover skip_to_decl eqb
declarations-at_import zero s t us whole p = refl
declarations-at_import (suc zero) s t us whole p = rw (peek-eq s whole, p, peek-eq s whole, p)
declarations-at_import (suc (suc f)) s t us whole p =
    rw (peek-eq s whole, p, peek-eq s whole, p, peek-eq s whole, p, peek-eq s whole, p)
      (rw (current_line-eq s whole, current_line-eq s whole, skip_tokens-import s.rest t us whole p)
        (declarations-at_import (suc f) _ t us refl p))

-- At an `import` the loop does not end: no amount of fuel is enough.
pub declarations_hang :
    (s : State) → At (codes "import") s → (f : ℕ) → declarations f s ≡ out_of_fuel
declarations_hang s here f =
    declarations-at_import f s here.token here.others here.whole ((eqb_iff _ _).0 here.text)
