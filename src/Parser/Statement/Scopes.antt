-- ===== src/Parser/Statement/Scopes.antt =====
-- The scopes of class `Parser` around a block.
use demonic_c.Base.{
  ℕ, zero, suc, ◌+◌, ◌*◌, ◌≤◌, ◌≡◌, refl, ap, ◌∙◌, subst, false, List, [], inl, inr, arith, length,
}
use demonic_c.Text.{Bytes, codes, eqb}
use demonic_c.Parser.State.{State, ok, peek, expect, fail, throw_error, current_line, advance}
use demonic_c.Parser.Returns.{bind-eq-ok, when-eq-ok, peek-same}
use demonic_c.Parser.Runs.{
  Ended, Step, Runs, returns, pushed, popped, expect-Runs, Yields, Runs-Yields,
}
use demonic_c.Parser.Statement.Total.{block-Runs, block_inner-Runs}
use demonic_c.Parser.Statement.{block, block_inner}

fail-eq-ok : {A : Type 0} (m : Bytes) (s : State) {a : A} {t : State} → fail m s ≡ ok a t → ⊥
unfolding fail throw_error
fail-eq-ok m s e = let (_, _, _, e₁) = bind-eq-ok (current_line s) _ e in cc

-- Passing an expected token leaves the scopes.
expect-scopes :
    (v : Bytes) (s : State) {a : Unit {0}} {t : State} → expect v s ≡ ok a t → t.scopes ≡ s.scopes
unfolding expect
expect-scopes v s {t = t} e =
    let (text, s₁, read, e₁) = bind-eq-ok (peek s) _ e in
    elim (when-eq-ok (eqb text v) _ _ e₁) [
      | inl (_, done) ↦
          let last : t ≡ advance s₁ = cc in
          ap State.scopes last ∙ ap State.scopes (peek-same s read)
      | inr (_, failed) ↦ absurd (fail-eq-ok _ s₁ failed)
    ]

Runs-Step : {A : Type 0} {k : ℕ} {s t : State} {a : A} → Runs k s (ok a t) → Step k s t
Runs-Step (returns p) = p

-- Where `block` returns, on enough fuel, the scopes are those from before it: what the block declared is
-- gone, and no outer scope has changed.
block-scopes :
    (f : ℕ) (s : State) {stmts : List Bytes} {t : State}
    → Ended s.rest
    → 8 * length s.rest + 1 ≤ f
    → block f s ≡ ok stmts t
    → t.scopes ≡ s.scopes
unfolding block
block-scopes zero s e h ran = cc
block-scopes (suc f) s {t = t} e h ran =
    let (_, s₁, opened, ran₁) = bind-eq-ok (expect (codes "{") s) _ ran in
    let (stmts, s₂, inner, ran₂) = bind-eq-ok (block_inner f false [] (pushed s₁)) _ ran₁ in
    let (_, s₃, closed, ran₃) = bind-eq-ok (expect (codes "}") (popped s₂)) _ ran₂ in
    let p₁ = Runs-Step (subst (Runs 1 s) opened (expect-Runs s (codes "{") refl e)) in
    let p₂ = Runs-Step (
      subst (Runs 0 (pushed s₁)) inner
        (block_inner-Runs f false [] (pushed s₁) p₁.ended (omega (arith, p₁.shorter)))) in
    let last : t ≡ s₃ = cc in
    ap State.scopes last
    ∙ expect-scopes (codes "}") (popped s₂) closed
    ∙ p₂.outer
    ∙ expect-scopes (codes "{") s opened

-- On enough fuel `block` returns, or throws, or meets a signed overflow in a folded constant. Where it
-- returns, the scopes are those from before it: what the block declared is gone, and no outer scope has
-- changed.
pub block-Yields :
    (f : ℕ) (s : State)
    → Ended s.rest
    → 8 * length s.rest + 1 ≤ f
    → Yields (λ stmts t. t.scopes ≡ s.scopes) (block f s)
block-Yields f s e h = Runs-Yields _ (block-Runs f s e h) (λ stmts t ran. block-scopes f s e h ran)
