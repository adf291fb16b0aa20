-- ===== src/Parser/Expression/Total/Leaf.antt =====
-- How the functions with no expression or block inside end.
use demonic_c.Base.{ℕ, zero, suc, ◌≤◌, ◌<◌, refl, Bool, true, false, [], ◌∷◌, arith, length}
use demonic_c.Text.{Bytes, codes}
use demonic_c.Parser.State.{State}
use demonic_c.Parser.Fold.{Folded, folded, too_big, overflows, try_fold}
use demonic_c.Parser.Runs.{
  Ended, Runs, raises, overflows as meets_overflow, Runs-weaken, Runs-bind, pure-Runs,
  type_warn-Runs, when-Runs, take-Runs, expect-Runs, skip_if-Runs, peek_then, Stopped-refl,
}
use demonic_c.Parser.Expression.{
  warn_operands, use_fold, apply_operator, warn_undeclared, asm_tokens, asm_inline,
}

pub warn_operands-Runs :
    (left op right : Bytes) (s : State) → Ended s.rest → Runs 0 s (warn_operands left op right s)
unfolding warn_operands
warn_operands-Runs left op right s e =
    when-Runs 0 s _ _ _ (λ _. type_warn-Runs s _ e) (λ _. pure-Runs tt e)

pub use_fold-Runs : (r : Folded) (t : Bytes) (s : State) → Ended s.rest → Runs 0 s (use_fold r t s)
use_fold-Runs (folded []) t s e = pure-Runs t e
use_fold-Runs (folded (c ∷ u)) t s e = pure-Runs (c ∷ u) e
use_fold-Runs too_big t s e = raises (Stopped-refl e)
use_fold-Runs overflows t s e = meets_overflow

pub apply_operator-Runs :
    (left op right : Bytes) (s : State) → Ended s.rest → Runs 0 s (apply_operator left op right s)
unfolding apply_operator
apply_operator-Runs left op right s e = Runs-weaken (omega arith) (
    Runs-bind (warn_operands-Runs left op right s e) λ _ s₁ p₁.
      when-Runs 0 s₁ _ _ _ (λ _. pure-Runs _ p₁.ended)
        (λ _. use_fold-Runs (try_fold left op right) _ s₁ p₁.ended))

pub warn_undeclared-Runs :
    (name : Bytes) (s : State) → Ended s.rest → Runs 0 s (warn_undeclared name s)
unfolding warn_undeclared
warn_undeclared-Runs name s e =
    peek_then s _ e λ next. when-Runs 0 s _ _ _ (λ _. type_warn-Runs s _ e) (λ _. pure-Runs tt e)

pub asm_tokens-Runs :
    (f : ℕ) (first : Bool) (result : Bytes) (s : State)
    → Ended s.rest
    → length s.rest < f
    → Runs 0 s (asm_tokens f first result s)
unfolding asm_tokens
asm_tokens-Runs zero first result s e h = absurd (omega arith)
asm_tokens-Runs (suc f) first result s e h = peek_then s _ e λ next.
    when-Runs 0 s _ _ _ (λ _. pure-Runs _ e)
      (λ _. Runs-weaken (omega arith) (
        Runs-bind (take-Runs s e) λ text s₁ p₁.
          Runs-bind (skip_if-Runs s₁ _ p₁.ended)
            λ _ s₂ p₂. asm_tokens-Runs f false _ s₂ p₂.ended (omega arith)))

pub asm_inline-Runs :
    (f : ℕ) (s : State) → Ended s.rest → length s.rest ≤ f → Runs 1 s (asm_inline f s)
unfolding asm_inline
asm_inline-Runs f s e h = Runs-weaken (omega arith) (
    Runs-bind (take-Runs s e) λ _ s₁ p₁. peek_then s₁ _ p₁.ended λ next.
      Runs-bind {j = 0}
        (when-Runs 0 s₁ _ _ _
          (λ _. Runs-weaken (omega arith) (
            Runs-bind (take-Runs s₁ p₁.ended) λ _ s₂ p₂.
              Runs-bind (asm_tokens-Runs f true [] s₂ p₂.ended (omega arith)) λ body s₃ p₃.
                Runs-bind (expect-Runs s₃ (codes "}") refl p₃.ended)
                  λ _ s₄ p₄. pure-Runs body p₄.ended))
          (λ _. Runs-weaken (omega arith) (
            Runs-bind (take-Runs s₁ p₁.ended) λ text s₂ p₂.
              Runs-bind (skip_if-Runs s₂ _ p₂.ended) λ _ s₃ p₃. pure-Runs text p₃.ended)))
        λ body s₅ p₅. pure-Runs _ p₅.ended)
