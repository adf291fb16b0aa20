-- ===== src/Parser/Statement/Total/Leaf.antt =====
-- How the functions with no block inside end.
use demonic_c.Base.{ℕ, zero, suc, ◌+◌, ◌*◌, ◌≤◌, ◌<◌, refl, true, [], arith, length}
use demonic_c.Text.{Bytes, codes}
use demonic_c.Parser.State.{State}
use demonic_c.Parser.Runs.{
  Ended, Runs, Runs-weaken, Runs-bind, pure-Runs, type_warn-Runs, when-Runs, take-Runs, expect-Runs,
  peek_then, bind_type-Runs,
}
use demonic_c.Parser.Expression.Total.{asm_tokens-Runs, expression-Runs}
use demonic_c.Parser.Statement.{
  type_name, optional_type, let_statement, warn_return, return_statement, condition, for_header,
  asm_statement,
}

pub type_name-Runs :
    (f : ℕ) (s : State) → Ended s.rest → length s.rest < f → Runs 1 s (type_name f s)
unfolding type_name
type_name-Runs zero s e h = absurd (omega arith)
type_name-Runs (suc f) s e h = peek_then s _ e λ next.
    when-Runs 1 s _ _ _
      (λ _. Runs-weaken (omega arith) (
        Runs-bind (take-Runs s e) λ _ s₁ p₁.
          Runs-bind (type_name-Runs f s₁ p₁.ended (omega arith))
            λ inner s₂ p₂. pure-Runs _ p₂.ended))
      λ _.
        when-Runs 1 s _ _ _
          (λ _. Runs-weaken (omega arith) (
            Runs-bind (take-Runs s e) λ _ s₁ p₁. Runs-bind (take-Runs s₁ p₁.ended) λ elem s₂ p₂.
              Runs-bind (expect-Runs s₂ (codes ";") refl p₂.ended) λ _ s₃ p₃.
                Runs-bind (take-Runs s₃ p₃.ended) λ sz s₄ p₄.
                  Runs-bind (expect-Runs s₄ (codes "]") refl p₄.ended)
                    λ _ s₅ p₅. pure-Runs _ p₅.ended))
          λ _. take-Runs s e

pub optional_type-Runs :
    (f : ℕ) (t : Bytes) (s : State)
    → Ended s.rest
    → length s.rest < f
    → Runs 0 s (optional_type f t s)
unfolding optional_type
optional_type-Runs f t s e h = peek_then s _ e λ next.
    when-Runs 0 s _ _ _
      (λ _.
        Runs-weaken (omega arith)
          (Runs-bind (take-Runs s e) λ _ s₁ p₁. type_name-Runs f s₁ p₁.ended (omega arith)))
      λ _. pure-Runs t e

-- Fuel for what follows the first token of a statement.
module _ (f : ℕ) (s : State) (e : Ended s.rest) (h : 8 * length s.rest + 3 ≤ f) where
  pub let_statement-Runs : Runs 1 s (let_statement f s)
  unfolding let_statement
  let_statement-Runs = Runs-weaken (omega arith) (
      Runs-bind (take-Runs s e) λ _ s₁ p₁. Runs-bind (take-Runs s₁ p₁.ended) λ name s₂ p₂.
        Runs-bind (optional_type-Runs f [] s₂ p₂.ended (omega arith)) λ written s₃ p₃.
          Runs-bind (expect-Runs s₃ (codes "=") refl p₃.ended) λ _ s₄ p₄.
            Runs-bind (expression-Runs f _ s₄ p₄.ended (omega arith)) λ val s₅ p₅.
              Runs-bind (expect-Runs s₅ (codes ";") refl p₅.ended) λ _ s₆ p₆.
                Runs-bind (bind_type-Runs s₆ name _ p₆.ended) λ _ s₇ p₇. pure-Runs _ p₇.ended)

  warn_return-Runs : (val : Bytes) → Runs 0 s (warn_return val s)
  unfolding warn_return
  warn_return-Runs val = when-Runs 0 s _ _ _ (λ _. type_warn-Runs s _ e) (λ _. pure-Runs tt e)

  pub condition-Runs : Runs 1 s (condition f s)
  unfolding condition
  condition-Runs = Runs-weaken (omega arith) (
      Runs-bind (expect-Runs s (codes "(") refl e) λ _ s₁ p₁.
        Runs-bind (expression-Runs f _ s₁ p₁.ended (omega arith)) λ cond s₂ p₂.
          Runs-bind (expect-Runs s₂ (codes ")") refl p₂.ended) λ _ s₃ p₃. pure-Runs cond p₃.ended)

  pub for_header-Runs : Runs 1 s (for_header f s)
  unfolding for_header
  for_header-Runs = peek_then s _ e λ next.
      when-Runs 1 s _ _ _
        (λ _. Runs-weaken (omega arith) (
          Runs-bind (take-Runs s e) λ _ s₁ p₁. Runs-bind (take-Runs s₁ p₁.ended) λ name s₂ p₂.
            Runs-bind (optional_type-Runs f _ s₂ p₂.ended (omega arith)) λ type s₃ p₃.
              Runs-bind (expect-Runs s₃ (codes "=") refl p₃.ended) λ _ s₄ p₄.
                Runs-bind (expression-Runs f _ s₄ p₄.ended (omega arith)) λ init s₅ p₅.
                  Runs-bind (expect-Runs s₅ (codes ";") refl p₅.ended) λ _ s₆ p₆.
                    Runs-bind (expression-Runs f _ s₆ p₆.ended (omega arith)) λ cond s₇ p₇.
                      Runs-bind (expect-Runs s₇ (codes ";") refl p₇.ended) λ _ s₈ p₈.
                        Runs-bind (expression-Runs f _ s₈ p₈.ended (omega arith))
                          λ step s₉ p₉. pure-Runs _ p₉.ended))
        λ _.
          when-Runs 1 s _ _ _
            (λ _. Runs-weaken (omega arith) (
              Runs-bind (take-Runs s e) λ _ s₁ p₁.
                Runs-bind (expression-Runs f _ s₁ p₁.ended (omega arith)) λ cond s₂ p₂.
                  Runs-bind (expect-Runs s₂ (codes ";") refl p₂.ended) λ _ s₃ p₃.
                    Runs-bind (expression-Runs f _ s₃ p₃.ended (omega arith))
                      λ step s₄ p₄. pure-Runs _ p₄.ended))
            λ _. expression-Runs f _ s e (omega arith)

  pub asm_statement-Runs : Runs 1 s (asm_statement f s)
  unfolding asm_statement
  asm_statement-Runs = Runs-weaken (omega arith) (
      Runs-bind (take-Runs s e) λ _ s₁ p₁. peek_then s₁ _ p₁.ended λ next.
        when-Runs 0 s₁ _ _ _
          (λ _. Runs-weaken (omega arith) (
            Runs-bind (take-Runs s₁ p₁.ended) λ _ s₂ p₂.
              Runs-bind (asm_tokens-Runs f true [] s₂ p₂.ended (omega arith)) λ body s₃ p₃.
                Runs-bind (expect-Runs s₃ (codes "}") refl p₃.ended)
                  λ _ s₄ p₄. pure-Runs _ p₄.ended))
          λ _. Runs-weaken (omega arith) (
            Runs-bind (take-Runs s₁ p₁.ended) λ asm_str s₂ p₂.
              Runs-bind (expect-Runs s₂ (codes ";") refl p₂.ended) λ _ s₃ p₃. pure-Runs _ p₃.ended))

pub return_statement-Runs :
    (f : ℕ) (s : State) → Ended s.rest → 8 * length s.rest + 3 ≤ f → Runs 1 s (return_statement f s)
unfolding return_statement
return_statement-Runs f s e h = Runs-weaken (omega arith) (
    Runs-bind (take-Runs s e) λ _ s₁ p₁. peek_then s₁ _ p₁.ended λ next.
      when-Runs 0 s₁ _ _ _
        (λ _.
          Runs-weaken (omega arith)
            (Runs-bind (take-Runs s₁ p₁.ended) λ _ s₂ p₂. pure-Runs _ p₂.ended))
        λ _. Runs-weaken (omega arith) (
          Runs-bind (expression-Runs f _ s₁ p₁.ended (omega arith)) λ val s₂ p₂.
            Runs-bind (expect-Runs s₂ (codes ";") refl p₂.ended) λ _ s₃ p₃.
              Runs-bind (warn_return-Runs f s₃ p₃.ended (omega arith) val)
                λ _ s₄ p₄. pure-Runs _ p₄.ended))
