-- ===== src/Parser/Statement/Total.antt =====
-- How the statement functions of `class Parser` end.
mod Leaf
pub use Leaf.*
use demonic_c.Base.{
  ℕ, zero, suc, ◌+◌, ◌*◌, ◌≤◌, ◌<◌, refl, Bool, true, false, List, [], arith, length,
}
use demonic_c.Text.{Bytes, codes}
use demonic_c.Parser.State.{State}
use demonic_c.Parser.Runs.{
  Ended, Runs, Runs-weaken, Runs-bind, pure-Runs, type_warn-Runs, when-Runs, take-Runs, expect-Runs,
  peek_then, bind_type-Runs, pushed, Runs-scope,
}
use demonic_c.Parser.Expression.Total.{asm_tokens-Runs, expression-Runs}
use demonic_c.Parser.Statement.Text.{Switch, no_arms}
use demonic_c.Parser.Statement.{
  type_name, optional_type, let_statement, warn_return, return_statement, condition, for_header,
  asm_statement, statement, else_part, block, block_inner, switch_statement, switch_loop,
}

mutual
  unfolding statement else_part block block_inner switch_statement switch_loop

  pub statement-Runs :
      (f : ℕ) (s : State) → Ended s.rest → 8 * length s.rest + 4 ≤ f → Runs 1 s (statement f s)
  statement-Runs zero s e h = absurd (omega arith)
  statement-Runs (suc f) s e h = peek_then s _ e λ next.
      when-Runs 1 s _ _ _ (λ _. let_statement-Runs f s e (omega arith))
        λ _.
          when-Runs 1 s _ _ _ (λ _. return_statement-Runs f s e (omega arith))
            λ _.
              when-Runs 1 s _ _ _
                (λ _. Runs-weaken (omega arith) (
                  Runs-bind (take-Runs s e) λ _ s₁ p₁.
                    Runs-bind (condition-Runs f s₁ p₁.ended (omega arith)) λ cond s₂ p₂.
                      Runs-bind (block-Runs f s₂ p₂.ended (omega arith)) λ body s₃ p₃.
                        Runs-bind (else_part-Runs f s₃ p₃.ended (omega arith))
                          λ tail s₄ p₄. pure-Runs _ p₄.ended))
                λ _.
                  when-Runs 1 s _ _ _
                    (λ _. Runs-weaken (omega arith) (
                      Runs-bind (take-Runs s e) λ _ s₁ p₁.
                        Runs-bind (condition-Runs f s₁ p₁.ended (omega arith)) λ cond s₂ p₂.
                          Runs-bind (block-Runs f s₂ p₂.ended (omega arith))
                            λ body s₃ p₃. pure-Runs _ p₃.ended))
                    λ _.
                      when-Runs 1 s _ _ _
                        (λ _. Runs-weaken (omega arith) (
                          Runs-bind (take-Runs s e) λ _ s₁ p₁.
                            Runs-bind (expect-Runs s₁ (codes "(") refl p₁.ended) λ _ s₂ p₂.
                              Runs-bind (for_header-Runs f s₂ p₂.ended (omega arith))
                                λ header s₃ p₃.
                                  Runs-bind (expect-Runs s₃ (codes ")") refl p₃.ended) λ _ s₄ p₄.
                                    Runs-bind (block-Runs f s₄ p₄.ended (omega arith))
                                      λ body s₅ p₅. pure-Runs _ p₅.ended))
                        λ _.
                          when-Runs 1 s _ _ _
                            (λ _. Runs-weaken (omega arith) (
                              Runs-bind (take-Runs s e) λ _ s₁ p₁.
                                Runs-bind (block-Runs f s₁ p₁.ended (omega arith)) λ body s₂ p₂.
                                  Runs-bind (expect-Runs s₂ (codes "while") refl p₂.ended)
                                    λ _ s₃ p₃.
                                      Runs-bind (condition-Runs f s₃ p₃.ended (omega arith))
                                        λ cond s₄ p₄.
                                          Runs-bind (expect-Runs s₄ (codes ";") refl p₄.ended)
                                            λ _ s₅ p₅. pure-Runs _ p₅.ended))
                            λ _.
                              when-Runs 1 s _ _ _
                                (λ _. Runs-weaken (omega arith) (
                                  Runs-bind (take-Runs s e) λ _ s₁ p₁.
                                    Runs-bind (condition-Runs f s₁ p₁.ended (omega arith))
                                      λ cond s₂ p₂.
                                        Runs-bind (block-Runs f s₂ p₂.ended (omega arith))
                                          λ body s₃ p₃. pure-Runs _ p₃.ended))
                                λ _.
                                  when-Runs 1 s _ _ _
                                    (λ _. switch_statement-Runs f s e (omega arith))
                                    λ _.
                                      when-Runs 1 s _ _ _
                                        (λ _. asm_statement-Runs f s e (omega arith))
                                        λ _.
                                          when-Runs 1 s _ _ _
                                            (λ _. Runs-weaken (omega arith) (
                                              Runs-bind (take-Runs s e) λ kw s₁ p₁.
                                                Runs-bind (expect-Runs s₁ (codes ";") refl p₁.ended)
                                                  λ _ s₂ p₂. pure-Runs _ p₂.ended))
                                            λ _. Runs-weaken (omega arith) (
                                              Runs-bind (expression-Runs f _ s e (omega arith))
                                                λ val s₁ p₁.
                                                  Runs-bind
                                                    (expect-Runs s₁ (codes ";") refl p₁.ended)
                                                    λ _ s₂ p₂. pure-Runs _ p₂.ended)

  else_part-Runs :
      (f : ℕ) (s : State) → Ended s.rest → 8 * length s.rest + 1 ≤ f → Runs 0 s (else_part f s)
  else_part-Runs zero s e h = absurd (omega arith)
  else_part-Runs (suc f) s e h = peek_then s _ e λ next.
      when-Runs 0 s _ _ _
        (λ _. Runs-weaken (omega arith) (
          Runs-bind (take-Runs s e) λ _ s₁ p₁. peek_then s₁ _ p₁.ended λ after.
            when-Runs 0 s₁ _ _ _
              (λ _. Runs-weaken (omega arith) (
                Runs-bind (statement-Runs f s₁ p₁.ended (omega arith))
                  λ nested s₂ p₂. pure-Runs _ p₂.ended))
              λ _. Runs-weaken (omega arith) (
                Runs-bind (block-Runs f s₁ p₁.ended (omega arith))
                  λ else_body s₂ p₂. pure-Runs _ p₂.ended)))
        λ _. pure-Runs [] e

  pub block-Runs :
      (f : ℕ) (s : State) → Ended s.rest → 8 * length s.rest + 1 ≤ f → Runs 1 s (block f s)
  block-Runs zero s e h = absurd (omega arith)
  block-Runs (suc f) s e h = Runs-weaken (omega arith) (
      Runs-bind (expect-Runs s (codes "{") refl e) λ _ s₁ p₁.
        Runs-scope (block_inner-Runs f false [] (pushed s₁) p₁.ended (omega arith)) λ stmts s₂ p₂ _.
          Runs-bind (expect-Runs s₂ (codes "}") refl p₂.ended) λ _ s₃ p₃. pure-Runs stmts p₃.ended)

  pub block_inner-Runs :
      (f : ℕ) (terminated : Bool) (stmts : List Bytes) (s : State)
      → Ended s.rest
      → 8 * length s.rest + 5 ≤ f
      → Runs 0 s (block_inner f terminated stmts s)
  block_inner-Runs zero terminated stmts s e h = absurd (omega arith)
  block_inner-Runs (suc f) terminated stmts s e h = peek_then s _ e λ next.
      when-Runs 0 s _ _ _ (λ _. pure-Runs stmts e)
        λ _. Runs-weaken (omega arith) (
          Runs-bind (statement-Runs f s e (omega arith))
            λ text s₁ p₁. block_inner-Runs f _ _ s₁ p₁.ended (omega arith))

  switch_statement-Runs :
      (f : ℕ) (s : State)
      → Ended s.rest
      → 8 * length s.rest + 1 ≤ f
      → Runs 1 s (switch_statement f s)
  switch_statement-Runs zero s e h = absurd (omega arith)
  switch_statement-Runs (suc f) s e h = Runs-weaken (omega arith) (
      Runs-bind (take-Runs s e) λ _ s₁ p₁.
        Runs-bind (condition-Runs f s₁ p₁.ended (omega arith)) λ scrutinee s₂ p₂.
          Runs-bind (expect-Runs s₂ (codes "{") refl p₂.ended) λ _ s₃ p₃.
            Runs-bind (switch_loop-Runs f no_arms s₃ p₃.ended (omega arith)) λ arms s₄ p₄.
              Runs-bind (expect-Runs s₄ (codes "}") refl p₄.ended) λ _ s₅ p₅. pure-Runs _ p₅.ended)

  switch_loop-Runs :
      (f : ℕ) (arms : Switch) (s : State)
      → Ended s.rest
      → 8 * length s.rest + 5 ≤ f
      → Runs 0 s (switch_loop f arms s)
  switch_loop-Runs zero arms s e h = absurd (omega arith)
  switch_loop-Runs (suc f) arms s e h = peek_then s _ e λ next.
      when-Runs 0 s _ _ _ (λ _. pure-Runs arms e)
        λ _.
          when-Runs 0 s _ _ _
            (λ _. Runs-weaken (omega arith) (
              Runs-bind (take-Runs s e) λ _ s₁ p₁.
                Runs-bind (expression-Runs f _ s₁ p₁.ended (omega arith)) λ value s₂ p₂.
                  Runs-bind (expect-Runs s₂ (codes ":") refl p₂.ended)
                    λ _ s₃ p₃. switch_loop-Runs f _ s₃ p₃.ended (omega arith)))
            λ _.
              when-Runs 0 s _ _ _
                (λ _. Runs-weaken (omega arith) (
                  Runs-bind (take-Runs s e) λ _ s₁ p₁.
                    Runs-bind (expect-Runs s₁ (codes ":") refl p₁.ended)
                      λ _ s₂ p₂. switch_loop-Runs f _ s₂ p₂.ended (omega arith)))
                λ _. Runs-weaken (omega arith) (
                  Runs-bind (statement-Runs f s e (omega arith))
                    λ text s₁ p₁. switch_loop-Runs f _ s₁ p₁.ended (omega arith))

-- From a state whose tokens end with the end marker, and on eight units of fuel for each token and
-- four more, `statement` returns with a token fewer at least, or throws, or meets a signed overflow in
-- a folded constant. It reads no token behind the last, changes no declaration and no recorded error,
-- and, where it returns, no scope but the innermost.
pub statement_ends :
    (f : ℕ) (s : State) → Ended s.rest → 8 * length s.rest + 4 ≤ f → Runs 1 s (statement f s)
statement_ends f s e h = statement-Runs f s e h
