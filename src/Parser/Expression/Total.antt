-- ===== src/Parser/Expression/Total.antt =====
-- How the expression functions of `class Parser` end.
mod Leaf
pub use Leaf.*
use demonic_c.Base.{
  ℕ, zero, suc, ◌+◌, ◌*◌, ◌≤◌, ◌<◌, refl, Bool, true, false, [], ◌∷◌, arith, length,
}
use demonic_c.Text.{Bytes, codes}
use demonic_c.Parser.State.{State}
use demonic_c.Parser.Fold.{Folded, folded, too_big, overflows, try_fold}
use demonic_c.Parser.Runs.{
  Ended, Runs, raises, overflows as meets_overflow, Runs-weaken, Runs-bind, pure-Runs, fail-Runs,
  type_warn-Runs, when-Runs, take-Runs, expect-Runs, skip_if-Runs, peek_then, Stopped-refl,
}
use demonic_c.Parser.Expression.{
  warn_operands, use_fold, apply_operator, warn_undeclared, asm_tokens, asm_inline, expression,
  parse_binary, binary_loop, postfix, arguments, unary_expr, elements, named, struct_literal,
  field_inits, expression_list, list_loop,
}

mutual
  unfolding expression parse_binary binary_loop postfix arguments unary_expr elements named
      struct_literal field_inits expression_list list_loop

  pub expression-Runs :
      (f : ℕ) (end : Bytes) (s : State)
      → Ended s.rest
      → 8 * length s.rest + 3 ≤ f
      → Runs 1 s (expression f end s)
  expression-Runs zero end s e h = absurd (omega arith)
  expression-Runs (suc f) end s e h = parse_binary-Runs f 0 end s e (omega arith)

  parse_binary-Runs :
      (f min_prec : ℕ) (end : Bytes) (s : State)
      → Ended s.rest
      → 8 * length s.rest + 2 ≤ f
      → Runs 1 s (parse_binary f min_prec end s)
  parse_binary-Runs zero min_prec end s e h = absurd (omega arith)
  parse_binary-Runs (suc f) min_prec end s e h = Runs-weaken (omega arith) (
      Runs-bind (unary_expr-Runs f end s e (omega arith)) λ operand s₁ p₁.
        Runs-bind (postfix-Runs f operand s₁ p₁.ended (omega arith)) λ first s₂ p₂.
          Runs-bind (binary_loop-Runs f min_prec end first s₂ p₂.ended (omega arith)) λ left s₃ p₃.
            peek_then s₃ _ p₃.ended λ next.
              when-Runs 0 s₃ _ _ _
                (λ _. Runs-weaken (omega arith) (
                  Runs-bind (take-Runs s₃ p₃.ended) λ _ s₄ p₄.
                    Runs-bind (expression-Runs f end s₄ p₄.ended (omega arith))
                      λ rhs s₅ p₅. pure-Runs _ p₅.ended))
                (λ _. pure-Runs left p₃.ended))

  binary_loop-Runs :
      (f min_prec : ℕ) (end left : Bytes) (s : State)
      → Ended s.rest
      → 8 * length s.rest + 1 ≤ f
      → Runs 0 s (binary_loop f min_prec end left s)
  binary_loop-Runs zero min_prec end left s e h = absurd (omega arith)
  binary_loop-Runs (suc f) min_prec end left s e h = peek_then s _ e λ next.
      when-Runs 0 s _ _ _
        (λ _. Runs-weaken (omega arith) (
          Runs-bind (take-Runs s e) λ op s₁ p₁.
            Runs-bind (parse_binary-Runs f _ end s₁ p₁.ended (omega arith)) λ right s₂ p₂.
              Runs-bind (apply_operator-Runs left op right s₂ p₂.ended)
                λ left' s₃ p₃. binary_loop-Runs f min_prec end left' s₃ p₃.ended (omega arith)))
        (λ _. pure-Runs left e)

  postfix-Runs :
      (f : ℕ) (val : Bytes) (s : State)
      → Ended s.rest
      → 8 * length s.rest + 1 ≤ f
      → Runs 0 s (postfix f val s)
  postfix-Runs zero val s e h = absurd (omega arith)
  postfix-Runs (suc f) val s e h = peek_then s _ e λ next.
      when-Runs 0 s _ _ _
        (λ _. Runs-weaken (omega arith) (
          Runs-bind (take-Runs s e) λ _ s₁ p₁.
            Runs-bind (arguments-Runs f s₁ p₁.ended (omega arith)) λ args s₂ p₂.
              Runs-bind (expect-Runs s₂ (codes ")") refl p₂.ended)
                λ _ s₃ p₃. postfix-Runs f _ s₃ p₃.ended (omega arith)))
        (λ _.
          when-Runs 0 s _ _ _
            (λ _. Runs-weaken (omega arith) (
              Runs-bind (take-Runs s e) λ _ s₁ p₁.
                Runs-bind (take-Runs s₁ p₁.ended)
                  λ field s₂ p₂. postfix-Runs f _ s₂ p₂.ended (omega arith)))
            (λ _.
              when-Runs 0 s _ _ _
                (λ _. Runs-weaken (omega arith) (
                  Runs-bind (take-Runs s e) λ _ s₁ p₁.
                    Runs-bind (expression-Runs f _ s₁ p₁.ended (omega arith)) λ idx s₂ p₂.
                      Runs-bind (expect-Runs s₂ (codes "]") refl p₂.ended)
                        λ _ s₃ p₃. postfix-Runs f _ s₃ p₃.ended (omega arith)))
                (λ _. pure-Runs val e)))

  arguments-Runs :
      (f : ℕ) (s : State) → Ended s.rest → 8 * length s.rest + 5 ≤ f → Runs 0 s (arguments f s)
  arguments-Runs zero s e h = absurd (omega arith)
  arguments-Runs (suc f) s e h = peek_then s _ e λ next.
      when-Runs 0 s _ _ _ (λ _. pure-Runs [] e)
        (λ _. Runs-weaken (omega arith) (expression_list-Runs f _ s e (omega arith)))

  elements-Runs :
      (f : ℕ) (s : State) → Ended s.rest → 8 * length s.rest + 5 ≤ f → Runs 0 s (elements f s)
  elements-Runs zero s e h = absurd (omega arith)
  elements-Runs (suc f) s e h = peek_then s _ e λ next.
      when-Runs 0 s _ _ _ (λ _. pure-Runs [] e)
        (λ _. Runs-weaken (omega arith) (expression_list-Runs f _ s e (omega arith)))

  unary_expr-Runs :
      (f : ℕ) (end : Bytes) (s : State)
      → Ended s.rest
      → 8 * length s.rest + 1 ≤ f
      → Runs 1 s (unary_expr f end s)
  unary_expr-Runs zero end s e h = absurd (omega arith)
  unary_expr-Runs (suc f) end s e h = peek_then s _ e λ next.
      when-Runs 1 s _ _ _
        (λ _. Runs-weaken (omega arith) (
          Runs-bind (take-Runs s e) λ op s₁ p₁.
            Runs-bind (unary_expr-Runs f end s₁ p₁.ended (omega arith)) λ inner s₂ p₂.
              Runs-bind (postfix-Runs f inner s₂ p₂.ended (omega arith))
                λ operand s₃ p₃. pure-Runs _ p₃.ended))
        λ _.
          when-Runs 1 s _ _ _
            (λ _. Runs-weaken (omega arith) (
              Runs-bind (take-Runs s e) λ op s₁ p₁.
                Runs-bind (unary_expr-Runs f end s₁ p₁.ended (omega arith)) λ inner s₂ p₂.
                  Runs-bind (postfix-Runs f inner s₂ p₂.ended (omega arith))
                    λ operand s₃ p₃. pure-Runs _ p₃.ended))
            λ _.
              when-Runs 1 s _ _ _
                (λ _. Runs-weaken (omega arith) (
                  Runs-bind (take-Runs s e) λ _ s₁ p₁.
                    Runs-bind (expression-Runs f _ s₁ p₁.ended (omega arith)) λ inner s₂ p₂.
                      Runs-bind (expect-Runs s₂ (codes ")") refl p₂.ended)
                        λ _ s₃ p₃. pure-Runs _ p₃.ended))
                λ _.
                  when-Runs 1 s _ _ _
                    (λ _. Runs-weaken (omega arith) (
                      Runs-bind (take-Runs s e) λ _ s₁ p₁.
                        Runs-bind (elements-Runs f s₁ p₁.ended (omega arith)) λ elems s₂ p₂.
                          Runs-bind (expect-Runs s₂ (codes "]") refl p₂.ended)
                            λ _ s₃ p₃. pure-Runs _ p₃.ended))
                    λ _.
                      when-Runs 1 s _ _ _ (λ _. take-Runs s e)
                        λ _.
                          when-Runs 1 s _ _ _ (λ _. asm_inline-Runs f s e (omega arith))
                            λ _.
                              when-Runs 1 s _ _ _
                                (λ _. Runs-weaken (omega arith) (
                                  Runs-bind (take-Runs s e)
                                    λ name s₁ p₁. named-Runs f name s₁ p₁.ended (omega arith)))
                                λ _.
                                  when-Runs 1 s _ _ _ (λ _. take-Runs s e)
                                    λ _.
                                      when-Runs 1 s _ _ _ (λ _. take-Runs s e)
                                        λ _.
                                          when-Runs 1 s _ _ _
                                            (λ _. Runs-weaken (omega arith) (
                                              Runs-bind (take-Runs s e)
                                                λ _ s₁ p₁. pure-Runs _ p₁.ended))
                                            λ _. fail-Runs s 1 _ e

  named-Runs :
      (f : ℕ) (name : Bytes) (s : State)
      → Ended s.rest
      → 8 * length s.rest + 2 ≤ f
      → Runs 0 s (named f name s)
  named-Runs zero name s e h = absurd (omega arith)
  named-Runs (suc f) name s e h = peek_then s _ e λ next.
      when-Runs 0 s _ _ _
        (λ _. Runs-weaken (omega arith) (
          Runs-bind (take-Runs s e)
            λ _ s₁ p₁. Runs-bind (take-Runs s₁ p₁.ended) λ variant s₂ p₂. pure-Runs _ p₂.ended))
        λ _.
          when-Runs 0 s _ _ _
            (λ _. Runs-weaken (omega arith) (struct_literal-Runs f name s e (omega arith)))
            λ _.
              when-Runs 0 s _ _ _ (λ _. pure-Runs _ e)
                λ _.
                  Runs-weaken (omega arith)
                    (Runs-bind (warn_undeclared-Runs name s e) λ _ s₁ p₁. pure-Runs name p₁.ended)

  struct_literal-Runs :
      (f : ℕ) (type_name : Bytes) (s : State)
      → Ended s.rest
      → 8 * length s.rest + 1 ≤ f
      → Runs 1 s (struct_literal f type_name s)
  struct_literal-Runs zero type_name s e h = absurd (omega arith)
  struct_literal-Runs (suc f) type_name s e h = Runs-weaken (omega arith) (
      Runs-bind (expect-Runs s (codes "{") refl e) λ _ s₁ p₁.
        Runs-bind (field_inits-Runs f true _ s₁ p₁.ended (omega arith)) λ inits s₂ p₂.
          Runs-bind (expect-Runs s₂ (codes "}") refl p₂.ended) λ _ s₃ p₃. pure-Runs _ p₃.ended)

  field_inits-Runs :
      (f : ℕ) (first : Bool) (result : Bytes) (s : State)
      → Ended s.rest
      → 8 * length s.rest + 1 ≤ f
      → Runs 0 s (field_inits f first result s)
  field_inits-Runs zero first result s e h = absurd (omega arith)
  field_inits-Runs (suc f) first result s e h = peek_then s _ e λ next.
      when-Runs 0 s _ _ _ (λ _. pure-Runs result e)
        λ _. Runs-weaken (omega arith) (
          Runs-bind (take-Runs s e) λ fname s₁ p₁.
            Runs-bind (expect-Runs s₁ (codes ":") refl p₁.ended) λ _ s₂ p₂.
              Runs-bind (expression-Runs f _ s₂ p₂.ended (omega arith)) λ fval s₃ p₃.
                Runs-bind (skip_if-Runs s₃ _ p₃.ended)
                  λ _ s₄ p₄. field_inits-Runs f false _ s₄ p₄.ended (omega arith))

  expression_list-Runs :
      (f : ℕ) (end : Bytes) (s : State)
      → Ended s.rest
      → 8 * length s.rest + 4 ≤ f
      → Runs 1 s (expression_list f end s)
  expression_list-Runs zero end s e h = absurd (omega arith)
  expression_list-Runs (suc f) end s e h = Runs-weaken (omega arith) (
      Runs-bind (expression-Runs f end s e (omega arith))
        λ first s₁ p₁. list_loop-Runs f end first s₁ p₁.ended (omega arith))

  list_loop-Runs :
      (f : ℕ) (end result : Bytes) (s : State)
      → Ended s.rest
      → 8 * length s.rest + 1 ≤ f
      → Runs 0 s (list_loop f end result s)
  list_loop-Runs zero end result s e h = absurd (omega arith)
  list_loop-Runs (suc f) end result s e h = peek_then s _ e λ next.
      when-Runs 0 s _ _ _
        (λ _. Runs-weaken (omega arith) (
          Runs-bind (take-Runs s e) λ _ s₁ p₁. peek_then s₁ _ p₁.ended λ after.
            when-Runs 0 s₁ _ _ _ (λ _. pure-Runs result p₁.ended)
              λ _. Runs-weaken (omega arith) (
                Runs-bind (expression-Runs f end s₁ p₁.ended (omega arith))
                  λ x s₂ p₂. list_loop-Runs f end _ s₂ p₂.ended (omega arith))))
        (λ _. pure-Runs result e)

-- From a state whose tokens end with the end marker, and on eight units of fuel for each token and
-- three more, `expression` returns with a token fewer at least, or throws, or meets a signed overflow
-- in a folded constant. It reads no token behind the last, changes no declaration and no recorded
-- error, and, where it returns, no scope but the innermost.
pub expression_ends :
    (f : ℕ) (end : Bytes) (s : State)
    → Ended s.rest
    → 8 * length s.rest + 3 ≤ f
    → Runs 1 s (expression f end s)
expression_ends f end s e h = expression-Runs f end s e h
