-- ===== src/Parser/Declaration/Total.antt =====
-- How reading one declaration ends, behind its first keyword.
use demonic_c.Base.{ℕ, zero, suc, ◌+◌, ◌*◌, ◌≤◌, ◌<◌, refl, List, [], arith, length}
use demonic_c.Text.{Bytes, codes}
use demonic_c.Parser.State.{Param, Field, State, M, Outcome, bind}
use demonic_c.Parser.Runs.{
  Ended, Step, Runs, returns, Runs-weaken, Runs-bind, pure-Runs, when-Runs, take-Runs, expect-Runs,
  skip_if-Runs, peek_then, bind_type-Runs, pushed, Runs-scope, with_ret, with_ret-Step, Runs-after,
}
use demonic_c.Parser.Statement.Total.{type_name-Runs, optional_type-Runs, block-Runs}
use demonic_c.Parser.Declaration.{
  field_loop, struct_rest, variant_loop, enum_rest, attribute_rest, attribute_loop, param_loop,
  parameters, return_type, function_scope, function_rest,
}

field_loop-Runs :
    (f : ℕ) (fields : List Field) (s : State)
    → Ended s.rest
    → length s.rest < f
    → Runs 0 s (field_loop f fields s)
unfolding field_loop
field_loop-Runs zero fields s e h = absurd (omega arith)
field_loop-Runs (suc f) fields s e h = peek_then s _ e λ next.
    when-Runs 0 s _ _ _ (λ _. pure-Runs fields e)
      λ _. Runs-weaken (omega arith) (
        Runs-bind (take-Runs s e) λ name s₁ p₁.
          Runs-bind (expect-Runs s₁ (codes ":") refl p₁.ended) λ _ s₂ p₂.
            Runs-bind (type_name-Runs f s₂ p₂.ended (omega arith)) λ type s₃ p₃.
              Runs-bind (expect-Runs s₃ (codes ";") refl p₃.ended)
                λ _ s₄ p₄. field_loop-Runs f _ s₄ p₄.ended (omega arith))

variant_loop-Runs :
    (f : ℕ) (variants : List Bytes) (s : State)
    → Ended s.rest
    → length s.rest < f
    → Runs 0 s (variant_loop f variants s)
unfolding variant_loop
variant_loop-Runs zero variants s e h = absurd (omega arith)
variant_loop-Runs (suc f) variants s e h = peek_then s _ e λ next.
    when-Runs 0 s _ _ _ (λ _. pure-Runs variants e)
      λ _. Runs-weaken (omega arith) (
        Runs-bind (take-Runs s e) λ variant s₁ p₁.
          Runs-bind (skip_if-Runs s₁ _ p₁.ended)
            λ _ s₂ p₂. variant_loop-Runs f _ s₂ p₂.ended (omega arith))

pub attribute_rest-Runs : (s : State) → Ended s.rest → Runs 1 s (attribute_rest s)
unfolding attribute_rest
attribute_rest-Runs s e = Runs-weaken (omega arith) (
    Runs-bind (take-Runs s e) λ attr s₁ p₁.
      Runs-bind (expect-Runs s₁ (codes "]") refl p₁.ended) λ _ s₂ p₂. pure-Runs attr p₂.ended)

pub attribute_loop-Runs :
    (f : ℕ) (attrs : List Bytes) (s : State)
    → Ended s.rest
    → length s.rest < f
    → Runs 0 s (attribute_loop f attrs s)
unfolding attribute_loop
attribute_loop-Runs zero attrs s e h = absurd (omega arith)
attribute_loop-Runs (suc f) attrs s e h = peek_then s _ e λ next.
    when-Runs 0 s _ _ _
      (λ _. Runs-weaken (omega arith) (
        Runs-bind (take-Runs s e) λ _ s₁ p₁.
          Runs-bind (attribute_rest-Runs s₁ p₁.ended)
            λ attr s₂ p₂. attribute_loop-Runs f _ s₂ p₂.ended (omega arith)))
      λ _. pure-Runs attrs e

param_loop-Runs :
    (f : ℕ) (params : List Param) (s : State)
    → Ended s.rest
    → length s.rest < f
    → Runs 0 s (param_loop f params s)
unfolding param_loop
param_loop-Runs zero params s e h = absurd (omega arith)
param_loop-Runs (suc f) params s e h = Runs-weaken (omega arith) (
    Runs-bind (take-Runs s e) λ name s₁ p₁.
      Runs-bind (optional_type-Runs f _ s₁ p₁.ended (omega arith)) λ type s₂ p₂.
        Runs-bind (bind_type-Runs s₂ name type p₂.ended) λ _ s₃ p₃. peek_then s₃ _ p₃.ended λ next.
          when-Runs 0 s₃ _ _ _
            (λ _. Runs-weaken (omega arith) (
              Runs-bind (take-Runs s₃ p₃.ended)
                λ _ s₄ p₄. param_loop-Runs f _ s₄ p₄.ended (omega arith)))
            λ _. pure-Runs _ p₃.ended)

module _ (f : ℕ) (s : State) (e : Ended s.rest) (h : 8 * length s.rest + 1 ≤ f) where
  pub struct_rest-Runs : Runs 1 s (struct_rest f s)
  unfolding struct_rest
  struct_rest-Runs = Runs-weaken (omega arith) (
      Runs-bind (take-Runs s e) λ name s₂ p₂.
        Runs-bind (expect-Runs s₂ (codes "{") refl p₂.ended) λ _ s₃ p₃.
          Runs-bind (field_loop-Runs f [] s₃ p₃.ended (omega arith)) λ fields s₄ p₄.
            Runs-bind (expect-Runs s₄ (codes "}") refl p₄.ended)
              λ _ s₅ p₅. Runs-bind (skip_if-Runs s₅ _ p₅.ended) λ _ s₆ p₆. pure-Runs _ p₆.ended)

  pub enum_rest-Runs : Runs 1 s (enum_rest f s)
  unfolding enum_rest
  enum_rest-Runs = Runs-weaken (omega arith) (
      Runs-bind (take-Runs s e) λ name s₂ p₂.
        Runs-bind (expect-Runs s₂ (codes "{") refl p₂.ended) λ _ s₃ p₃.
          Runs-bind (variant_loop-Runs f [] s₃ p₃.ended (omega arith)) λ variants s₄ p₄.
            Runs-bind (expect-Runs s₄ (codes "}") refl p₄.ended)
              λ _ s₅ p₅. Runs-bind (skip_if-Runs s₅ _ p₅.ended) λ _ s₆ p₆. pure-Runs _ p₆.ended)

  parameters-Runs : Runs 0 s (parameters f s)
  unfolding parameters
  parameters-Runs = peek_then s _ e λ next.
      when-Runs 0 s _ _ _ (λ _. pure-Runs [] e) (λ _. param_loop-Runs f [] s e (omega arith))

  return_type-Runs : Runs 0 s (return_type f s)
  unfolding return_type
  return_type-Runs = peek_then s _ e λ next.
      when-Runs 0 s _ _ _
        (λ _.
          Runs-weaken (omega arith)
            (Runs-bind (take-Runs s e) λ _ s₁ p₁. type_name-Runs f s₁ p₁.ended (omega arith)))
        λ _. pure-Runs _ e

Runs-ret :
    {A B : Type 0} {j k : ℕ} {s : State} {t : Bytes} {r : Outcome A} {g : A → M B}
    → Ended s.rest
    → Runs j (with_ret t s) r
    → ((a : A) (s' : State) → Step j (with_ret t s) s' → Runs k s' (g a s'))
    → Runs (0 + (j + k)) s (bind r g)
Runs-ret {t = t} e p h = Runs-after (with_ret-Step t e) (Runs-bind p h)

function_scope-Runs :
    (f : ℕ) (attrs : List Bytes) (name : Bytes) (s : State)
    → Ended s.rest
    → 8 * length s.rest + 1 ≤ f
    → Runs 1 s (function_scope f attrs name s)
unfolding function_scope
function_scope-Runs f attrs name s e h = Runs-weaken (omega arith) (
    Runs-bind (parameters-Runs f s e h) λ params s₁ p₁.
      Runs-bind (expect-Runs s₁ (codes ")") refl p₁.ended) λ _ s₂ p₂.
        Runs-bind (return_type-Runs f s₂ p₂.ended (omega arith)) λ ret_type s₃ p₃.
          Runs-ret p₃.ended (block-Runs f (with_ret ret_type s₃) p₃.ended (omega arith))
            λ body s₄ p₄. returns (with_ret-Step s₃.current_ret p₄.ended))

pub function_rest-Runs :
    (f : ℕ) (attrs : List Bytes) (s : State)
    → Ended s.rest
    → 8 * length s.rest + 1 ≤ f
    → Runs 1 s (function_rest f attrs s)
unfolding function_rest
function_rest-Runs f attrs s e h = Runs-weaken (omega arith) (
    Runs-bind (take-Runs s e) λ name s₁ p₁.
      Runs-bind (expect-Runs s₁ (codes "(") refl p₁.ended) λ _ s₂ p₂.
        Runs-scope (function_scope-Runs f attrs name (pushed s₂) p₂.ended (omega arith))
          λ fn s₃ p₃ _. pure-Runs fn p₃.ended)
