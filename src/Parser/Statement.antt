-- ===== src/Parser/Statement.antt =====
-- Statements and blocks: each statement becomes one C text.
pub mod Text
pub mod Total
pub mod Dead
pub mod Scopes
mod Simple
unfoldable pub use Simple.*
use demonic_c.Base.{
  ℕ, zero, suc, ◌+◌, Bool, true, false, not, ◌&&◌, ◌||◌, List, [], ◌∷◌, ◌++◌, if◌then◌else◌,
}
use demonic_c.Text.{Bytes, codes, eqb, is, starts_with, contains, cat}
use demonic_c.Parser.State.{
  Case, State, M, Outcome, ok, out_of_fuel, bind, ◌>>=◌, ◌>>◌, pure, gets, modify, peek, take,
  when◌run◌else◌, expect, type_warn, bind_type, push_scope, pop_scope,
}
use demonic_c.Parser.Types.{ctype, infer_type, is_compatible}
use demonic_c.Parser.Expression.{asm_tokens, expression}
use Text.{let_text, indented, if_text, while_text, for_text, do_text, until_text}
use Text.{Switch, no_arms, at_case, at_default, at_statement, switch_text}

unfoldable mutual
  pub statement : ℕ → M Bytes
  statement zero = λ s. out_of_fuel
  statement (suc f) = do
    next ← peek
    when is next "let" || is next "var"
        run let_statement f
        else when is next "return"
        run return_statement f
        else when is next "if"
        run (do
          take
          cond ← condition f
          then_body ← block f
          tail ← else_part f
          pure (if_text cond then_body tail))
        else when is next "while"
        run (do take; cond ← condition f; body ← block f; pure (while_text cond body))
        else when is next "for"
        run (do
          take
          expect (codes "(")
          header ← for_header f
          expect (codes ")")
          body ← block f
          pure (for_text header body))
        else when is next "do"
        run (do
          take
          body ← block f
          expect (codes "while")
          cond ← condition f
          expect (codes ";")
          pure (do_text cond body))
        else when is next "until"
        run (do take; cond ← condition f; body ← block f; pure (until_text cond body))
        else when is next "switch"
        run switch_statement f
        else when is next "asm"
        run asm_statement f
        else when is next "break" || is next "continue"
        run (do kw ← take; expect (codes ";"); pure (kw ++ codes ";"))
        else (do val ← expression f (codes ";"); expect (codes ";"); pure (val ++ codes ";"))

  -- What follows the first block of an `if`: nothing, `else if …`, or `else { … }`.
  pub else_part : ℕ → M Bytes
  else_part zero = λ s. out_of_fuel
  else_part (suc f) = do
    next ← peek
    when is next "else"
        run (do
          take
          after ← peek
          when is after "if" run (do nested ← statement f; pure (codes " else " ++ nested)) else (do
            else_body ← block f
            pure (cat (codes " else {\n" ∷ indented "    " else_body ∷ codes "}" ∷ []))))
        else pure []

  pub block : ℕ → M (List Bytes)
  block zero = λ s. out_of_fuel
  block (suc f) = do
    expect (codes "{")
    push_scope
    stmts ← block_inner f false []
    pop_scope
    expect (codes "}")
    pure stmts

  -- The loop of `block_inner`, with what it has collected.
  pub block_inner : ℕ → Bool → List Bytes → M (List Bytes)
  block_inner zero terminated stmts = λ s. out_of_fuel
  block_inner (suc f) terminated stmts = do
    next ← peek
    when is next "}" run pure stmts else (do
      s ← statement f
      block_inner f (terminated || terminates s)
          (stmts ++ ((if terminated then codes "0;" else s) ∷ [])))

  pub switch_statement : ℕ → M Bytes
  switch_statement zero = λ s. out_of_fuel
  switch_statement (suc f) = do
    take
    scrutinee ← condition f
    expect (codes "{")
    arms ← switch_loop f no_arms
    expect (codes "}")
    pure (switch_text scrutinee arms)

  pub switch_loop : ℕ → Switch → M Switch
  switch_loop zero arms = λ s. out_of_fuel
  switch_loop (suc f) arms = do
    next ← peek
    when is next "}"
        run pure arms
        else when is next "case"
        run (do
          take
          value ← expression f (codes ":")
          expect (codes ":")
          switch_loop f (at_case value arms))
        else when is next "default"
        run (do take; expect (codes ":"); switch_loop f (at_default arms))
        else (do s ← statement f; switch_loop f (at_statement s arms))
