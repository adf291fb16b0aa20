-- ===== src/Parser/Expression/Leaf.antt =====
-- The parts of an expression with none inside: operators and calls as C texts, warnings, `asm`.
use demonic_c.Base.{ℕ, zero, suc, Bool, true, false, not, ◌&&◌, ◌||◌, [], ◌∷◌, if◌then◌else◌}
use demonic_c.Text.{Bytes, codes, is, cat}
use demonic_c.Result.{out_of_range}
use demonic_c.Parser.State.{
  State, M, ok, throws, overflow, out_of_fuel, ◌>>=◌, ◌>>◌, pure, gets, peek, take, when◌run◌else◌,
  expect, skip_if, type_warn, lookup_type,
}
use demonic_c.Parser.Types.{is_user_function, is_stdlib_fn, is_float_arg, is_string_arg, infer_type}
use demonic_c.Parser.Fold.{Folded, folded, too_big, overflows, try_fold}

-- `"(" + left + " " + op + " " + right + ")"`.

abbrev pub parenthesised : Bytes → Bytes → Bytes → Bytes
parenthesised left op right =
    cat (codes "(" ∷ left ∷ codes " " ∷ op ∷ codes " " ∷ right ∷ codes ")" ∷ [])

abbrev pub is_equality : Bytes → Bool
is_equality op = is op "==" || is op "!="

unfoldable pub warn_operands : Bytes → Bytes → Bytes → M (Unit {0})
warn_operands left op right = do
  st ← gets (λ s. s)
  when (not (is op "&&") && not (is op "||"))
        && (is (infer_type st left) "string" || is (infer_type st right) "string")
        && not (is_equality op)
      run type_warn (cat (codes "operator '" ∷ op ∷ codes "' applied to string operand" ∷ []))
      else pure tt

abbrev pub use_fold : Folded → Bytes → M Bytes
use_fold (folded []) unfolded s = ok unfolded s
use_fold (folded (c ∷ t)) unfolded s = ok (c ∷ t) s
use_fold too_big unfolded s = throws out_of_range s
use_fold overflows unfolded s = overflow

-- The body of the loop of `parse_binary` behind its operands.
unfoldable pub apply_operator : Bytes → Bytes → Bytes → M Bytes
apply_operator left op right = do
  warn_operands left op right
  st ← gets (λ s. s)
  when is_equality op && (is_string_arg st left || is_string_arg st right)
      run pure (
          cat (
            codes "(text_cmp("
            ∷ left
            ∷ codes ", "
            ∷ right
            ∷ codes ") "
            ∷ (if is op "==" then codes "==" else codes "!=")
            ∷ codes " 0)"
            ∷ []))
      else use_fold (try_fold left op right) (parenthesised left op right)

-- The text of a call, by the callee's text.
unfoldable pub call_text : State → Bytes → Bytes → Bytes
call_text st val args =
    if is val "println"
    then (if is_string_arg st args
        then cat (codes "puts(" ∷ args ∷ codes ")" ∷ [])
        else if is_float_arg st args
        then cat (codes "printf(\"%g\\n\", (double)(" ∷ args ∷ codes "))" ∷ [])
        else cat (codes "printf(\"%lld\\n\", (long long)(" ∷ args ∷ codes "))" ∷ []))
    else if is val "print"
    then (if is_string_arg st args
        then cat (codes "printf(\"%s\", " ∷ args ∷ codes ")" ∷ [])
        else if is_float_arg st args
        then cat (codes "printf(\"%g\", (double)(" ∷ args ∷ codes "))" ∷ [])
        else cat (codes "printf(\"%lld\", (long long)(" ∷ args ∷ codes "))" ∷ []))
    else if is val "syscall"
    then cat (codes "syscall_h(" ∷ args ∷ codes ")" ∷ [])
    else cat (val ∷ codes "(" ∷ args ∷ codes ")" ∷ [])

-- A name that is neither a variable nor a function, and is not called.
unfoldable pub warn_undeclared : Bytes → M (Unit {0})
warn_undeclared name = do
  next ← peek
  st ← gets (λ s. s)
  when not (is next "(")
        && (is (lookup_type st.scopes name) ""
            && not (is_user_function st.functions name)
            && not (is_stdlib_fn name))
      run type_warn (cat (codes "use of undeclared identifier '" ∷ name ∷ codes "'" ∷ []))
      else pure tt

-- The loop over the tokens of an `asm` block, up to its `}`.
unfoldable pub asm_tokens : ℕ → Bool → Bytes → M Bytes
asm_tokens zero first result = λ s. out_of_fuel
asm_tokens (suc f) first result = do
  next ← peek
  when is next "}" run pure result else (do
    text ← take
    skip_if (codes ";")
    asm_tokens f false (cat (result ∷ (if first then [] else codes " ") ∷ text ∷ [])))

unfoldable pub asm_inline : ℕ → M Bytes
asm_inline f = do
  take
  next ← peek
  body ←
      (when is next "{"
        run (do take; body ← asm_tokens f true []; expect (codes "}"); pure body)
        else (do text ← take; skip_if (codes ";"); pure text))
  pure (cat (codes "({" ∷ body ∷ codes "; 0;})" ∷ []))
