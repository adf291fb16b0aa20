-- ===== src/Parser/Statement/Simple.antt =====
-- The types as written, and the statements with no block inside.
use demonic_c.Base.{ℕ, zero, suc, Bool, true, not, ◌&&◌, ◌||◌, [], ◌∷◌, ◌++◌, if◌then◌else◌}
use demonic_c.Text.{Bytes, codes, is, starts_with, contains, cat}
use demonic_c.Parser.State.{
  M, out_of_fuel, ◌>>=◌, ◌>>◌, pure, gets, peek, take, when◌run◌else◌, expect, type_warn, bind_type,
}
use demonic_c.Parser.Types.{ctype, infer_type, is_compatible}
use demonic_c.Parser.Expression.{asm_tokens, expression}
use demonic_c.Parser.Statement.Text.{let_text}

unfoldable pub type_name : ℕ → M Bytes
type_name zero = λ s. out_of_fuel
type_name (suc f) = do
  next ← peek
  when is next "*"
      run (do take; inner ← type_name f; pure (codes "*" ++ inner))
      else when is next "["
      run (do
        take
        elem ← take
        expect (codes ";")
        sz ← take
        expect (codes "]")
        pure (cat (codes "[" ∷ elem ∷ codes ";" ∷ sz ∷ codes "]" ∷ [])))
      else take

-- `if (peek() == ":") { take(); type = type_name(); }`.
unfoldable pub optional_type : ℕ → Bytes → M Bytes
optional_type f default_type = do
  next ← peek
  when is next ":" run (do take; type_name f) else pure default_type

unfoldable pub let_statement : ℕ → M Bytes
let_statement f = do
  take
  name ← take
  written ← optional_type f []
  expect (codes "=")
  val ← expression f (codes ";")
  expect (codes ";")
  st ← gets (λ s. s)
  let type = if is written "" then infer_type st val else written
  bind_type name type
  pure (let_text name type val)

unfoldable pub warn_return : Bytes → M (Unit {0})
warn_return val = do
  st ← gets (λ s. s)
  when not (is st.current_ret "void") && not (is_compatible st.current_ret (infer_type st val))
      run type_warn (
          cat (
            codes "returning '"
            ∷ infer_type st val
            ∷ codes "' from function returning '"
            ∷ st.current_ret
            ∷ codes "'"
            ∷ []))
      else pure tt

unfoldable pub return_statement : ℕ → M Bytes
return_statement f = do
  take
  next ← peek
  when is next ";" run (do take; pure (codes "return;")) else (do
    val ← expression f (codes ";")
    expect (codes ";")
    warn_return val
    pure (cat (codes "return " ∷ val ∷ codes ";" ∷ [])))

-- The condition of a statement, in its parentheses.
unfoldable pub condition : ℕ → M Bytes
condition f = do expect (codes "("); cond ← expression f (codes ")"); expect (codes ")"); pure cond

unfoldable pub for_header : ℕ → M Bytes
for_header f = do
  next ← peek
  when is next "let" || is next "var"
      run (do
        take
        name ← take
        type ← optional_type f (codes "int")
        expect (codes "=")
        init ← expression f (codes ";")
        expect (codes ";")
        cond ← expression f (codes ";")
        expect (codes ";")
        step ← expression f (codes ")")
        pure (
            cat (
              ctype type
              ∷ codes " "
              ∷ name
              ∷ codes " = "
              ∷ init
              ∷ codes "; "
              ∷ cond
              ∷ codes "; "
              ∷ step
              ∷ [])))
      else when is next ";"
      run (do
        take
        cond ← expression f (codes ";")
        expect (codes ";")
        step ← expression f (codes ")")
        pure (cat (codes "; " ∷ cond ∷ codes "; " ∷ step ∷ [])))
      else expression f (codes ")")

unfoldable pub asm_statement : ℕ → M Bytes
asm_statement f = do
  take
  next ← peek
  when is next "{"
      run (do
        take
        body ← asm_tokens f true []
        expect (codes "}")
        pure (cat (codes "__asm__ volatile(" ∷ body ∷ codes ");" ∷ [])))
      else (do
        asm_str ← take
        expect (codes ";")
        pure (cat (codes "__asm__ volatile(" ∷ asm_str ∷ codes ");" ∷ [])))

-- A statement that ends the block: the text begins with `return`, or `proc_exit` stands in it.
unfoldable pub terminates : Bytes → Bool
terminates s = starts_with (codes "return") s || contains (codes "proc_exit") s
