-- ===== src/Parser/Import.antt =====
-- `parse_imports` of class `Parser` and `is_builtin_module` in compiler/dmc.cpp: the imports in front of
-- the declarations.
use Prim.Native.String.{String}
use demonic_c.Base.{
  ℕ, zero, suc, ◌+◌, ◌-◌, ◌≤◌, ◌≡◌, refl, sym, ◌∙◌, subst, Bool, false, ◌&&◌, List, [], ◌∷◌, ◌++◌,
  if◌then◌else◌, any, arith, length, leb, ltb, inl, inr,
}
use demonic_c.Text.{Bytes, codes, is, front_is, substr}
use demonic_c.Format.{back_is}
use demonic_c.Parser.State.{
  State, M, ok, out_of_fuel, ◌>>=◌, ◌>>◌, pure, peek, take, expect, when◌run◌else◌,
}
use demonic_c.Parser.Returns.{bind-eq-ok, when-eq-ok, peek-same}
use demonic_c.Parser.Runs.{
  Ended, Runs, Runs-bind, Runs-weaken, pure-Runs, peek_then, when-Runs, take-Runs, expect-Runs,
}

abbrev pub builtin_modules : List String
builtin_modules =
    "io" ∷ "text" ∷ "math" ∷ "mem" ∷ "core" ∷ "process" ∷ "fs" ∷ "collections" ∷ "low" ∷ "json"
    ∷ "http" ∷ "datetime" ∷ "regex" ∷ "db" ∷ []

unfoldable pub is_builtin_module : Bytes → Bool
is_builtin_module name = any (is name) builtin_modules

-- What one import adds to the modules: its name, without the quotes of a path.
unfoldable pub import_name : Bytes → List Bytes
import_name name =
    if leb 2 (length name) && front_is b'"' name && back_is b'"' name
    then (if ltb 2 (length name) then substr name 1 (length name - 2) ∷ [] else [])
    else name ∷ []

unfoldable pub import_loop : ℕ → List Bytes → M (List Bytes)
import_loop zero mods = λ s. out_of_fuel
import_loop (suc f) mods = do
  next ← peek
  when is next "import"
      run (do take; name ← take; expect (codes ";"); import_loop f (mods ++ import_name name))
      else pure mods

unfoldable pub parse_imports : ℕ → M (List Bytes)
parse_imports f = import_loop f []

import_loop-Runs :
    (f : ℕ) (mods : List Bytes) (s : State)
    → Ended s.rest
    → length s.rest + 1 ≤ f
    → Runs 0 s (import_loop f mods s)
unfolding import_loop
import_loop-Runs zero mods s e h = absurd (omega arith)
import_loop-Runs (suc f) mods s e h = peek_then s _ e λ next.
    when-Runs 0 s _ _ _
      (λ _. Runs-weaken (omega arith) (
        Runs-bind (take-Runs s e) λ _ s₁ p₁. Runs-bind (take-Runs s₁ p₁.ended) λ name s₂ p₂.
          Runs-bind (expect-Runs s₂ (codes ";") refl p₂.ended) λ _ s₃ p₃.
            import_loop-Runs f _ s₃ p₃.ended (omega (arith, p₁.shorter, p₂.shorter, p₃.shorter))))
      (λ _. pure-Runs mods e)

-- From a state whose tokens end with the end marker, and on a unit of fuel for each token and one more,
-- `parse_imports` returns or throws, or meets a signed overflow. It reads no token behind the last,
-- changes no declaration and no recorded error, and, where it returns, no scope but the innermost.
pub parse_imports_ends :
    (f : ℕ) (s : State) → Ended s.rest → length s.rest + 1 ≤ f → Runs 0 s (parse_imports f s)
unfolding parse_imports
parse_imports_ends f s e h = import_loop-Runs f [] s e h

import_loop-stops :
    (f : ℕ) (mods : List Bytes) (s : State) {result : List Bytes} {t : State}
    → import_loop f mods s ≡ ok result t
    → (next : Bytes) × (peek t ≡ ok next t) × (is next "import" ≡ false)
unfolding import_loop
import_loop-stops zero mods s e = cc
import_loop-stops (suc f) mods s {result} {t} e =
    let (next, s₀, read, e₁) = bind-eq-ok (peek s) _ e in
    elim (when-eq-ok (is next "import") _ _ e₁) [
      | inl (more, e₂) ↦
          let (_, s₁, _, e₃) = bind-eq-ok (take s₀) _ e₂ in
          let (name, s₂, _, e₄) = bind-eq-ok (take s₁) _ e₃ in
          let (_, s₃, _, e₅) = bind-eq-ok (expect (codes ";") s₂) _ e₄ in
          import_loop-stops f _ s₃ e₅
      | inr (stops, done) ↦
          let same : s₀ ≡ s = peek-same s read in
          let last : t ≡ s₀ = cc in
          (
            next,
            subst (λ u. peek u ≡ ok next u) (sym (last ∙ same))
                (subst (λ u. peek s ≡ ok next u) same read),
            stops,
          )
    ]

-- Where `parse_imports` returns, the current token is no `import`.
pub parse_imports-stops :
    (f : ℕ) (s : State) {mods : List Bytes} {t : State}
    → parse_imports f s ≡ ok mods t
    → (next : Bytes) × (peek t ≡ ok next t) × (is next "import" ≡ false)
unfolding parse_imports
parse_imports-stops f s e = import_loop-stops f [] s e
