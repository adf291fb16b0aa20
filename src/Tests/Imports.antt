-- ===== src/Tests/Imports.antt =====
-- The theorems on imports at two files that import each other.
use demonic_c.Base.{
  ℕ, inl, inr, Bool-cases, ◌≡◌, refl, true, List, [], ◌∷◌, none, some, if◌then◌else◌, any, ◌++◌,
  map,
}
use demonic_c.Text.{Bytes, codes, eqb, is}
use demonic_c.Lexer.{lex, Token}
use demonic_c.Result.{Result}
use demonic_c.Files.{Files}
use demonic_c.Parser.State.{State, Outcome, peek, when◌run◌else◌, take, expect}
use demonic_c.Parser.Import.{import_loop, import_name}
use demonic_c.Parser.Declaration.{
  declaration, function, attribute_loop, function_rest, function_scope, parameters, return_type,
}
use demonic_c.Parser.Statement.{block}
use demonic_c.Parser.Merge.{merge_into, merge_named}
use demonic_c.Parser.Source.{initial}
use demonic_c.Parser.Load.{Paths, collect_declarations}

-- Paths by their texts, all in one directory.
abbrev pub flat : Paths
flat = record { parent_path = λ p. []; join = λ dir name. dir ++ name }

abbrev pub importing_b : Bytes
importing_b = codes "import b; fn f() { }"

abbrev pub importing_a : Bytes
importing_a = codes "import a;"

abbrev pub two_files : Files
two_files path =
    if is path "a.dmc" then some importing_b else if is path "b.dmc" then some importing_a else none

abbrev pub tokens_of : Result (List Token) → List Token
tokens_of (Result.ok ts) = ts
tokens_of _ = []

abbrev pub start : State
start = initial (tokens_of (lex importing_b))

abbrev from_a : ℕ → Outcome (List Bytes)
from_a f =
    collect_declarations flat two_files f
      (record { source = codes "a.dmc"; include_dirs = []; loaded = [] }) start

abbrev loaded_by : Outcome (List Bytes) → List Bytes
loaded_by (Outcome.ok loaded s) = loaded
loaded_by _ = []

abbrev state_of : Outcome (List Bytes) → State
state_of (Outcome.ok loaded s) = s
state_of _ = start

-- The file at the root is loaded again, and its function is there twice.
import-cycle : map (λ f. f.name) (state_of (from_a 3)).functions ≡ codes "f" ∷ codes "f" ∷ []
unfolding collect_declarations lex import_loop peek when◌run◌else◌ take expect import_name
    declaration function attribute_loop function_rest function_scope parameters return_type block
    merge_into merge_named eqb
import-cycle = refl

abbrev pub both : List Bytes
both = codes "a.dmc" ∷ codes "b.dmc" ∷ []

pub two_files-both : (path text : Bytes) → two_files path ≡ some text → any (eqb path) both ≡ true
two_files-both path text e = elim (Bool-cases (eqb path (codes "a.dmc"))) [
  | inl a ↦ rw a
  | inr not_a ↦ elim (Bool-cases (eqb path (codes "b.dmc"))) [
    | inl b ↦ rw (not_a, b)
    | inr not_b ↦ cc (rw (not_a, not_b) at e)
  ]
]
