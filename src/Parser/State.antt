-- ===== src/Parser/State.antt =====
-- The fields of `class Parser`, the records that it builds, and the primitives on the token list. The
-- index `index_` into `tokens_` is modelled by the tokens from there on.
pub mod Lookup
use demonic_c.Base.{ℕ, Bool, List, [], ◌∷◌, ◌++◌, Option, none, some, if◌then◌else◌, drop}
use demonic_c.Text.{Bytes, codes, eqb, is, to_string}
use demonic_c.Result.{Error, runtime_error}
use demonic_c.Lexer.{Token}

pub record Diagnostic : Type 0 where
  pub line : ℕ
  pub message : Bytes

pub record Param : Type 0 where
  pub name : Bytes
  pub type : Bytes

pub record Field : Type 0 where
  pub name : Bytes
  pub type : Bytes

pub record Function : Type 0 where
  pub name : Bytes
  pub ret_type : Bytes
  pub params : List Param
  pub body : List Bytes
  pub attributes : List Bytes

pub record Struct : Type 0 where
  pub name : Bytes
  pub fields : List Field

pub record Enum : Type 0 where
  pub name : Bytes
  pub variants : List Bytes

pub record Case : Type 0 where
  pub value : Bytes
  pub body : List Bytes

-- A scope's map from names to types: the last binding of a name stands first.
abbrev pub Scope : Type 0
Scope = List (Bytes × Bytes)

-- `scopes` has the innermost scope, the back of the vector, first. `source_`, `loaded_` and
-- `include_dirs_`, which serve the imports alone, stand in Parser/Load; `imports_` is left out.
pub record State : Type 0 where
  pub rest : List Token
  pub functions : List Function
  pub structs : List Struct
  pub enums : List Enum
  pub scopes : List Scope
  pub diagnostics : List Diagnostic
  pub type_warnings : List Diagnostic
  pub current_ret : Bytes

-- What a member function ends in, with the fields as they are then, also where it throws.
-- `out_of_bounds` is a read behind the tokens and `overflow` a signed overflow, which have no
-- meaning in C++; `out_of_fuel` has no counterpart in the program.
pub data Outcome (A : Type 0) : Type 0 where
  ok : A → State → Outcome A
  throws : Error → State → Outcome A
  out_of_bounds : Outcome A
  overflow : Outcome A
  out_of_fuel : Outcome A

abbrev pub M : Type 0 → Type 0
M A = State → Outcome A

abbrev pub bind : {A B : Type 0} → Outcome A → (A → M B) → Outcome B
bind (ok a s) f = f a s
bind (throws e s) f = throws e s
bind out_of_bounds f = out_of_bounds
bind overflow f = overflow
bind out_of_fuel f = out_of_fuel

infixl 1 ◌>>=◌ ◌>>◌
abbrev pub ◌>>=◌ : {A B : Type 0} → M A → (A → M B) → M B
◌>>=◌ m f s = bind (m s) f

abbrev pub ◌>>◌ : {A B : Type 0} → M A → M B → M B
◌>>◌ m k s = bind (m s) (λ _. k)

abbrev pub pure : {A : Type 0} → A → M A
pure a s = ok a s

abbrev pub gets : {A : Type 0} → (State → A) → M A
gets f s = ok (f s) s

abbrev pub modify : (State → State) → M (Unit {0})
modify f s = ok tt (f s)

-- `if` between two actions.
infix 1 when◌run◌else◌
unfoldable pub when◌run◌else◌ : {A : Type 0} → Bool → M A → M A → M A
when b run m else n = if b then m else n

-- `tokens_[index_].line` and `tokens_[index_].text`.
abbrev pub read_token : {A : Type 0} → (Token → A) → List Token → M A
read_token f [] s = out_of_bounds
read_token f (t ∷ ts) s = ok (f t) s

unfoldable pub current_line : M ℕ
current_line s = read_token (λ t. t.line) s.rest s

unfoldable pub peek : M Bytes
peek s = read_token (λ t. t.text) s.rest s

unfoldable pub throw_error : {A : Type 0} → Bytes → M A
throw_error message s = throws (runtime_error message) s

unfoldable pub fail : {A : Type 0} → Bytes → M A
fail message = do
  line ← current_line
  throw_error (message ++ (codes " at line " ++ to_string line))

-- `++index_`.
abbrev pub advance : State → State
advance s = record s { rest = drop 1 s.rest }

unfoldable pub take : M Bytes
take = do
  text ← peek
  when is text "<eof>" run fail (codes "unexpected end of file") else (do modify advance; pure text)

unfoldable pub expect : Bytes → M (Unit {0})
expect value = do
  text ← peek
  when eqb text value
      run modify advance
      else fail (codes "expected '" ++ (value ++ (codes "', got '" ++ (text ++ codes "'"))))

-- `if (peek() == value) take();`
unfoldable pub skip_if : Bytes → M (Unit {0})
skip_if value = do text ← peek; when eqb text value run (do take; pure tt) else pure tt

unfoldable pub type_warn : Bytes → M (Unit {0})
type_warn message = do
  line ← current_line
  modify (λ s. record s {
    type_warnings = s.type_warnings ++ (record { line = line; message = message } ∷ []);
  })

-- `scopes_.back()[name] = type`, in a new scope where there is none.
abbrev pub bind_in : Bytes → Bytes → List Scope → List Scope
bind_in name type [] = ((name, type) ∷ []) ∷ []
bind_in name type (scope ∷ scopes) = ((name, type) ∷ scope) ∷ scopes

unfoldable pub bind_type : Bytes → Bytes → M (Unit {0})
bind_type name type = modify (λ s. record s { scopes = bind_in name type s.scopes })

unfoldable pub lookup_in : Bytes → Scope → Option Bytes
lookup_in name [] = none
lookup_in name ((n, type) ∷ scope) = if eqb n name then some type else lookup_in name scope

unfoldable pub lookup_type : List Scope → Bytes → Bytes
unfolding lookup_in
lookup_type [] name = []
lookup_type (scope ∷ scopes) name = elim (lookup_in name scope) [
  | some type ↦ type
  | none ↦ lookup_type scopes name
]

abbrev pub push_scope : M (Unit {0})
push_scope = modify (λ s. record s { scopes = [] ∷ s.scopes })

abbrev pub pop_scope : M (Unit {0})
pop_scope = modify (λ s. record s { scopes = drop 1 s.scopes })
