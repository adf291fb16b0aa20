-- ===== src/Parser/Expression/Grammar.antt =====
-- The grammar of operators, apart from `parse_binary`, and the C text of its expressions.
use demonic_c.Base.{ℕ, ◌+◌, ◌≤◌, ◌<◌, ◌≡◌, Bool, true, false, ◌||◌, List, [], ◌∷◌}
use demonic_c.Text.{Bytes, codes, is, cat, front_isdigit, front_isalpha, front_is}
use demonic_c.Lexer.{Token}
use demonic_c.Parser.State.{State, ok, lookup_type}
use demonic_c.Parser.Types.{is_enum_variant_name}
use demonic_c.Parser.Fold.{binary_precedence}
use demonic_c.Parser.Expression.{apply_operator}

-- An expression as a tree of its tokens: a literal or a name, a prefix operator with its operand, a group
-- in parentheses, and an operator between two operands.
pub data Tree : Type 0 where
  leaf : Token → Tree
  prefixed : Token → Tree → Tree
  group : Token → Tree → Token → Tree
  binary : Tree → Token → Tree → Tree

-- Its tokens, in front of others.
unfoldable pub tokens : Tree → List Token → List Token
tokens (leaf t) rest = t ∷ rest
tokens (prefixed op e) rest = op ∷ tokens e rest
tokens (group opening e closing) rest = opening ∷ tokens e (closing ∷ rest)
tokens (binary l op r) rest = tokens l (op ∷ tokens r rest)

-- The state with these tokens left.
abbrev pub at : State → List Token → State
at s rest = record s { rest = rest }

-- A prefix operator, and the highest level of a grammar of operands.
abbrev pub is_prefix : Bytes → Bool
is_prefix op = is op "!" || is op "-" || is op "*"

abbrev pub operand_level : ℕ
operand_level = 7

-- A variable of the state that is no variant of an enum.
pub record IsVariable (s : State) (t : Bytes) : Type 0 where
  pub letter : front_isalpha t || front_is b'_' t ≡ true
  pub no_true : is t "true" ≡ false
  pub no_false : is t "false" ≡ false
  pub no_asm : is t "asm" ≡ false
  pub no_variant : is_enum_variant_name s.enums t ≡ false
  pub declared : is (lookup_type s.scopes t) "" ≡ false

-- The expressions of each level and their C texts. On the level `p` an operator has a precedence of `p`
-- at least; its left operand is of its own level and its right operand of the next, so that operators
-- of one precedence group to the left. A text is of operands put together by `apply_operator`, where
-- that warns of nothing in the state `s`.
pub data Reads (s : State) : ℕ → Tree → Bytes → Type 0 where
  reads_literal : {p : ℕ} (t : Token) → front_isdigit t.text ≡ true → Reads s p (leaf t) t.text
  reads_name : {p : ℕ} (t : Token) → IsVariable s t.text → Reads s p (leaf t) t.text
  reads_prefixed :
      {p : ℕ} {e : Tree} {v : Bytes} (op : Token)
      → is_prefix op.text ≡ true
      → Reads s operand_level e v
      → Reads s p (prefixed op e) (cat (codes "(" ∷ op.text ∷ v ∷ codes ")" ∷ []))
  reads_group :
      {p : ℕ} {e : Tree} {v : Bytes} (opening closing : Token)
      → opening.text ≡ codes "("
      → closing.text ≡ codes ")"
      → Reads s 0 e v
      → Reads s p (group opening e closing) (cat (codes "(" ∷ v ∷ codes ")" ∷ []))
  reads_binary :
      {p : ℕ} {l r : Tree} {v w x : Bytes} (op : Token)
      → 0 < binary_precedence op.text
      → p ≤ binary_precedence op.text
      → Reads s (binary_precedence op.text) l v
      → Reads s (binary_precedence op.text + 1) r w
      → ((rest : List Token) → apply_operator v op.text w (at s rest) ≡ ok x (at s rest))
      → Reads s p (binary l op r) x
