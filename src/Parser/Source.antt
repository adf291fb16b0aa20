-- ===== src/Parser/Source.antt =====
-- `Parser(lex(text))`, and the loop of `collect_declarations` on it.
use demonic_c.Base.{ℕ, ◌*◌, ◌≤◌, ◌≡◌, refl, sym, subst, List, [], ◌∷◌, ◌++◌, arith, length}
use demonic_c.Text.{Bytes, codes}
use demonic_c.Result.{ok}
use demonic_c.Lexer.{Token, eof, lex}
use demonic_c.Lexer.Sentinel.{lex-EndsInEof}
use demonic_c.Parser.State.{State}
use demonic_c.Parser.Runs.{Ended}
use demonic_c.Parser.Declaration.{declarations}
use demonic_c.Parser.Declaration.Loop.{NoImport, Finishes, declarations_finish}

-- The constructor of `Parser`.
abbrev pub initial : List Token → State
initial ts = record {
  rest = ts;
  functions = [];
  structs = [];
  enums = [];
  scopes = [];
  diagnostics = [];
  type_warnings = [];
  current_ret = codes "int";
}

append-Ended : (body : List Token) (l : ℕ) → Ended (body ++ (eof l ∷ []))
append-Ended [] l = refl
append-Ended (t ∷ []) l = refl
append-Ended (t ∷ u ∷ body) l = append-Ended (u ∷ body) l

pub Ended-nonempty : (ts : List Token) → Ended ts → 1 ≤ length ts
Ended-nonempty [] e = absurd e
Ended-nonempty (t ∷ ts) e = omega arith

pub lex-Ended : (src : Bytes) {ts : List Token} → lex src ≡ ok ts → Ended ts
lex-Ended src e =
    let (body, l, whole, proper) = lex-EndsInEof src e in
    subst Ended (sym whole) (append-Ended body l)

-- On the tokens of every source that `lex` accepts, if no token of it is `import`, the loop of
-- `collect_declarations` ends on ten units of fuel for each token: it comes to the end marker, or
-- throws `std::out_of_range`, or meets a signed overflow in a folded constant.
pub source-Finishes :
    (src : Bytes) {ts : List Token}
    → lex src ≡ ok ts
    → NoImport ts
    → Finishes (declarations (10 * length ts) (initial ts))
source-Finishes src {ts} e n =
    declarations_finish (10 * length ts) (initial ts) (lex-Ended src e) n
      (omega (arith, Ended-nonempty ts (lex-Ended src e)))
