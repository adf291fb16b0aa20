-- ===== src/Parser/Statement/Dead.antt =====
-- The statements of a block, and what `block_inner` makes of those behind one that ends the block.
use demonic_c.Base.{
  ℕ, zero, suc, ◌≡◌, sym, ◌∙◌, subst, Bool, true, false, ◌||◌, List, [], ◌∷◌, ◌++◌, append_assoc,
  append-nil, ◌+◌, ◌*◌, ◌≤◌, length, if◌then◌else◌, inl, inr,
}
use demonic_c.Text.{Bytes, codes, is}
use demonic_c.Parser.State.{State, Outcome, ok, when◌run◌else◌, peek}
use demonic_c.Parser.Returns.{bind-eq-ok, when-eq-ok, peek-same}
use demonic_c.Parser.Runs.{Ended, Yields, Runs-Yields}
use demonic_c.Parser.Statement.Total.{block_inner-Runs}
use demonic_c.Parser.Statement.{statement, terminates, block_inner}

-- The texts of a block between two states: statements run one behind the other up to a `}`. Each
-- stands with its own text as long as none before it ended the block, and with `0;` behind that.
pub data Reads : Bool → State → List Bytes → State → Type 0 where
  stop :
      {b : Bool} {s : State} (next : Bytes)
      → peek s ≡ ok next s
      → is next "}" ≡ true
      → Reads b s [] s
  live :
      (f : ℕ) {s t u : State} (text : Bytes) {texts : List Bytes}
      → statement f s ≡ ok text t
      → Reads (terminates text) t texts u
      → Reads false s (text ∷ texts) u
  dead :
      (f : ℕ) {s t u : State} (text : Bytes) {texts : List Bytes}
      → statement f s ≡ ok text t
      → Reads true t texts u
      → Reads true s (codes "0;" ∷ texts) u

one_more :
    (b : Bool) (f : ℕ) (acc : List Bytes) {s t u : State} {text : Bytes} {rest : List Bytes}
    → statement f s ≡ ok text t
    → Reads (b || terminates text) t rest u
    → (texts : List Bytes) × ((acc ++ ((if b then codes "0;" else text) ∷ [])) ++ rest
        ≡ acc ++ texts)
      × Reads b s texts u
one_more true f acc {text = text} {rest = rest} e h =
    (codes "0;" ∷ rest, append_assoc acc _ rest, dead f text e h)
one_more false f acc {text = text} {rest = rest} e h =
    (text ∷ rest, append_assoc acc _ rest, live f text e h)

block_end :
    (b : Bool) (acc : List Bytes) (next : Bytes) {out : List Bytes} {s t u : State}
    → t ≡ s
    → is next "}" ≡ true
    → peek s ≡ ok next t
    → Outcome.ok acc t ≡ ok out u
    → (texts : List Bytes) × (out ≡ acc ++ texts) × Reads b s texts u
block_end b acc next {out} {s} {t} {u} same closes read done =
    let result : out ≡ acc = cc in
    let last : u ≡ s = cc in
    ([], result ∙ sym (append-nil acc), subst (Reads b s []) (sym last) (stop next (cc) closes))

block_inner-acc :
    (f : ℕ) (b : Bool) (acc out : List Bytes) (s u : State)
    → block_inner f b acc s ≡ ok out u
    → (texts : List Bytes) × (out ≡ acc ++ texts) × Reads b s texts u
unfolding block_inner
block_inner-acc zero b acc out s u e = cc
block_inner-acc (suc f) b acc out s u e =
    let (next, t, read, e₁) = bind-eq-ok (peek s) _ e in
    let same = peek-same s read in
    elim (when-eq-ok (is next "}") _ _ e₁) [
      | inl (closes, done) ↦ block_end b acc next same closes read done
      | inr (more, e₂) ↦
          let (text, v, ran, e₃) = bind-eq-ok (statement f t) _ e₂ in
          let (texts, whole, reads) = block_inner-acc f (b || terminates text) _ out v u e₃ in
          let (all, split, read_all) =
            one_more b f acc (subst (λ x. statement f x ≡ ok text v) same ran) reads in
          (all, whole ∙ split, read_all)
    ]

-- Where `block_inner` returns, the texts are those of the statements in order up to a `}`, each with its
-- own text up to the first whose text begins with `return` or has `proc_exit` in it, and with `0;`
-- behind that one.
block_inner-Reads :
    (f : ℕ) {out : List Bytes} (s u : State)
    → block_inner f false [] s ≡ ok out u
    → Reads false s out u
block_inner-Reads f s u e =
    let (texts, whole, reads) = block_inner-acc f false [] _ s u e in
    subst (λ l. Reads false s l u) (sym whole) reads

-- On enough fuel `block_inner` returns, or throws, or meets a signed overflow in a folded constant. Where
-- it returns, the texts are those of the statements in order up to a `}`, each with its own text up to
-- the first whose text begins with `return` or has `proc_exit` in it, and with `0;` behind that one.
pub block_inner-Yields :
    (f : ℕ) (s : State)
    → Ended s.rest
    → 8 * length s.rest + 5 ≤ f
    → Yields (λ out u. Reads false s out u) (block_inner f false [] s)
block_inner-Yields f s e h =
    Runs-Yields _ (block_inner-Runs f false [] s e h) (λ out u ran. block_inner-Reads f s u ran)
