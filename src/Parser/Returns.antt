-- ===== src/Parser/Returns.antt =====
-- A run of the parser that returned, taken apart.
use demonic_c.Base.{◌≡◌, ◌⊎◌, refl, Bool, true, false, List, [], ◌∷◌, inl, inr}
use demonic_c.Text.{Bytes}
use demonic_c.Lexer.{Token}
use demonic_c.Parser.State.{
  State, M, Outcome, ok, throws, out_of_bounds, overflow, out_of_fuel, bind, when◌run◌else◌, peek,
  read_token,
}

pub bind-eq-ok :
    {A B : Type 0} (r : Outcome A) (k : A → M B) {b : B} {u : State}
    → bind r k ≡ ok b u
    → (a : A) × (t : State) × (r ≡ ok a t) × (k a t ≡ ok b u)
bind-eq-ok (ok a t) k e = (a, t, refl, e)
bind-eq-ok (throws x s) k e = cc
bind-eq-ok out_of_bounds k e = cc
bind-eq-ok overflow k e = cc
bind-eq-ok out_of_fuel k e = cc

pub when-eq-ok :
    {A : Type 0} (b : Bool) (m n : M A) {s u : State} {a : A}
    → (when b run m else n) s ≡ ok a u
    → ((b ≡ true) × (m s ≡ ok a u)) ⊎ ((b ≡ false) × (n s ≡ ok a u))
unfolding when◌run◌else◌
when-eq-ok true m n e = inl (refl, e)
when-eq-ok false m n e = inr (refl, e)

read_token-same :
    {A : Type 0} (g : Token → A) (ts : List Token) (s : State) {a : A} {t : State}
    → read_token g ts s ≡ ok a t
    → t ≡ s
read_token-same g [] s e = cc
read_token-same g (x ∷ ts) s e = cc

-- Reading the current token changes nothing.
pub peek-same : (s : State) {next : Bytes} {t : State} → peek s ≡ ok next t → t ≡ s
unfolding peek
peek-same s e = read_token-same (λ t. t.text) s.rest s e
