-- ===== src/Parser/State/Lookup.antt =====
-- `bind_type` and `lookup_type` of class `Parser`.
use demonic_c.Base.{
  ◌≡◌, refl, ap, Bool, true, false, List, [], ◌∷◌, Option, some, none, if◌then◌else◌,
}
use demonic_c.Text.{Bytes, eqb}
use demonic_c.Parser.State.{Scope, bind_in, lookup_in, lookup_type}

-- A binding in front of a scope, by whether it is of the name looked up.
lookup_in-first :
    (name type other : Bytes) (scope : Scope) (b : Bool)
    → eqb name other ≡ b
    → lookup_in other ((name, type) ∷ scope) ≡ (if b then some type else lookup_in other scope)
unfolding lookup_in
lookup_in-first name type other scope b e = rw e

lookup_type-first :
    (scope : Scope) (scopes : List Scope) (other : Bytes) (found : Option Bytes)
    → lookup_in other scope ≡ found
    → lookup_type (scope ∷ scopes) other
      ≡ elim found [ some type ↦ type | none ↦ lookup_type scopes other ]
unfolding lookup_type
lookup_type-first scope scopes other found e =
    ap (λ r. elim r [ some type ↦ type | none ↦ lookup_type scopes other ]) e

module _ (name type other : Bytes) (scope : Scope) (scopes : List Scope) where
  bound_first :
      (b : Bool)
      → eqb name other ≡ b
      → lookup_type (((name, type) ∷ scope) ∷ scopes) other
        ≡ (if b then type else lookup_type (scope ∷ scopes) other)
  unfolding lookup_type
  bound_first true e =
      lookup_type-first ((name, type) ∷ scope) scopes other (some type)
        (lookup_in-first name type other scope true e)
  bound_first false e =
      lookup_type-first ((name, type) ∷ scope) scopes other (lookup_in other scope)
        (lookup_in-first name type other scope false e)

-- A name looked up behind a binding has the bound type if it is the bound name, and what it had before
-- if it is another, through all scopes and also where there was no scope.
pub lookup_type-bind_in :
    (scopes : List Scope) (name type other : Bytes)
    → lookup_type (bind_in name type scopes) other
      ≡ (if eqb name other then type else lookup_type scopes other)
unfolding lookup_type lookup_in
lookup_type-bind_in [] name type other = bound_first name type other [] [] (eqb name other) refl
lookup_type-bind_in (scope ∷ scopes) name type other =
    bound_first name type other scope scopes (eqb name other) refl
