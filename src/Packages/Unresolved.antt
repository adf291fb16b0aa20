-- ===== src/Packages/Unresolved.antt =====
-- What `resolve_dependencies` makes of the names of the dependencies.
use demonic_c.Base.{
  ℕ, ◌≡◌, refl, ap, ◌∙◌, true, false, List, [], ◌∷◌, ◌==◌, some, none, All, ==_iff, Bool-cases, inl,
  inr, arith,
}
use demonic_c.Text.{Bytes, starts_with, isdigit, isalpha, front_isalpha}
use demonic_c.Format.{lines}
use demonic_c.Packages.Semver.{
  no_match, operators, at_operator, plain_version, operator_of, three_numbers, parse_semver,
}
use demonic_c.Packages.Command.{dependencies_in, resolve_all, resolve_dependencies}

other_byte : (c k : ℕ) → isalpha c ≡ true → isalpha k ≡ false → (k == c) ≡ false
other_byte c k h e = elim (Bool-cases (k == c)) [
  | inl same ↦ absurd (cc (h, e, ap isalpha ((==_iff k c).0 same)))
  | inr other ↦ other
]

no_digit : (c : ℕ) → isalpha c ≡ true → isdigit c ≡ false
no_digit c h = ground (arith, h)

operator_of-name : (c : ℕ) (cs : Bytes) → isalpha c ≡ true → operator_of operators (c ∷ cs) ≡ none
unfolding operator_of starts_with
operator_of-name c cs h = rw (
  other_byte c b'>' h refl,
  other_byte c b'<' h refl,
  other_byte c b'=' h refl,
  other_byte c b'~' h refl,
)

three_numbers-name : (c : ℕ) (cs : Bytes) → isalpha c ≡ true → three_numbers (c ∷ cs) ≡ none
unfolding three_numbers
three_numbers-name c cs h = rw (no_digit c h)

parse_semver-name : (dep : Bytes) → front_isalpha dep ≡ true → parse_semver dep ≡ no_match
unfolding parse_semver
parse_semver-name [] h = absurd cc
parse_semver-name (c ∷ cs) h =
    ap (at_operator (c ∷ cs)) (operator_of-name c cs h)
    ∙ ap plain_version (three_numbers-name c cs h)

resolve_all-names :
    (deps : List Bytes) → All (λ d. front_isalpha d ≡ true) deps → resolve_all deps ≡ some []
unfolding resolve_all
resolve_all-names [] h = refl
resolve_all-names (d ∷ deps) (h, hs) = rw (parse_semver-name d h) (resolve_all-names deps hs)

-- `resolve_dependencies` resolves no dependency with a name that begins with a letter: where all names
-- in `dmc.toml` are such, it prints nothing, whatever versions they have.
resolve_dependencies-names :
    (toml : Bytes)
    → All (λ d. front_isalpha d ≡ true) (dependencies_in false (lines toml))
    → resolve_dependencies (some toml) ≡ some []
unfolding resolve_dependencies
resolve_dependencies-names toml h = resolve_all-names (dependencies_in false (lines toml)) h
