-- ===== src/Emission/Order.antt =====
-- The vectors into which `emit` puts the functions of a program.
use mathlib.Core.List.{Perm, perm_middle}
use mathlib.Core.List.Perm
use demonic_c.Base.{
  List, [], ◌∷◌, ◌++◌, ◌≡◌, refl, ap, ◌∙◌, subst, append_assoc, Bool, not, ◌&&◌, if◌then◌else◌, any,
  Bool-cases, inl, inr,
}
use demonic_c.Text.{is}
use demonic_c.Parser.State.{Function}
use demonic_c.Emission.{group_of, Groups, put_in, groups}

-- What the attributes and the name of a function say.
abbrev pub is_main : Function → Bool
is_main fn = is fn.name "main"

abbrev pub is_test : Function → Bool
is_test fn = any (λ a. is a "test") fn.attributes

abbrev pub is_bench : Function → Bool
is_bench fn = any (λ a. is a "bench") fn.attributes

-- The functions that satisfy a test, in their order.
unfoldable pub kept : (Function → Bool) → List Function → List Function
kept p [] = []
kept p (fn ∷ fns) = let rest = kept p fns in if p fn then fn ∷ rest else rest

-- The tests, the benchmarks that are no tests, and the others; `main` is in none of them.
abbrev pub parted : List Function → Groups
parted fns = record {
  tests = kept (λ fn. not (is_main fn) && is_test fn) fns;
  benches = kept (λ fn. not (is_main fn) && not (is_test fn) && is_bench fn) fns;
  normals = kept (λ fn. not (is_main fn) && not (is_test fn) && not (is_bench fn)) fns;
  has_main = any is_main fns;
}

-- The functions in the order of their definitions.
abbrev pub in_order : Groups → List Function
in_order gs = gs.normals ++ (gs.tests ++ gs.benches)

put_in-parted :
    (fn : Function) (fns : List Function) → put_in (group_of fn) fn (parted fns) ≡ parted (fn ∷ fns)
unfolding group_of kept
put_in-parted fn fns = elim (Bool-cases (is_main fn)) [
  | inl m ↦ rw m refl
  | inr m ↦ elim (Bool-cases (is_test fn)) [
    | inl t ↦ rw (m, t) refl
    | inr t ↦ elim (Bool-cases (is_bench fn)) [
      | inl b ↦ rw (m, t, b) refl
      | inr b ↦ rw (m, t, b) refl
    ]
  ]
]

groups-parted : (fns : List Function) → groups fns ≡ parted fns
unfolding groups kept
groups-parted [] = refl
groups-parted (fn ∷ fns) = ap (put_in (group_of fn) fn) (groups-parted fns) ∙ put_in-parted fn fns

-- An element behind two lists, or between two of three.
middle :
    (fn : Function) (xs bs cs : List Function)
    → Perm (xs ++ ((fn ∷ bs) ++ cs)) (fn ∷ (xs ++ (bs ++ cs)))
middle fn xs bs cs = perm_middle xs (bs ++ cs)

last :
    (fn : Function) (xs bs cs : List Function)
    → Perm (xs ++ (bs ++ (fn ∷ cs))) (fn ∷ (xs ++ (bs ++ cs)))
last fn xs bs cs =
    subst (λ l. Perm l (fn ∷ (xs ++ (bs ++ cs)))) (append_assoc xs bs (fn ∷ cs))
      (subst (λ l. Perm ((xs ++ bs) ++ (fn ∷ cs)) (fn ∷ l)) (append_assoc xs bs cs)
        (perm_middle (xs ++ bs) cs))

-- A function put into its vector is one more of those that are emitted, unless it is a `main`.
parted-kept :
    (fns : List Function) → Perm (in_order (parted fns)) (kept (λ fn. not (is_main fn)) fns)
unfolding kept
parted-kept [] = Perm.refl _
parted-kept (fn ∷ fns) = elim (Bool-cases (is_main fn)) [
  | inl m ↦ rw m (parted-kept fns)
  | inr m ↦ elim (Bool-cases (is_test fn)) [
    | inl t ↦
        rw (m, t)
          (Perm.trans (middle fn (parted fns).normals (parted fns).tests (parted fns).benches)
            (Perm.cons fn (parted-kept fns)))
    | inr t ↦ elim (Bool-cases (is_bench fn)) [
      | inl b ↦
          rw (m, t, b)
            (Perm.trans (last fn (parted fns).normals (parted fns).tests (parted fns).benches)
              (Perm.cons fn (parted-kept fns)))
      | inr b ↦ rw (m, t, b) (Perm.cons fn (parted-kept fns))
    ]
  ]
]

-- Of the functions of a program in their order, `emit` has the tests, the benchmarks that are no tests, and
-- the others without an attribute of these in a vector each, with none named `main` in any, and
-- it knows whether there is a `main`. Together the vectors are a permutation of the functions that
-- are not named `main`.
pub groups-Perm :
    (fns : List Function)
    → (groups fns ≡ parted fns) × Perm (in_order (groups fns)) (kept (λ fn. not (is_main fn)) fns)
groups-Perm fns = (groups-parted fns, rw (groups-parted fns) (parted-kept fns))
