-- ===== src/Parser/Merge/Names.antt =====
-- The names of merged declarations.
use demonic_c.Base.{
  ◌≡◌, refl, sym, ◌∙◌, Bool, true, false, List, [], ◌∷◌, ◌++◌, append_assoc, append-nil, any, inl,
  inr, ||-eq-false, All, All-append, Bool-cases,
}
use demonic_c.Text.{Bytes, eqb, eqb_iff}
use demonic_c.Parser.State.{Function, Struct, Enum, State}
use demonic_c.Parser.Merge.{has_name, merge_named, merge_into}

eqb_self : (a : Bytes) → eqb a a ≡ true
eqb_self a = (eqb_iff a a).1 refl

module _ {A : Type 0} where
  any-append : (p : A → Bool) (xs ys : List A) → any p xs ≡ true → any p (xs ++ ys) ≡ true
  any-append p [] ys h = cc
  any-append p (x ∷ xs) ys h = elim (Bool-cases (p x)) [
    | inl e ↦ rw e
    | inr e ↦ rw e (any-append p xs ys (rw e at h))
  ]

  any-last : (p : A → Bool) (xs : List A) (x : A) → p x ≡ true → any p (xs ++ (x ∷ [])) ≡ true
  any-last p [] x h = rw h
  any-last p (y ∷ xs) x h = elim (Bool-cases (p y)) [
    | inl e ↦ rw e
    | inr e ↦ rw e (any-last p xs x h)
  ]

-- No two of these have the same name.
abbrev pub Distinct : {A : Type 0} → (A → Bytes) → List A → Type 0
Distinct name_of [] = Unit
Distinct name_of (x ∷ xs) = All (λ y. eqb (name_of x) (name_of y) ≡ false) xs × Distinct name_of xs

-- What merging `xs` into `target` should give: the target and some more behind it, with a name for
-- each of `xs`, and no name twice if the target had none twice.
pub record Merged {A : Type 0} (name_of : A → Bytes) (xs target merged : List A) : Type 0 where
  pub kept : (added : List A) × (merged ≡ target ++ added)
  pub named : All (λ x. has_name name_of merged (name_of x) ≡ true) xs
  pub distinct : Distinct name_of target → Distinct name_of merged

module _ {A : Type 0} (name_of : A → Bytes) where
  Distinct-last :
      (xs : List A) (x : A)
      → Distinct name_of xs
      → has_name name_of xs (name_of x) ≡ false
      → Distinct name_of (xs ++ (x ∷ []))
  Distinct-last [] x d h = (tt, tt)
  Distinct-last (y ∷ xs) x d h =
      let (apart, others) = ||-eq-false _ _ h in
      (All-append _ xs (x ∷ []) d.0 (apart, tt), Distinct-last xs x d.1 others)

  module _ (x : A) (xs target : List A) where
    -- A thing that is new.
    Merged-new :
        {merged : List A}
        → has_name name_of target (name_of x) ≡ false
        → Merged name_of xs (target ++ (x ∷ [])) merged
        → Merged name_of (x ∷ xs) target merged
    Merged-new h m = record {
      kept = (x ∷ m.kept.0, m.kept.1 ∙ append_assoc target (x ∷ []) m.kept.0);
      named = (
        rw m.kept.1 (
            any-append _ (target ++ (x ∷ [])) m.kept.0
              (any-last _ target x (eqb_self (name_of x)))),
        m.named,
      );
      distinct = λ d. m.distinct (Distinct-last target x d h);
    }

    -- A thing whose name is taken.
    Merged-taken :
        {merged : List A}
        → has_name name_of target (name_of x) ≡ true
        → Merged name_of xs target merged
        → Merged name_of (x ∷ xs) target merged
    Merged-taken h m = record {
      kept = m.kept;
      named = (rw m.kept.1 (any-append _ target m.kept.0 h), m.named);
      distinct = m.distinct;
    }

  merge_named-Merged :
      (xs target : List A) → Merged name_of xs target (merge_named name_of xs target)
  unfolding merge_named
  merge_named-Merged [] target = record {
    kept = ([], sym (append-nil target));
    named = tt;
    distinct = λ d. d;
  }
  merge_named-Merged (x ∷ xs) target = elim (Bool-cases (has_name name_of target (name_of x))) [
    | inl e ↦ rw e (Merged-taken x xs target e (merge_named-Merged xs target))
    | inr e ↦ rw e (Merged-new x xs target e (merge_named-Merged xs (target ++ (x ∷ []))))
  ]

-- Merging an imported file keeps every declaration of the importer in its place, gives it a struct, an
-- enum and a function for each name that the imported file declares, and puts no name twice among the
-- declarations of a kind where the importer had none twice.
pub merge_into-Merged :
    (imported importer : State)
    → Merged
        (λ s. Struct.name s)
        imported.structs
        importer.structs
        (merge_into imported importer).structs
      × Merged (λ e. Enum.name e) imported.enums importer.enums (merge_into imported importer).enums
      × Merged
          (λ f. Function.name f)
          imported.functions
          importer.functions
          (merge_into imported importer).functions
unfolding merge_into
merge_into-Merged imported importer = (
  merge_named-Merged (λ s. Struct.name s) imported.structs importer.structs,
  merge_named-Merged (λ e. Enum.name e) imported.enums importer.enums,
  merge_named-Merged (λ f. Function.name f) imported.functions importer.functions,
)
