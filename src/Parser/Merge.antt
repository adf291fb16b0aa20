-- ===== src/Parser/Merge.antt =====
-- `merge_into` and `has_function` of class `Parser` in compiler/dmc.cpp: the declarations of an imported
-- file join those of the importer.
pub mod Names
use demonic_c.Base.{Bool, List, [], ◌∷◌, ◌++◌, any, if◌then◌else◌}
use demonic_c.Text.{Bytes, eqb}
use demonic_c.Parser.State.{Function, Struct, Enum, State}

-- Whether one of these, which have a name each, has this one. On functions it is `has_function`.
abbrev pub has_name : {A : Type 0} → (A → Bytes) → List A → Bytes → Bool
has_name name_of xs name = any (λ x. eqb (name_of x) name) xs

abbrev pub has_function : List Function → Bytes → Bool
has_function = has_name (λ f. f.name)

-- One of the three loops, with the importer's vector as it grows.
unfoldable pub merge_named : {A : Type 0} → (A → Bytes) → List A → List A → List A
unfolding eqb
merge_named name_of [] target = target
merge_named name_of (x ∷ xs) target =
    merge_named name_of xs
      (if has_name name_of target (name_of x) then target else target ++ (x ∷ []))

-- The importer behind `imported.merge_into(&importer)`, less its set of built-in modules.
unfoldable pub merge_into : State → State → State
merge_into imported importer = record importer {
  structs = merge_named (λ s. s.name) imported.structs importer.structs;
  enums = merge_named (λ e. e.name) imported.enums importer.enums;
  functions = merge_named (λ f. f.name) imported.functions importer.functions;
}
