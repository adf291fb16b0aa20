-- ===== src/Parser/Load/Loads.antt =====
-- What the imports of a file add to the list of loaded files.
use demonic_c.Base.{
  ℕ, zero, suc, ◌+◌, ◌*◌, ◌≡◌, ap, subst, refl, inl, inr, false, List, [], ◌∷◌, Option, none, some,
  any, find_map, length, Bool-cases, Option-cases,
}
use demonic_c.Text.{Bytes, eqb}
use demonic_c.Result.{Result}
use demonic_c.Lexer.{Token, lex}
use demonic_c.Files.{Files}
use demonic_c.Parser.State.{State, Outcome}
use demonic_c.Parser.Returns.{bind-eq-ok}
use demonic_c.Parser.Import.{is_builtin_module, parse_imports}
use demonic_c.Parser.Declaration.{declarations}
use demonic_c.Parser.Source.{initial}
use demonic_c.Parser.Load.{
  Paths, Place, candidates, regular_file, resolve_import, merged, parsed, load_resolved,
  load_module, load_modules, collect_declarations,
}

abbrev pub IsFile : Files → Bytes → Type 0
IsFile files path = (text : Bytes) × (files path ≡ some text)

abbrev path_of : Option (Bytes × Bytes) → Bytes
path_of none = []
path_of (some file) = file.0

abbrev loaded_of : Outcome (List Bytes) → List Bytes
loaded_of (Outcome.ok loaded s) = loaded
loaded_of _ = []

module _ (paths : Paths) (files : Files) where
  -- Files that are loaded one after another, each of which was not loaded before.
  pub data Loads : List Bytes → List Bytes → Type 0 where
    nothing : {l : List Bytes} → Loads l l
    load :
        {l l' : List Bytes} (path : Bytes)
        → IsFile files path
        → any (eqb path) l ≡ false
        → Loads (path ∷ l) l'
        → Loads l l'

  and_then : {k l m : List Bytes} → Loads k l → Loads l m → Loads k m
  and_then nothing b = b
  and_then (load path file new a) b = load path file new (and_then a b)

  pub regular_file-IsFile :
      (cs : List Bytes) {file : Bytes × Bytes}
      → find_map (regular_file paths files) cs ≡ some file
      → IsFile files file.0
  regular_file-IsFile [] e = cc e
  regular_file-IsFile (c ∷ cs) {file} e = elim (Option-cases (files c)) [
    | inl missing ↦ regular_file-IsFile cs (rw (find_map, missing) at e)
    | inr (text, there) ↦
        let same : c ≡ file.0 = ap path_of (rw (find_map, there) at e) in
        subst (IsFile files) same (text, there)
  ]

  merged-ok :
      (target : State) (o : Outcome (List Bytes)) {loaded : List Bytes} {t : State}
      → merged paths files target o ≡ Outcome.ok loaded t
      → (s : State) × (o ≡ Outcome.ok loaded s)
  merged-ok target (Outcome.ok l s) e = (s, cc e)
  merged-ok target (Outcome.throws x s) e = cc e
  merged-ok target Outcome.out_of_bounds e = cc e
  merged-ok target Outcome.overflow e = cc e
  merged-ok target Outcome.out_of_fuel e = cc e

  -- What a call of `collect_declarations` that returns has loaded.
  pub record Keeps (collect : Place → State → Outcome (List Bytes)) : Type 0 where
    pub keeps :
        (place : Place) (s : State) {loaded : List Bytes} {t : State}
        → collect place s ≡ Outcome.ok loaded t
        → Loads place.loaded loaded

  parsed-Loads :
      (collect : Place → State → Outcome (List Bytes)) (place : Place) (target : State)
      (r : Result (List Token)) {loaded : List Bytes} {t : State}
      → Keeps collect
      → parsed paths files collect place target r ≡ Outcome.ok loaded t
      → Loads place.loaded loaded
  parsed-Loads collect place target (Result.ok ts) k e =
      let (s, e') = merged-ok target (collect place (initial ts)) e in k.keeps place (initial ts) e'
  parsed-Loads collect place target (Result.throws x) k e = cc e
  parsed-Loads collect place target Result.out_of_fuel k e = cc e

  load_resolved-Loads :
      (collect : Place → State → Outcome (List Bytes)) (place : Place) (name : Bytes) (s : State)
      (o : Option (Bytes × Bytes)) {loaded : List Bytes} {t : State}
      → Keeps collect
      → ((file : Bytes × Bytes) → o ≡ some file → IsFile files file.0)
      → load_resolved paths files collect place name o s ≡ Outcome.ok loaded t
      → Loads place.loaded loaded
  load_resolved-Loads collect place name s none k there e = cc e
  load_resolved-Loads collect place name s (some file) k there e =
      elim (Bool-cases (any (eqb file.0) place.loaded)) [
        | inl old ↦
            let same : Outcome.ok place.loaded s ≡ Outcome.ok _ _ = rw old at e in
            subst (Loads place.loaded) (ap loaded_of same) nothing
        | inr new ↦ load file.0 (there file refl) new (
            parsed-Loads collect (record place { source = file.0; loaded = file.0 ∷ place.loaded })
              s (lex file.1) k (rw new at e))
      ]

  pub load_module-Loads :
      (collect : Place → State → Outcome (List Bytes)) (place : Place) (name : Bytes) (s : State)
      {loaded : List Bytes} {t : State}
      → Keeps collect
      → load_module paths files collect place name s ≡ Outcome.ok loaded t
      → Loads place.loaded loaded
  unfolding load_module resolve_import
  load_module-Loads collect place name s k e = elim (Bool-cases (is_builtin_module name)) [
    | inl built_in ↦ subst (Loads place.loaded) (ap loaded_of (rw built_in at e)) nothing
    | inr file ↦
        load_resolved-Loads collect place name s (resolve_import paths files place name) k
          (λ f found. regular_file-IsFile (candidates paths files place name) found) (rw file at e)
  ]

  load_modules-Loads :
      (collect : Place → State → Outcome (List Bytes)) (place : Place) (names : List Bytes)
      (s : State) {loaded : List Bytes} {t : State}
      → Keeps collect
      → load_modules paths files collect place names s ≡ Outcome.ok loaded t
      → Loads place.loaded loaded
  unfolding load_modules
  load_modules-Loads collect place [] s k e = subst (Loads place.loaded) (ap loaded_of e) nothing
  load_modules-Loads collect place (name ∷ names) s k e =
      let (l, u, e₁, e₂) = bind-eq-ok (load_module paths files collect place name s) _ e in
      and_then (load_module-Loads collect place name s k e₁)
        (load_modules-Loads collect (record place { loaded = l }) names u k e₂)

  pub collect_declarations-Keeps : (f : ℕ) → Keeps (collect_declarations paths files f)
  unfolding collect_declarations
  collect_declarations-Keeps zero = record { keeps = λ place s e. cc e }
  collect_declarations-Keeps (suc f) = record {
    keeps = λ place s e.
        let (names, u, e₁, e₂) = bind-eq-ok (parse_imports (length s.rest + 1) s) _ e in
        let (l, v, e₃, e₄) =
          bind-eq-ok (load_modules paths files (collect_declarations paths files f) place names u) _
            e₂ in
        let (_, w, e₅, e₆) = bind-eq-ok (declarations (10 * length v.rest) v) _ e₄ in
        subst (Loads place.loaded) (ap loaded_of e₆) (
          load_modules-Loads (collect_declarations paths files f) place names u
            (collect_declarations-Keeps f) e₃);
  }
