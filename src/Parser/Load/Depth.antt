-- ===== src/Parser/Load/Depth.antt =====
-- How deep the imports go.
use demonic_c.Base.{
  ℕ, zero, suc, ◌+◌, ◌*◌, ◌≤◌, ◌<◌, ◌≡◌, ◌∙◌, sym, ap, subst, refl, inl, inr, true, false, List, [],
  ◌∷◌, Option, none, some, if◌then◌else◌, any, length, arith, Bool-cases,
}
use demonic_c.Text.{Bytes, eqb, eqb_iff}
use demonic_c.Result.{Result}
use demonic_c.Lexer.{Token, lex}
use demonic_c.Files.{Files}
use demonic_c.Parser.State.{State, M, Outcome, bind}
use demonic_c.Parser.Import.{is_builtin_module, parse_imports}
use demonic_c.Parser.Declaration.{declarations}
use demonic_c.Parser.Source.{initial}
use demonic_c.Parser.Load.{
  Paths, Place, candidates, resolve_import, merged, parsed, load_resolved, load_module,
  load_modules, collect_declarations,
}
use demonic_c.Parser.Load.Loads.{
  Loads, nothing, load, Keeps, regular_file-IsFile, load_module-Loads, collect_declarations-Keeps,
}

-- How many of these files are not loaded.
unfoldable pub unloaded : List Bytes → List Bytes → ℕ
unloaded [] l = 0
unloaded (u ∷ us) l = let rest = unloaded us l in if any (eqb u) l then rest else suc rest

unloaded-le : (us : List Bytes) (p : Bytes) (l : List Bytes) → unloaded us (p ∷ l) ≤ unloaded us l
unfolding unloaded
unloaded-le [] p l = omega arith
unloaded-le (u ∷ us) p l =
    let rest : unloaded us (p ∷ l) ≤ unloaded us l = unloaded-le us p l in ground arith

pub unloaded-lt :
    (us : List Bytes) (p : Bytes) (l : List Bytes)
    → any (eqb p) us ≡ true
    → any (eqb p) l ≡ false
    → unloaded us (p ∷ l) < unloaded us l
unfolding unloaded
unloaded-lt [] p l there new = cc there
unloaded-lt (u ∷ us) p l there new = elim (Bool-cases (eqb p u)) [
  | inl same ↦
      let eq : p ≡ u = (eqb_iff p u).0 same in
      let fresh : any (eqb u) l ≡ false = subst (λ q. any (eqb q) l ≡ false) eq new in
      let self : eqb u p ≡ true = (eqb_iff u p).1 (sym eq) in
      let rest : unloaded us (p ∷ l) ≤ unloaded us l = unloaded-le us p l in ground arith
  | inr other ↦
      let later : any (eqb p) us ≡ true = rw other at there in
      let rest : unloaded us (p ∷ l) < unloaded us l = unloaded-lt us p l later new in ground arith
]

bind-same :
    {A B : Type 0} (m : Outcome A) (k k' : A → M B)
    → ((a : A) (t : State) → m ≡ Outcome.ok a t → k a t ≡ k' a t)
    → bind m k ≡ bind m k'
bind-same (Outcome.ok a t) k k' h = h a t refl
bind-same (Outcome.throws e t) k k' h = refl
bind-same Outcome.out_of_bounds k k' h = refl
bind-same Outcome.overflow k k' h = refl
bind-same Outcome.out_of_fuel k k' h = refl

module _ (paths : Paths) (files : Files) (universe : List Bytes) where
  pub Loads-unloaded :
      {l l' : List Bytes} → Loads paths files l l' → unloaded universe l' ≤ unloaded universe l
  Loads-unloaded nothing = omega arith
  Loads-unloaded {l} (load path file new a) =
      omega (arith, Loads-unloaded a, unloaded-le universe path l)

  -- Two ways to collect that agree where fewer than `n` files are not loaded.
  record Agree (n : ℕ) (c d : Place → State → Outcome (List Bytes)) : Type 0 where
    agree : (place : Place) (s : State) → unloaded universe place.loaded < n → c place s ≡ d place s

  load_resolved-same :
      (n : ℕ) (c d : Place → State → Outcome (List Bytes)) (place : Place) (name : Bytes)
      (s : State) (o : Option (Bytes × Bytes))
      → Agree n c d
      → unloaded universe place.loaded ≤ n
      → ((file : Bytes × Bytes) → o ≡ some file → any (eqb file.0) universe ≡ true)
      → load_resolved paths files c place name o s ≡ load_resolved paths files d place name o s
  load_resolved-same n c d place name s none a le there = refl
  load_resolved-same n c d place name s (some file) a le there =
      elim (Bool-cases (any (eqb file.0) place.loaded)) [
        | inl old ↦ rw old
        | inr new ↦ rw new (
            parsed_same (lex file.1)
              (unloaded-lt universe file.0 place.loaded (there file refl) new))
      ]
    where
      inner : Place
      inner = record place { source = file.0; loaded = file.0 ∷ place.loaded }

      parsed_same :
          (r : Result (List Token))
          → unloaded universe (file.0 ∷ place.loaded) < unloaded universe place.loaded
          → parsed paths files c inner s r ≡ parsed paths files d inner s r
      parsed_same (Result.ok ts) lt =
          ap (merged paths files s) (a.agree inner (initial ts) (omega (arith, lt, le)))
      parsed_same (Result.throws e) lt = refl
      parsed_same Result.out_of_fuel lt = refl

  load_module-same :
      (n : ℕ) (c d : Place → State → Outcome (List Bytes)) (place : Place) (name : Bytes)
      (s : State)
      → Agree n c d
      → unloaded universe place.loaded ≤ n
      → ((path text : Bytes) → files path ≡ some text → any (eqb path) universe ≡ true)
      → load_module paths files c place name s ≡ load_module paths files d place name s
  unfolding load_module resolve_import
  load_module-same n c d place name s a le all = elim (Bool-cases (is_builtin_module name)) [
    | inl built_in ↦ rw built_in
    | inr file ↦ rw file (
        load_resolved-same n c d place name s (resolve_import paths files place name) a le
          (λ f found.
            let (text, there) =
              regular_file-IsFile paths files (candidates paths files place name) found in
            all f.0 text there))
  ]

  load_modules-same :
      (n : ℕ) (c d : Place → State → Outcome (List Bytes)) (place : Place) (names : List Bytes)
      (s : State)
      → Agree n c d
      → Keeps paths files c
      → unloaded universe place.loaded ≤ n
      → ((path text : Bytes) → files path ≡ some text → any (eqb path) universe ≡ true)
      → load_modules paths files c place names s ≡ load_modules paths files d place names s
  unfolding load_modules
  load_modules-same n c d place [] s a k le all = refl
  load_modules-same n c d place (name ∷ names) s a k le all =
      bind-same (load_module paths files c place name s) _ _ (λ l t e.
        load_modules-same n c d (record place { loaded = l }) names t a k
          (let less : unloaded universe l ≤ unloaded universe place.loaded =
              Loads-unloaded (load_module-Loads paths files c place name s k e) in
            omega arith)
          all)
      ∙ ap (λ m. bind m (λ l t. load_modules paths files d (record place { loaded = l }) names t))
          (load_module-same n c d place name s a le all)

  collect_declarations-Agree :
      (f : ℕ)
      → ((path text : Bytes) → files path ≡ some text → any (eqb path) universe ≡ true)
      → Agree f (collect_declarations paths files f) (collect_declarations paths files (suc f))
  unfolding collect_declarations
  collect_declarations-Agree zero all = record { agree = λ place s lt. absurd (omega (arith, lt)) }
  collect_declarations-Agree (suc f) all = record {
    agree = λ place s lt. bind-same (parse_imports (length s.rest + 1) s) _ _ λ names t e.
        ap
          (λ m.
            bind m
              (λ loaded u. bind (declarations (10 * length u.rest) u) (λ _ v. Outcome.ok loaded v)))
          (load_modules-same f (collect_declarations paths files f)
            (collect_declarations paths files (suc f)) place names t
            (collect_declarations-Agree f all) (collect_declarations-Keeps paths files f)
            (omega (arith, lt)) all);
  }

  pub unloaded-length : (us : List Bytes) → unloaded us [] ≡ length us
  unfolding unloaded
  unloaded-length [] = refl
  unloaded-length (u ∷ us) = ap suc (unloaded-length us)

  -- Where all files are among those of a list, imports go no deeper than the list is long, cyclic ones
  -- included: a unit of fuel for each file and one more gives what any greater amount gives.
  pub collect_declarations_settles :
      (f more : ℕ) (source : Bytes) (include_dirs : List Bytes) (s : State)
      → ((path text : Bytes) → files path ≡ some text → any (eqb path) universe ≡ true)
      → length universe < f
      → collect_declarations paths files
          (more + f)
          (record { source = source; include_dirs = include_dirs; loaded = [] })
          s
        ≡ collect_declarations paths files f
            (record { source = source; include_dirs = include_dirs; loaded = [] })
            s
  collect_declarations_settles f zero source dirs s all enough =
      let place : Place = record { source = source; include_dirs = dirs; loaded = [] } in
      let same : 0 + f ≡ f = omega arith in
      ap (λ k. collect_declarations paths files k place s) same
  collect_declarations_settles f (suc more) source dirs s all enough =
      let place : Place = record { source = source; include_dirs = dirs; loaded = [] } in
      let none_yet : unloaded universe [] ≡ length universe = unloaded-length universe in
      let same : suc more + f ≡ suc (more + f) = omega arith in
      ap (λ k. collect_declarations paths files k place s) same
      ∙ sym ((collect_declarations-Agree (more + f) all).agree place s (omega arith))
      ∙ collect_declarations_settles f more source dirs s all enough
