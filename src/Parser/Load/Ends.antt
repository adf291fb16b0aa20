-- ===== src/Parser/Load/Ends.antt =====
-- A file with the files that it imports is read to the end.
use demonic_c.Base.{
  ℕ, zero, suc, ◌+◌, ◌*◌, ◌≤◌, ◌<◌, ◌≡◌, sym, subst, refl, inl, inr, true, List, [], ◌∷◌, Option,
  none, some, any, find_map, Option-cases, length, arith, Bool-cases,
}
use demonic_c.Text.{Bytes, eqb}
use demonic_c.Result.{Result}
use demonic_c.Lexer.{Token, lex}
use demonic_c.Lexer.Total.{lex_ends}
use demonic_c.Files.{Files}
use demonic_c.Parser.State.{State, Outcome, bind}
use demonic_c.Parser.Runs.{Ended, Runs, returns, raises, overflows}
use demonic_c.Parser.Import.{is_builtin_module, parse_imports, parse_imports_ends}
use demonic_c.Parser.Merge.{merge_into}
use demonic_c.Parser.Declaration.{declarations}
use demonic_c.Parser.Declaration.Loop.{NoImport}
use demonic_c.Parser.Source.{initial, lex-Ended}
use demonic_c.Parser.Load.{
  Paths, Place, regular_file, candidates, resolve_import, merged, load_resolved, load_module,
  load_modules, collect_declarations,
}
use demonic_c.Parser.Load.Loads.{Keeps, load_module-Loads, collect_declarations-Keeps}
use demonic_c.Parser.Load.Depth.{unloaded, unloaded-lt, Loads-unloaded, unloaded-length}
use demonic_c.Parser.Load.Settles.{
  Settles, returned, raised, folded_over, Anywhere, Left, ImportsFirst, Settles-bind,
  declarations-Settles,
}

module _ (paths : Paths) (files : Files) (universe : List Bytes) where
  Settles-merged :
      {P : State → Type 0} (s : State) {r : Outcome (List Bytes)}
      → Settles P r
      → Settles (Left s.rest) (merged paths files s r)
  unfolding merge_into
  Settles-merged s (returned p) = returned refl
  Settles-merged s raised = raised
  Settles-merged s folded_over = folded_over

  regular_file-found :
      (qs : List Bytes) {file : Bytes × Bytes}
      → find_map (regular_file paths files) qs ≡ some file
      → files file.0 ≡ some file.1
  regular_file-found [] e = cc e
  regular_file-found (q ∷ qs) {file} e = elim (Option-cases (files q)) [
    | inl missing ↦ regular_file-found qs (rw (find_map, missing) at e)
    | inr (text, there) ↦
        let same : (q, text) ≡ file = cc (rw (find_map, there) at e) in
        subst (λ f. files f.0 ≡ some f.1) same there
  ]

  -- A way to collect that settles where fewer than `n` files are not loaded.
  record Collects (n : ℕ) (c : Place → State → Outcome (List Bytes)) : Type 0 where
    collects :
        (place : Place) (s : State)
        → Ended s.rest
        → ImportsFirst s
        → unloaded universe place.loaded < n
        → Settles Anywhere (c place s)

  load_resolved-Settles :
      (n : ℕ) (c : Place → State → Outcome (List Bytes)) (place : Place) (name : Bytes) (s : State)
      (o : Option (Bytes × Bytes))
      → Collects n c
      → unloaded universe place.loaded ≤ n
      → ((file : Bytes × Bytes)
          → o ≡ some file
          → (any (eqb file.0) universe ≡ true) × (files file.0 ≡ some file.1))
      → ((path text : Bytes) (ts : List Token)
          → files path ≡ some text
          → lex text ≡ Result.ok ts
          → ImportsFirst (initial ts))
      → Settles (Left s.rest) (load_resolved paths files c place name o s)
  load_resolved-Settles n c place name s none h le there first = raised
  load_resolved-Settles n c place name s (some file) h le there first =
      elim (Bool-cases (any (eqb file.0) place.loaded)) [
        | inl old ↦ rw old (returned refl)
        | inr new ↦ rw new (elim (lex_ends file.1) [
          | inl (ts, lexed) ↦
              let lt : unloaded universe (file.0 ∷ place.loaded) < unloaded universe place.loaded =
                unloaded-lt universe file.0 place.loaded (there file refl).0 new in
              rw lexed (
                Settles-merged s (
                  h.collects (record place { source = file.0; loaded = file.0 ∷ place.loaded })
                    (initial ts) (lex-Ended file.1 lexed)
                    (first file.0 file.1 ts (there file refl).1 lexed) (omega (arith, lt, le))))
          | inr (line, stopped) ↦ rw stopped raised
        ])
      ]

  load_module-Settles :
      (n : ℕ) (c : Place → State → Outcome (List Bytes)) (place : Place) (name : Bytes) (s : State)
      → Collects n c
      → unloaded universe place.loaded ≤ n
      → ((path text : Bytes) → files path ≡ some text → any (eqb path) universe ≡ true)
      → ((path text : Bytes) (ts : List Token)
          → files path ≡ some text
          → lex text ≡ Result.ok ts
          → ImportsFirst (initial ts))
      → Settles (Left s.rest) (load_module paths files c place name s)
  unfolding load_module resolve_import
  load_module-Settles n c place name s h le all first = elim (Bool-cases (is_builtin_module name)) [
    | inl built_in ↦ rw built_in (returned refl)
    | inr file ↦ rw file (
        load_resolved-Settles n c place name s (resolve_import paths files place name) h le
          (λ f found.
            let there = regular_file-found (candidates paths files place name) found in
            (all f.0 f.1 there, there))
          first)
  ]

  load_modules-Settles :
      (n : ℕ) (c : Place → State → Outcome (List Bytes)) (place : Place) (names : List Bytes)
      (s : State)
      → Collects n c
      → Keeps paths files c
      → unloaded universe place.loaded ≤ n
      → ((path text : Bytes) → files path ≡ some text → any (eqb path) universe ≡ true)
      → ((path text : Bytes) (ts : List Token)
          → files path ≡ some text
          → lex text ≡ Result.ok ts
          → ImportsFirst (initial ts))
      → Settles (Left s.rest) (load_modules paths files c place names s)
  unfolding load_modules
  load_modules-Settles n c place [] s h k le all first = returned refl
  load_modules-Settles n c place (name ∷ names) s h k le all first =
      Settles-bind (load_module-Settles n c place name s h le all first) (λ l t e left.
        subst
          (λ ts.
            Settles (Left ts) (load_modules paths files c (record place { loaded = l }) names t))
          left
          (load_modules-Settles n c (record place { loaded = l }) names t h k
            (let less : unloaded universe l ≤ unloaded universe place.loaded =
                Loads-unloaded paths files universe
                  (load_module-Loads paths files c place name s k e) in
              omega arith)
            all first))

  collect_declarations-Collects :
      (f : ℕ)
      → ((path text : Bytes) → files path ≡ some text → any (eqb path) universe ≡ true)
      → ((path text : Bytes) (ts : List Token)
          → files path ≡ some text
          → lex text ≡ Result.ok ts
          → ImportsFirst (initial ts))
      → Collects f (collect_declarations paths files f)
  unfolding collect_declarations
  collect_declarations-Collects zero all first = record {
    collects = λ place s e i lt. absurd (omega (arith, lt));
  }
  collect_declarations-Collects (suc f) all first = record {
    collects = λ place s e i lt.
        behind_imports (collect_declarations-Collects f all first) place s i lt
          (parse_imports (length s.rest + 1) s) refl
          (parse_imports_ends (length s.rest + 1) s e (omega arith));
  }
    where
      loaded_then :
          Collects f (collect_declarations paths files f)
          → (place : Place) (mods : List Bytes) (t : State) → Ended t.rest
          → NoImport t.rest
          → unloaded universe place.loaded < suc f
          → Settles Anywhere (
              bind
                (load_modules paths files (collect_declarations paths files f) place mods t)
                (λ loaded u.
                  bind (declarations (10 * length u.rest) u) (λ _ v. Outcome.ok loaded v)))
      loaded_then ih place mods t e n lt =
          Settles-bind
            (load_modules-Settles f (collect_declarations paths files f) place mods t ih
              (collect_declarations-Keeps paths files f) (omega (arith, lt)) all first)
            (λ loaded u same left.
              declarations-Settles loaded u (subst Ended (sym left) e)
                (subst NoImport (sym left) n))

      behind_imports :
          Collects f (collect_declarations paths files f)
          → (place : Place) (s : State) → ImportsFirst s
          → unloaded universe place.loaded < suc f
          → (r : Outcome (List Bytes)) → parse_imports (length s.rest + 1) s ≡ r
          → Runs 0 s r
          → Settles Anywhere (
              bind r (λ names t.
                bind
                  (load_modules paths files (collect_declarations paths files f) place names t)
                  λ loaded u.
                    bind (declarations (10 * length u.rest) u) (λ _ v. Outcome.ok loaded v)))
      behind_imports ih place s i lt r same (returns {a = mods} {s' = t} step) =
          loaded_then ih place mods t step.ended (i mods t same) lt
      behind_imports ih place s i lt r same (raises stopped) = raised
      behind_imports ih place s i lt r same overflows = folded_over

-- Where there are finitely many files, and in the root and in each of them no `import` stands behind the
-- imports in front, `collect_declarations` ends on a unit of fuel for each file and one more, cyclic
-- imports included: it returns, or throws, or meets a signed overflow.
pub collect_declarations_ends :
    (paths : Paths) (files : Files) (universe : List Bytes) (f : ℕ) (source : Bytes)
    (include_dirs : List Bytes) (s : State)
    → ((path text : Bytes) → files path ≡ some text → any (eqb path) universe ≡ true)
    → ((path text : Bytes) (ts : List Token)
        → files path ≡ some text
        → lex text ≡ Result.ok ts
        → ImportsFirst (initial ts))
    → Ended s.rest
    → ImportsFirst s
    → length universe < f
    → Settles Anywhere (
        collect_declarations paths files f
          (record { source = source; include_dirs = include_dirs; loaded = [] })
          s)
collect_declarations_ends paths files universe f source dirs s all first e i enough =
    let none_yet : unloaded universe [] ≡ length universe =
      unloaded-length paths files universe universe in
    (collect_declarations-Collects paths files universe f all first).collects
      (record { source = source; include_dirs = dirs; loaded = [] }) s e i
      (omega (arith, none_yet, enough))
