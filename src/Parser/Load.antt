-- ===== src/Parser/Load.antt =====
-- `resolve_import`, `read_file` and `collect_declarations` of class `Parser` in compiler/dmc.cpp: a file
-- with the files that it imports. Paths are put together by std::filesystem, which is a parameter.
pub mod Loads
pub mod Depth
pub mod Settles
pub mod Ends
use demonic_c.Base.{
  ℕ, zero, suc, ◌+◌, ◌*◌, Bool, true, false, List, [], ◌∷◌, ◌++◌, Option, none, some, if◌then◌else◌,
  any, find_map, length,
}
use demonic_c.Text.{Bytes, codes, eqb, cat}
use demonic_c.Result.{Result, runtime_error}
use demonic_c.Lexer.{Token, lex}
use demonic_c.Files.{Files}
use demonic_c.Parser.State.{State, M, Outcome, bind}
use demonic_c.Parser.Import.{is_builtin_module, parse_imports}
use demonic_c.Parser.Merge.{merge_into}
use demonic_c.Parser.Declaration.{declarations}
use demonic_c.Parser.Source.{initial}

-- `path.parent_path()` and `dir / name`.
pub record Paths : Type 0 where
  pub parent_path : Bytes → Bytes
  pub join : Bytes → Bytes → Bytes

abbrev pub with_extension : Bytes → Bytes
with_extension name = name ++ codes ".dmc"

-- The fields of the parser that the imports use: `source_`, `include_dirs_` and `loaded_`.
pub record Place : Type 0 where
  pub source : Bytes
  pub include_dirs : List Bytes
  pub loaded : List Bytes

module _ (paths : Paths) (files : Files) where
  abbrev pub beside : Bytes → Bytes → List Bytes
  beside [] name = []
  beside (c ∷ cs) name =
      let dir = paths.parent_path (c ∷ cs) in
      paths.join dir name
      ∷ paths.join dir (with_extension name)
      ∷ paths.join (paths.join dir (codes "src")) name
      ∷ paths.join (paths.join dir (codes "src")) (with_extension name)
      ∷ []

  unfoldable pub in_dirs : List Bytes → Bytes → List Bytes
  in_dirs [] name = []
  in_dirs (d ∷ ds) name = paths.join d name ∷ paths.join d (with_extension name) ∷ in_dirs ds name

  abbrev pub candidates : Place → Bytes → List Bytes
  candidates place name =
      beside place.source name
      ++ (in_dirs place.include_dirs name ++ (name ∷ with_extension name ∷ []))

  abbrev pub regular_file : Bytes → Option (Bytes × Bytes)
  regular_file path = elim (files path) [ none ↦ none | some text ↦ some (path, text) ]

  -- The first candidate that is a file, with the text that `read_file` gives. A file that is there can
  -- be read.
  unfoldable pub resolve_import : Place → Bytes → Option (Bytes × Bytes)
  unfolding in_dirs
  resolve_import place name = find_map regular_file (candidates place name)

  abbrev pub merged : State → Outcome (List Bytes) → Outcome (List Bytes)
  merged target (Outcome.ok loaded s) = Outcome.ok loaded (merge_into s target)
  merged target (Outcome.throws e s) = Outcome.throws e target
  merged target Outcome.out_of_bounds = Outcome.out_of_bounds
  merged target Outcome.overflow = Outcome.overflow
  merged target Outcome.out_of_fuel = Outcome.out_of_fuel

  abbrev pub parsed :
      (Place → State → Outcome (List Bytes))
      → Place
      → State
      → Result (List Token)
      → Outcome (List Bytes)
  parsed collect place target (Result.ok ts) = merged target (collect place (initial ts))
  parsed collect place target (Result.throws e) = Outcome.throws e target
  parsed collect place target Result.out_of_fuel = Outcome.out_of_fuel

  abbrev pub is_loaded : Bytes → List Bytes → Bool
  is_loaded path loaded = any (eqb path) loaded

  -- One round of the loop over the modules. `collect` is `mod.collect_declarations()`, with the set of
  -- files that are loaded behind it; this is `loaded_` for the next round.
  abbrev pub load_resolved :
      (Place → State → Outcome (List Bytes))
      → Place
      → Bytes
      → Option (Bytes × Bytes)
      → M (List Bytes)
  load_resolved collect place name none s =
      Outcome.throws
        (runtime_error (
          cat (
            codes "cannot summon module '"
            ∷ name
            ∷ codes "' (from "
            ∷ place.source
            ∷ codes ")"
            ∷ [])))
        s
  load_resolved collect place name (some file) s =
      if is_loaded file.0 place.loaded
      then Outcome.ok place.loaded s
      else parsed collect (record place { source = file.0; loaded = file.0 ∷ place.loaded }) s
          (lex file.1)

  unfoldable pub load_module :
      (Place → State → Outcome (List Bytes)) → Place → Bytes → M (List Bytes)
  unfolding resolve_import is_builtin_module eqb
  load_module collect place name s =
      if is_builtin_module name
      then Outcome.ok place.loaded s
      else load_resolved collect place name (resolve_import place name) s

  unfoldable pub load_modules :
      (Place → State → Outcome (List Bytes)) → Place → List Bytes → M (List Bytes)
  unfolding load_module
  load_modules collect place [] s = Outcome.ok place.loaded s
  load_modules collect place (name ∷ names) s =
      bind (load_module collect place name s)
        (λ loaded t. load_modules collect (record place { loaded = loaded }) names t)

  -- Fuel bounds how deep the imports go. The loops over the tokens have what their theorems name.
  unfoldable pub collect_declarations : ℕ → Place → State → Outcome (List Bytes)
  unfolding load_modules parse_imports declarations
  collect_declarations zero place s = Outcome.out_of_fuel
  collect_declarations (suc f) place s = bind (parse_imports (length s.rest + 1) s) λ names t.
      bind (load_modules (collect_declarations f) place names t)
        λ loaded u. bind (declarations (10 * length u.rest) u) (λ _ v. Outcome.ok loaded v)
