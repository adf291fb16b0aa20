-- ===== src/Main/Compile/Finishes.antt =====
-- Every compilation ends, and what a compilation writes.
use demonic_c.Base.{
  ◌<◌, any, map, ℕ, ◌≡◌, ◌≢◌, refl, ap, inl, inr, true, List, some, Option-cases, List-cases,
  if_intro, length,
}
use demonic_c.Text.{eqb, Bytes, is}
use demonic_c.Result.{Result}
use demonic_c.Files.{Files, Exit, write_file-other}
use demonic_c.Lexer.{Token, lex}
use demonic_c.Lexer.Total.{lex_ends}
use demonic_c.Parser.State.{State, Outcome}
use demonic_c.Parser.Source.{initial, lex-Ended}
use demonic_c.Emission.{emit}
use demonic_c.Parser.Load.Settles.{Settles, Anywhere, returned, raised, folded_over, ImportsFirst}
use demonic_c.Parser.Load.Ends.{collect_declarations_ends}
use demonic_c.Main.Args.{Options}
use demonic_c.Main.Compile.{
  Host, Ending, exits, overflow, out_of_bounds, out_of_fuel, shown, emitted, add_include_dir,
  parse_and_emit, compile, status_of,
}

-- It ends in an exit status of 0 or 1, or in a signed overflow.
pub data Ends : Ending → Type 0 where
  succeeds : {x : Exit} → x.status ≡ 0 → Ends (exits x)
  fails : {x : Exit} → x.status ≡ 1 → Ends (exits x)
  overflows : Ends overflow

shown-Ends :
    (host : Host) (o : Options) (files : Files) (s : State) → Ends (exits (shown host o files s))
unfolding shown
shown-Ends host o files s = elim (List-cases s.diagnostics) [
  | inl e ↦ succeeds (ap status_of e)
  | inr (d, ds, e) ↦ fails (ap status_of e)
]

emitted-Ends :
    (host : Host) (o : Options) (files : Files) {r : Outcome (List Bytes)}
    → Settles Anywhere r
    → Ends (emitted host o files r)
emitted-Ends host o files (returned {u = s} p) = shown-Ends host o files s
emitted-Ends host o files raised = fails refl
emitted-Ends host o files folded_over = overflows

-- Where there are finitely many files, and in none of them an `import` stands behind the imports in
-- front, every compilation ends, on a depth of a file more than there are: in an exit status of 0 or 1,
-- or in a signed overflow. No token behind the last is read.
pub compile-Ends :
    (host : Host) (universe : List Bytes) (depth : ℕ) (o : Options) (files : Files)
    → ((path text : Bytes) → files path ≡ some text → any (eqb path) universe ≡ true)
    → ((path text : Bytes) (ts : List Token)
        → files path ≡ some text
        → lex text ≡ Result.ok ts
        → ImportsFirst (initial ts))
    → length universe < depth
    → Ends (compile host depth o files)
unfolding compile
compile-Ends host universe depth o files all first enough =
    elim (Option-cases (files o.source_path)) [
      | inl absent ↦ rw absent (fails refl)
      | inr (text, found) ↦ rw found (elim (lex_ends text) [
        | inl (ts, lexed) ↦ rw lexed (
            emitted-Ends host o files (
              collect_declarations_ends host.paths files universe depth o.source_path
                (map (add_include_dir host) o.include_dirs) (initial ts) all first
                (lex-Ended text lexed) (first o.source_path text ts found lexed) enough))
        | inr (line, stopped) ↦ rw stopped (fails refl)
      ])
    ]

-- The files that a compilation leaves behind.
abbrev pub files_after : Files → Ending → Files
files_after files (exits x) = x.files
files_after files overflow = files
files_after files out_of_bounds = files
files_after files out_of_fuel = files

shown-others :
    (host : Host) (o : Options) (files : Files) (s : State) (q : Bytes)
    → o.output_path ≢ q
    → (shown host o files s).files q ≡ files q
unfolding shown
shown-others host o files s q h =
    if_intro (λ (fs : Files). fs q ≡ files q) (is o.output_path "-") (λ _. refl)
      (λ _.
        if_intro (λ (fs : Files). fs q ≡ files q) (host.writable o.output_path)
          (λ _. write_file-other o.output_path (emit host.runtime s) files q h) (λ _. refl))

emitted-others :
    (host : Host) (o : Options) (files : Files) (r : Outcome (List Bytes)) (q : Bytes)
    → o.output_path ≢ q
    → files_after files (emitted host o files r) q ≡ files q
emitted-others host o files (Outcome.ok loaded s) q h = shown-others host o files s q h
emitted-others host o files (Outcome.throws e s) q h = refl
emitted-others host o files Outcome.out_of_bounds q h = refl
emitted-others host o files Outcome.overflow q h = refl
emitted-others host o files Outcome.out_of_fuel q h = refl

parse_and_emit-others :
    (host : Host) (depth : ℕ) (o : Options) (files : Files) (r : Result (List Token)) (q : Bytes)
    → o.output_path ≢ q
    → files_after files (parse_and_emit host depth o files r) q ≡ files q
parse_and_emit-others host depth o files (Result.ok ts) q h = emitted-others host o files _ q h
parse_and_emit-others host depth o files (Result.throws e) q h = refl
parse_and_emit-others host depth o files Result.out_of_fuel q h = refl

-- A compilation changes no file but the one that `-o` names.
pub compile-others :
    (host : Host) (depth : ℕ) (o : Options) (files : Files) (q : Bytes)
    → o.output_path ≢ q
    → files_after files (compile host depth o files) q ≡ files q
unfolding compile
compile-others host depth o files q h = elim (Option-cases (files o.source_path)) [
  | inl absent ↦ rw absent refl
  | inr (text, found) ↦ rw found (parse_and_emit-others host depth o files (lex text) q h)
]
