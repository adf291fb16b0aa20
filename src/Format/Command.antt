-- ===== src/Format/Command.antt =====
-- `cmd_fmt` of compiler/dmc.cpp.
use demonic_c.Base.{
  ◌≡◌, ◌≢◌, refl, sym, ap, ◌∙◌, Bool, true, false, List, [], ◌∷◌, none, some, if◌then◌else◌,
  if_intro, Option-cases, inl, inr, ◌⊎◌,
}
use demonic_c.Text.{Bytes, codes, eqb, eqb_iff, is, cat}
use demonic_c.Files.{Files, Exit, write_file, write_file-same, write_file-other}
use demonic_c.Format.{format_dmc_code}
use demonic_c.Format.Stable.{format-format}

-- The loop over the arguments: whether `--check` was seen, and the first other argument that is not
-- empty.
unfoldable pub fmt_args : Bool → Bytes → List Bytes → Bool × Bytes
unfolding eqb
fmt_args check_only file_path [] = (check_only, file_path)
fmt_args check_only file_path (a ∷ args) =
    if is a "--check"
    then fmt_args true file_path args
    else if is file_path ""
    then fmt_args check_only a args
    else fmt_args check_only file_path args

-- What follows the reading of the file. An `std::ofstream` that does not open is not noticed; `writable`
-- tells which do.
unfoldable pub fmt_file : (Bytes → Bool) → Bool → Bytes → Bytes → Files → Exit
unfolding eqb write_file
fmt_file writable check_only file_path original files =
    let formatted = format_dmc_code (format_dmc_code original) in
    if check_only
    then (if eqb original formatted
        then record {
          status = 0;
          out = cat (codes "dmc fmt: file is already formatted: " ∷ file_path ∷ codes "\n" ∷ []);
          err = [];
          files = files;
        }
        else record {
          status = 1;
          out = cat (codes "dmc fmt: file would be reformatted: " ∷ file_path ∷ codes "\n" ∷ []);
          err = [];
          files = files;
        })
    else record {
      status = 0;
      out = cat (codes "dmc fmt: formatted: " ∷ file_path ∷ codes "\n" ∷ []);
      err = [];
      files = if writable file_path then write_file file_path formatted files else files;
    }

unfoldable pub fmt_path : (Bytes → Bool) → Bool → Bytes → Files → Exit
fmt_path writable check_only file_path files =
    if is file_path ""
    then record {
      status = 1;
      out = [];
      err = codes "dmc fmt: usage: dmc fmt [--check] <file.dmc>\n";
      files = files;
    }
    else elim (files file_path) [
      | none ↦ record {
        status = 1;
        out = [];
        err = cat (codes "dmc fmt: file not found: " ∷ file_path ∷ codes "\n" ∷ []);
        files = files;
      }
      | some original ↦ fmt_file writable check_only file_path original files
    ]

unfoldable pub cmd_fmt : (Bytes → Bool) → List Bytes → Files → Exit
cmd_fmt writable args files =
    let (check_only, file_path) = fmt_args false [] args in
    fmt_path writable check_only file_path files

fmt_path-found :
    (w : Bytes → Bool) (check_only : Bool) (path text : Bytes) (files : Files)
    → is path "" ≡ false
    → files path ≡ some text
    → fmt_path w check_only path files ≡ fmt_file w check_only path text files
unfolding fmt_path
fmt_path-found w check_only path text files p e = rw (p, e)

cmd_fmt-found :
    (w : Bytes → Bool) (args : List Bytes) (check_only : Bool) (path text : Bytes) (files : Files)
    → fmt_args false [] args ≡ (check_only, path)
    → is path "" ≡ false
    → files path ≡ some text
    → cmd_fmt w args files ≡ fmt_file w check_only path text files
unfolding cmd_fmt
cmd_fmt-found w args check_only path text files a p e =
    rw a (fmt_path-found w check_only path text files p e)

-- What the formatter has written, `--check` accepts.
fmt_file-written :
    (w : Bytes → Bool) (path text : Bytes) (files : Files)
    → (fmt_file w true path (format_dmc_code (format_dmc_code text)) files).status ≡ 0
unfolding fmt_file
fmt_file-written w path text files =
    let twice = format_dmc_code (format_dmc_code text) in
    let same : eqb twice (format_dmc_code (format_dmc_code twice)) ≡ true =
      (eqb_iff _ _).1 (sym (format-format twice ∙ format-format (format_dmc_code text))) in
    rw same

fmt_file-check_files :
    (w : Bytes → Bool) (path text : Bytes) (files : Files)
    → (fmt_file w true path text files).files ≡ files
unfolding fmt_file
fmt_file-check_files w path text files =
    if_intro (λ r. Exit.files r ≡ files) (eqb text (format_dmc_code (format_dmc_code text)))
      (λ _. refl) (λ _. refl)

cmd_fmt-writes :
    (w : Bytes → Bool) (args : List Bytes) (path text : Bytes) (files : Files)
    → fmt_args false [] args ≡ (false, path)
    → is path "" ≡ false
    → files path ≡ some text
    → w path ≡ true
    → (cmd_fmt w args files).files ≡ write_file path (format_dmc_code (format_dmc_code text)) files
unfolding fmt_file
cmd_fmt-writes w args path text files a p e opens =
    ap Exit.files (cmd_fmt-found w args false path text files a p e) ∙ rw opens refl

-- When `dmc fmt` has been run on a file that exists and can be written, `dmc fmt --check` on it returns
-- 0, and changes no file.
pub cmd_fmt-cmd_fmt :
    (w : Bytes → Bool) (args args' : List Bytes) (path text : Bytes) (files : Files)
    → fmt_args false [] args ≡ (false, path)
    → fmt_args false [] args' ≡ (true, path)
    → is path "" ≡ false
    → files path ≡ some text
    → w path ≡ true
    → ((cmd_fmt w args' (cmd_fmt w args files).files).status ≡ 0)
      × ((cmd_fmt w args' (cmd_fmt w args files).files).files ≡ (cmd_fmt w args files).files)
cmd_fmt-cmd_fmt w args args' path text files a a' p e o =
    let formatted = format_dmc_code (format_dmc_code text) in
    let written : (cmd_fmt w args files).files path ≡ some formatted =
      ap (λ g. g path) (cmd_fmt-writes w args path text files a p e o)
      ∙ write_file-same path formatted files in
    let found =
      cmd_fmt-found w args' true path formatted (cmd_fmt w args files).files a' p written in
    (
      ap Exit.status found ∙ fmt_file-written w path text (cmd_fmt w args files).files,
      ap Exit.files found ∙ fmt_file-check_files w path formatted (cmd_fmt w args files).files,
    )

fmt_file-other :
    (w : Bytes → Bool) (check_only : Bool) (path text : Bytes) (files : Files) (q : Bytes)
    → path ≢ q
    → (fmt_file w check_only path text files).files q ≡ files q
unfolding fmt_file
fmt_file-other w true path text files q h = ap (λ g. g q) (fmt_file-check_files w path text files)
fmt_file-other w false path text files q h =
    if_intro (λ (fs : Files). fs q ≡ files q) (w path) (λ _. write_file-other path _ files q h)
      (λ _. refl)

named_path : (path : Bytes) → path ≡ [] → is path "" ≡ false → ⊥
named_path path p named = let e = (eqb_iff path []).1 p in cc

fmt_path-others :
    (w : Bytes → Bool) (check_only : Bool) (path : Bytes) (files : Files) (q : Bytes)
    → ((path ≢ q) ⊎ (check_only ≡ true) ⊎ (path ≡ []) ⊎ (files path ≡ none))
    → (fmt_path w check_only path files).files q ≡ files q
unfolding fmt_path
fmt_path-others w check_only path files q h =
    if_intro (λ r. Exit.files r q ≡ files q) (is path "") (λ _. refl)
      (λ named. elim (Option-cases (files path)) [
        | inl e ↦ rw e
        | inr (text, e) ↦ rw e (elim h [
          | inl other ↦ fmt_file-other w check_only path text files q other
          | inr (inl c) ↦ rw c (ap (λ g. g q) (fmt_file-check_files w path text files))
          | inr (inr (inl p)) ↦ absurd (named_path path p named)
          | inr (inr (inr n)) ↦ cc
        ])
      ])

-- `dmc fmt` changes no file but the one that its arguments name, and none at all with `--check`, with
-- no file named, or with a file that does not exist.
pub cmd_fmt-others :
    (w : Bytes → Bool) (args : List Bytes) (files : Files) (q : Bytes)
    → (((fmt_args false [] args).1 ≢ q)
        ⊎ ((fmt_args false [] args).0 ≡ true)
        ⊎ ((fmt_args false [] args).1 ≡ [])
        ⊎ (files (fmt_args false [] args).1 ≡ none))
    → (cmd_fmt w args files).files q ≡ files q
unfolding cmd_fmt
cmd_fmt-others w args files q h =
    fmt_path-others w (fmt_args false [] args).0 (fmt_args false [] args).1 files q h
