-- ===== src/Main/Doc.antt =====
-- `cmd_doc` of compiler/dmc.cpp.
pub mod Tags
use demonic_c.Base.{ℕ, Bool, true, false, List, [], ◌∷◌, ◌++◌, if◌then◌else◌, map}
use demonic_c.Text.{Bytes, codes, eqb, is, cat}
use demonic_c.Html.{html_escape}
use demonic_c.Main.World.{
  Disk, Report, System, is_directory, exists, create_directories, put, read_lines, extension,
}

-- `serve`, `publish` and `source` behind the loop over the arguments.
unfoldable pub doc_args : Bool → Bool → Bytes → List Bytes → Bool × Bool × Bytes
unfolding eqb
doc_args serve publish source [] = (serve, publish, source)
doc_args serve publish source (a ∷ args) =
    if is a "--serve"
    then doc_args true publish source args
    else if is a "--publish"
    then doc_args serve true source args
    else doc_args serve publish a args

abbrev pub doc_index : Bytes
doc_index = codes "docs/generated/index.html"

abbrev pub doc_head : Bytes
doc_head =
    codes
      "<!doctype html><html><head><meta charset=\"utf-8\"><title>Demonic C Documentation</title></head><body><h1>Demonic C Documentation</h1>"

abbrev pub doc_lines : List Bytes → Bytes
doc_lines ls = cat (map (λ l. html_escape l ++ codes "\n") ls)

abbrev pub doc_section : Disk → Bytes → Bytes
doc_section disk path = cat (
    codes "<h2>"
    ∷ html_escape path
    ∷ codes "</h2><pre>"
    ∷ doc_lines (read_lines disk path)
    ∷ codes "</pre>"
    ∷ [])

-- Those with the extension `.dmc`.
unfoldable pub dmc_files : List Bytes → List Bytes
unfolding extension eqb
dmc_files [] = []
dmc_files (p ∷ ps) = let rest = dmc_files ps in if is (extension p) ".dmc" then p ∷ rest else rest

-- The files that the page shows.
unfoldable pub doc_sources : System → Bytes → Disk → List Bytes
unfolding is_directory exists dmc_files
doc_sources sys source disk =
    if is_directory disk source
    then dmc_files (sys.entries source disk)
    else if exists disk source
    then source ∷ []
    else []

unfoldable pub doc_page : Disk → List Bytes → Bytes
unfolding html_escape
doc_page disk sources =
    cat (doc_head ∷ cat (map (doc_section disk) sources) ∷ codes "</body></html>\n" ∷ [])

abbrev pub doc_message : Bool → Bool → Bytes
doc_message serve publish =
    if publish
    then codes "Documentation prepared for publishing at docs/generated/index.html\n"
    else if serve
    then codes "Documentation preview available at docs/generated/index.html\n"
    else codes "Documentation generated at docs/generated/index.html\n"

-- The page is opened, which empties it, before the sources are read.
unfoldable pub doc_written : System → Bool × Bool × Bytes → Disk → Report
unfolding create_directories put doc_sources doc_page
doc_written sys (serve, publish, source) disk =
    let made = create_directories (codes "docs/generated") disk in
    let opened = put sys doc_index [] made in
    if sys.writable doc_index
    then record {
      status = 0;
      out = doc_message serve publish;
      err = [];
      disk = put sys doc_index (doc_page opened (doc_sources sys source opened)) opened;
    }
    else record { status = 1; out = []; err = []; disk = made }

unfoldable pub cmd_doc : System → List Bytes → Disk → Report
unfolding doc_args doc_written
cmd_doc sys args disk = doc_written sys (doc_args false false (codes "../src") args) disk
