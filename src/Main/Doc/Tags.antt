-- ===== src/Main/Doc/Tags.antt =====
-- The tags of the page of `cmd_doc`.
use demonic_c.Base.{
  if_intro, append_assoc, ℕ, suc, ◌+◌, ◌*◌, ◌≡◌, refl, ap, ◌∙◌, true, false, List, [], ◌∷◌, ◌++◌,
  ◌==◌, some, if◌then◌else◌, map, length, arith, All,
}
use demonic_c.Text.{Bytes, codes, cat}
use demonic_c.Files.{write_file-same}
use demonic_c.Html.{html_escape}
use demonic_c.Html.Decode.{Harmless, html_escape-Harmless}
use demonic_c.Main.World.{Disk, Report, System, create_directories, put, read_lines}
use demonic_c.Main.Doc.{
  doc_args, doc_index, doc_head, doc_lines, doc_section, doc_sources, doc_page, doc_written,
  cmd_doc,
}

-- How many `<` a text has.
unfoldable pub opening : Bytes → ℕ
opening [] = 0
opening (c ∷ cs) = let rest = opening cs in if c == b'<' then suc rest else rest

opening-append : (s t : Bytes) → opening (s ++ t) ≡ opening s + opening t
unfolding opening
opening-append [] t = omega arith
opening-append (c ∷ s) t = let rest = opening-append s t in ground (arith, rest)

opening-Harmless : (s : Bytes) → All Harmless s → opening s ≡ 0
unfolding opening Harmless
opening-Harmless [] h = refl
opening-Harmless (c ∷ s) (p, ps) = rw p.0 (opening-Harmless s ps)

-- A text without a `<` in front of another.
opening-behind : (s t : Bytes) → opening s ≡ 0 → opening (s ++ t) ≡ opening t
opening-behind s t h = let whole = opening-append s t in omega (arith, h, whole)

opening-html_escape : (s t : Bytes) → opening (html_escape s ++ t) ≡ opening t
opening-html_escape s t =
    opening-behind (html_escape s) t (opening-Harmless (html_escape s) (html_escape-Harmless s))

opening-doc_lines : (ls : List Bytes) (t : Bytes) → opening (doc_lines ls ++ t) ≡ opening t
unfolding opening
opening-doc_lines [] t = refl
opening-doc_lines (l ∷ ls) t =
    ap opening (
      append_assoc (html_escape l ++ codes "\n") (doc_lines ls) t
      ∙ append_assoc (html_escape l) (codes "\n") (doc_lines ls ++ t))
    ∙ opening-html_escape l (codes "\n" ++ (doc_lines ls ++ t))
    ∙ opening-doc_lines ls t

opening-doc_section :
    (disk : Disk) (path t : Bytes) → opening (doc_section disk path ++ t) ≡ 4 + opening t
unfolding opening
opening-doc_section disk path t =
    let lines_of = read_lines disk path in
    let behind_path =
      opening-html_escape path (codes "</h2><pre>" ++ (doc_lines lines_of ++ codes "</pre>")) in
    let behind_lines = opening-doc_lines lines_of (codes "</pre>") in
    let section : opening (doc_section disk path) ≡ 4 =
      ap suc (behind_path ∙ ap (λ n. suc (suc n)) behind_lines) in
    let whole = opening-append (doc_section disk path) t in omega (arith, section, whole)

opening-sections :
    (disk : Disk) (paths : List Bytes) (t : Bytes)
    → opening (cat (map (doc_section disk) paths) ++ t) ≡ 4 * length paths + opening t
opening-sections disk [] t = omega arith
opening-sections disk (p ∷ ps) t =
    let rest = opening-sections disk ps t in
    let here = opening-doc_section disk p (cat (map (doc_section disk) ps) ++ t) in
    let split =
      ap opening (append_assoc (doc_section disk p) (cat (map (doc_section disk) ps)) t) in
    omega (arith, rest, here, split)

opening-doc_page :
    (disk : Disk) (paths : List Bytes) → opening (doc_page disk paths) ≡ 12 + 4 * length paths
unfolding opening doc_page
opening-doc_page disk paths =
    let rest = opening-sections disk paths (codes "</body></html>\n") in
    let whole =
      opening-append doc_head (cat (map (doc_section disk) paths) ++ codes "</body></html>\n") in
    let head_has : opening doc_head ≡ 10 = refl in
    let foot_has : opening (codes "</body></html>\n") ≡ 2 = refl in
    omega (arith, rest, whole, head_has, foot_has)

put-same :
    (sys : System) (path text : Bytes) (disk : Disk)
    → sys.writable path ≡ true
    → (put sys path text disk).files path ≡ some text
unfolding put
put-same sys path text disk h = rw h (write_file-same path text disk.files)

-- The page that `dmc doc` writes has the twelve `<` of its frame and four for each file that it shows,
-- whatever the files, their names and the arguments are: no text of a file is read as a tag. The file of
-- the page is one that can be opened.
pub cmd_doc-tags :
    (sys : System) (args : List Bytes) (disk : Disk)
    → sys.writable doc_index ≡ true
    → (page : Bytes) × (sources : List Bytes) × ((cmd_doc sys args disk).disk.files doc_index
        ≡ some page)
      × (opening page ≡ 12 + 4 * length sources)
      × (sources
          ≡ doc_sources sys
              (doc_args false false (codes "../src") args).2
              (put sys doc_index [] (create_directories (codes "docs/generated") disk)))
unfolding cmd_doc doc_written
cmd_doc-tags sys args disk h =
    let opened = put sys doc_index [] (create_directories (codes "docs/generated") disk) in
    let sources = doc_sources sys (doc_args false false (codes "../src") args).2 opened in
    (
      doc_page opened sources,
      sources,
      if_intro (λ (r : Report). r.disk.files doc_index ≡ some (doc_page opened sources))
          (sys.writable doc_index) (λ _. put-same sys doc_index (doc_page opened sources) opened h)
          (λ not_writable. absurd cc),
      opening-doc_page opened sources,
      refl,
    )
