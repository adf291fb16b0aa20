-- ===== src/Packages/Installed.antt =====
-- The packages that compiler/dmc.cpp knows and the directories of those installed: `search_registry`,
-- `installed_packages` and `write_package_meta`.
use demonic_c.Base.{
  ◌+◌, Bool, List, [], ◌∷◌, ◌++◌, Option, none, some, if◌then◌else◌, ltb, length, drop,
}
use demonic_c.Text.{Bytes, codes, is, eqb, contains, find_byte, cat}
use demonic_c.Format.{lines}

pub record PackageInfo : Type 0 where
  pub name : Bytes
  pub version : Bytes
  pub summary : Bytes

-- `dependencies`, which is always empty, and `repository`, which nothing uses, are left out.
pub record PackageMetadata : Type 0 where
  pub name : Bytes
  pub version : Bytes
  pub description : Bytes
  pub author : Bytes
  pub license : Bytes

-- The directories under `packages_path()` that hold a `dmc.toml`, by their names, with its text, in the
-- order in which `directory_iterator` goes through them.
abbrev pub Store : Type 0
Store = List (Bytes × Bytes)

abbrev pub info : Bytes → Bytes → Bytes → PackageInfo
info name version summary = record { name = name; version = version; summary = summary }

abbrev pub json_packages : List PackageInfo
json_packages =
    info (codes "json") (codes "2.0.1") (codes "JSON parsing and serialization")
    ∷ info (codes "json") (codes "1.5.0") (codes "Basic JSON support")
    ∷ []

abbrev pub http_packages : List PackageInfo
http_packages =
    info (codes "http") (codes "1.0.3") (codes "HTTP client library")
    ∷ info (codes "http") (codes "0.9.0") (codes "Basic HTTP support")
    ∷ []

abbrev pub crypto_packages : List PackageInfo
crypto_packages = info (codes "crypto") (codes "0.9.1") (codes "Cryptographic primitives") ∷ []

unfoldable pub search_registry : Bytes → List PackageInfo
search_registry name =
    if is name "json"
    then json_packages
    else if is name "http"
    then http_packages
    else if is name "crypto"
    then crypto_packages
    else []

-- `line.substr(line.find('=') + 2)`: `std::out_of_range` is `none`.
abbrev pub with_value : Bytes → (Bytes → PackageMetadata) → PackageMetadata → Option PackageMetadata
with_value line set meta = elim (find_byte b'=' line) [
  | none ↦ some meta
  | some eq ↦ if ltb (length line) (eq + 2) then none else some (set (drop (eq + 2) line))
]

unfoldable pub read_line : Bytes → PackageMetadata → Option PackageMetadata
unfolding contains
read_line line meta =
    if contains (codes "version") line
    then with_value line (λ v. record meta { version = v }) meta
    else if contains (codes "description") line
    then with_value line (λ v. record meta { description = v }) meta
    else if contains (codes "author") line
    then with_value line (λ v. record meta { author = v }) meta
    else if contains (codes "license") line
    then with_value line (λ v. record meta { license = v }) meta
    else some meta

unfoldable pub read_entries : List Bytes → PackageMetadata → Option PackageMetadata
unfolding read_line
read_entries [] meta = some meta
read_entries (l ∷ ls) meta = elim (read_line l meta) [
  | none ↦ none
  | some next ↦ read_entries ls next
]

abbrev pub unread : Bytes → PackageMetadata
unread name = record { name = name; version = []; description = []; author = []; license = [] }

unfoldable pub read_meta : Bytes × Bytes → Option PackageMetadata
unfolding read_entries lines
read_meta entry = read_entries (lines entry.1) (unread entry.0)

abbrev pub and_meta :
    Option PackageMetadata → Option (List PackageMetadata) → Option (List PackageMetadata)
and_meta none rest = none
and_meta (some meta) none = none
and_meta (some meta) (some rest) = some (meta ∷ rest)

unfoldable pub installed_packages : Store → Option (List PackageMetadata)
unfolding read_meta
installed_packages [] = some []
installed_packages (e ∷ es) = and_meta (read_meta e) (installed_packages es)

abbrev pub quoted : Bytes → Bytes → Bytes
quoted key value = key ++ (codes " = \"" ++ (value ++ codes "\"\n"))

-- The text that `write_package_meta` writes.
abbrev pub meta_text : PackageMetadata → Bytes
meta_text meta = cat (
    codes "[package]\n"
    ∷ quoted (codes "name") meta.name
    ∷ quoted (codes "version") meta.version
    ∷ quoted (codes "description") meta.description
    ∷ quoted (codes "author") meta.author
    ∷ quoted (codes "license") meta.license
    ∷ codes "\n"
    ∷ codes "[dependencies]\n"
    ∷ [])

-- The text of one directory replaced, or a new directory.
unfoldable pub put_text : Bytes → Bytes → Store → Store
put_text name text [] = (name, text) ∷ []
put_text name text (e ∷ es) =
    let rest = put_text name text es in if eqb e.0 name then (e.0, text) ∷ es else e ∷ rest

-- `writable` tells whether the file opens.
unfoldable pub write_package_meta : Bool → Bytes → PackageMetadata → Store → Store
unfolding put_text
write_package_meta writable name meta store =
    if writable then put_text name (meta_text meta) store else store
