-- ===== src/Packages.antt =====
-- The package commands of compiler/dmc.cpp: `install_package`, `uninstall_package`, `update_package`,
-- `list_packages` and `search_packages`.
pub mod Installed
pub mod Registry
pub mod Update
pub mod Command
pub mod Semver
pub mod Unresolved
use demonic_c.Base.{
  ℕ, ◌+◌, Bool, true, false, List, [], ◌∷◌, ◌++◌, Option, none, some, if◌then◌else◌, ltb, ◌==◌,
  length, drop, map, find_map,
}
use demonic_c.Text.{Bytes, codes, is, eqb, contains, find_byte, cat}
use demonic_c.Format.{lines}
use demonic_c.Packages.Installed.{
  PackageInfo, PackageMetadata, Store, and_meta, crypto_packages, http_packages, info,
  installed_packages, json_packages, meta_text, put_text, quoted, read_line, read_entries,
  read_meta, search_registry, unread, with_value, write_package_meta,
}

-- What a command prints, and the directories behind it.
pub record Report : Type 0 where
  pub out : Bytes
  pub err : Bytes
  pub store : Store

abbrev pub meta_of : PackageInfo → PackageMetadata
meta_of p = record {
  name = p.name;
  version = p.version;
  description = p.summary;
  author = codes "Demonic C Contributors";
  license = codes "MIT";
}

abbrev pub of_version : Bytes → PackageInfo → Option PackageInfo
of_version version p = if eqb p.version version then some p else none

abbrev pub version_or_first : Bytes → PackageInfo → Bytes
version_or_first [] p = p.version
version_or_first (c ∷ cs) p = c ∷ cs

abbrev pub install_found : Bool → Bytes → Bytes → Option PackageInfo → Store → Report
install_found writable name version (some p) store = record {
  out =
      cat
        (codes "Package '" ∷ name ∷ codes "-" ∷ version ∷ codes "' installed successfully\n" ∷ []);
  err = [];
  store = write_package_meta writable p.name (meta_of p) store;
}
install_found writable name version none store = record {
  out = [];
  err = cat (
      codes "dmc install: version '"
      ∷ version
      ∷ codes "' of package '"
      ∷ name
      ∷ codes "' not available\n"
      ∷ []);
  store = store;
}

abbrev pub install_from : Bool → Bytes → Bytes → List PackageInfo → Store → Report
install_from writable name version [] store = record {
  out = [];
  err = cat (codes "dmc install: package '" ∷ name ∷ codes "' not found in registry\n" ∷ []);
  store = store;
}
install_from writable name version (p ∷ ps) store =
    install_found writable name (version_or_first version p)
      (find_map (of_version (version_or_first version p)) (p ∷ ps)) store

unfoldable pub install_package : Bool → Bytes → Bytes → Store → Report
unfolding search_registry write_package_meta eqb
install_package writable name version store =
    install_from writable name version (search_registry name) store

-- The directory and all that is in it, gone.
unfoldable pub remove_all : Bytes → Store → Store
remove_all name [] = []
remove_all name (e ∷ es) = let rest = remove_all name es in if eqb e.0 name then rest else e ∷ rest

abbrev pub named_version : Bytes → PackageMetadata → Option Bytes
named_version name meta = if eqb meta.name name then some meta.version else none

abbrev pub uninstall_found : Bytes → Option Bytes → Store → Report
uninstall_found name (some _) store = record {
  out = cat (codes "Package '" ∷ name ∷ codes "' uninstalled successfully\n" ∷ []);
  err = [];
  store = remove_all name store;
}
uninstall_found name none store = record {
  out = [];
  err = cat (codes "dmc uninstall: package '" ∷ name ∷ codes "' is not installed\n" ∷ []);
  store = store;
}

-- What follows a call of `installed_packages`, which may throw.
abbrev pub on_installed :
    (List PackageMetadata → Report) → Option (List PackageMetadata) → Option Report
on_installed k none = none
on_installed k (some pkgs) = some (k pkgs)

unfoldable pub uninstall_package : Bytes → Store → Option Report
unfolding installed_packages remove_all eqb
uninstall_package name store =
    on_installed (λ pkgs. uninstall_found name (find_map (named_version name) pkgs) store)
      (installed_packages store)

-- `a > b` on strings.
unfoldable pub greater : Bytes → Bytes → Bool
greater [] bs = false
greater (a ∷ rest_a) [] = true
greater (a ∷ rest_a) (b ∷ bs) = let rest = greater rest_a bs in if a == b then rest else ltb b a

-- An empty version counts as none.
abbrev pub is_old : Bytes → Option Bytes → Bool
is_old latest none = true
is_old latest (some []) = true
is_old latest (some (c ∷ cs)) = greater latest (c ∷ cs)

abbrev pub update_from : Bool → Bytes → List PackageInfo → Store → Option Report
update_from writable name [] store = some (record {
  out = [];
  err = cat (codes "dmc update: package '" ∷ name ∷ codes "' not found in registry\n" ∷ []);
  store = store;
})
update_from writable name (p ∷ ps) store =
    on_installed
      (λ pkgs.
        if is_old p.version (find_map (named_version name) pkgs)
        then install_package writable name p.version store
        else record {
          out = cat (
              codes "Package '"
              ∷ name
              ∷ codes "' is already at latest version "
              ∷ p.version
              ∷ codes "\n"
              ∷ []);
          err = [];
          store = store;
        })
      (installed_packages store)

unfoldable pub update_package : Bool → Bytes → Store → Option Report
unfolding search_registry installed_packages install_package greater
update_package writable name store = update_from writable name (search_registry name) store

abbrev pub listed : PackageMetadata → Bytes
listed m = cat (codes "  " ∷ m.name ∷ codes " " ∷ m.version ∷ codes "\n" ∷ [])

abbrev pub list_text : List PackageMetadata → Bytes
list_text [] = codes "No packages installed.\n"
list_text (m ∷ ms) = codes "Installed Demonic C packages:\n" ++ cat (map listed (m ∷ ms))

unfoldable pub list_packages : Store → Option Report
unfolding installed_packages
list_packages store =
    on_installed (λ pkgs. record { out = list_text pkgs; err = []; store = store })
      (installed_packages store)

abbrev pub search_line : PackageInfo → Bytes
search_line p =
    cat (codes "  " ∷ p.name ∷ codes " " ∷ p.version ∷ codes " - " ∷ p.summary ∷ codes "\n" ∷ [])

abbrev pub search_text : Bytes → List PackageInfo → Bytes
search_text name [] = cat (codes "No packages found matching '" ∷ name ∷ codes "'.\n" ∷ [])
search_text name (p ∷ ps) =
    cat (codes "Search results for '" ∷ name ∷ codes "':\n" ∷ map search_line (p ∷ ps))

unfoldable pub search_packages : Bytes → Store → Report
unfolding search_registry
search_packages name store = record {
  out = search_text name (search_registry name);
  err = [];
  store = store;
}
