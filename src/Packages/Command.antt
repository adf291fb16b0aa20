-- ===== src/Packages/Command.antt =====
-- `cmd_pkg` and `resolve_dependencies` of compiler/dmc.cpp.
use demonic_c.Base.{ℕ, Bool, true, false, List, [], ◌∷◌, ◌++◌, Option, none, some, if◌then◌else◌}
use demonic_c.Text.{Bytes, codes, is, contains, find_byte, cat, substr}
use demonic_c.Format.{lines, trim}
use demonic_c.Packages.Semver.{Semver, no_match, matches, out_of_range, parse_semver}
use demonic_c.Packages.{
  Report, install_package, uninstall_package, update_package, search_packages, list_packages,
}
use demonic_c.Packages.Installed.{Store}

abbrev pub reverse_onto : Bytes → Bytes → Bytes
reverse_onto [] acc = acc
reverse_onto (c ∷ cs) acc = reverse_onto cs (c ∷ acc)

-- A text without the blanks and tabs at both ends.
unfoldable pub stripped : Bytes → Bytes
unfolding trim
stripped s = reverse_onto (trim (reverse_onto (trim s) [])) []

-- The name in front of the first `=`, if there is one.
abbrev pub dependency : Bytes → List Bytes
dependency line = elim (find_byte b'=' line) [
  | none ↦ []
  | some eq ↦ elim (stripped (substr line 0 eq)) [ [] ↦ [] | c ∷ cs ↦ (c ∷ cs) ∷ [] ]
]

-- The dependencies that the lines name; the first argument tells whether their section has begun.
unfoldable pub dependencies_in : Bool → List Bytes → List Bytes
unfolding contains stripped
dependencies_in inside [] = []
dependencies_in inside (l ∷ ls) =
    let within = dependencies_in true ls in
    let without = dependencies_in false ls in
    let after = if inside then within else without in
    if contains (codes "[dependencies]") l
    then within
    else if contains (codes "[package]") l
    then without
    else if inside
    then dependency l ++ after
    else after

-- The last loop, by what `parse_semver` returns on each; `none` is its exception.
abbrev pub resolved : Bytes → Semver → Option Bytes → Option Bytes
resolved dep out_of_range rest = none
resolved dep no_match rest = rest
resolved dep (matches op version) none = none
resolved dep (matches op version) (some text) =
    some (cat (codes "Resolving dependency: " ∷ dep ∷ codes "\n" ∷ text ∷ []))

unfoldable pub resolve_all : List Bytes → Option Bytes
unfolding parse_semver
resolve_all [] = some []
resolve_all (dep ∷ deps) = resolved dep (parse_semver dep) (resolve_all deps)

-- What `resolve_dependencies` prints. `toml` is the text of `dmc.toml`, if there is one.
unfoldable pub resolve_dependencies : Option Bytes → Option Bytes
unfolding dependencies_in lines resolve_all
resolve_dependencies none = some []
resolve_dependencies (some toml) = resolve_all (dependencies_in false (lines toml))

-- The name and the version among the arguments of `install`.
unfoldable pub install_args : Bytes → Bytes → List Bytes → Bytes × Bytes
install_args name version [] = (name, version)
install_args [] version (a ∷ []) = (a, version)
install_args (c ∷ cs) version (a ∷ []) = (c ∷ cs, version)
install_args name version (a ∷ b ∷ rest) =
    let versioned = install_args name b rest in
    let named = install_args (first_name name a) version (b ∷ rest) in
    if is a "--version" then versioned else named
  where
    first_name : Bytes → Bytes → Bytes
    first_name [] a = a
    first_name (c ∷ cs) a = c ∷ cs

-- The exit status with what is printed and left behind; `none` is an exception.
abbrev pub Ending : Type 0
Ending = Option (ℕ × Report)

abbrev pub ends : ℕ → Report → Ending
ends status r = some (status, r)

abbrev pub complains : Bytes → Store → Ending
complains message store = ends 1 (record { out = []; err = message; store = store })

abbrev pub succeeds : Option Report → Ending
succeeds none = none
succeeds (some r) = ends 0 r

abbrev pub first_named : List Bytes → Bytes
first_named [] = []
first_named ([] ∷ rest) = first_named rest
first_named ((c ∷ cs) ∷ rest) = c ∷ cs

abbrev pub install_named : Option Bytes → Bool → Bytes × Bytes → Store → Ending
install_named toml writable ([], version) store =
    complains (codes "dmc install: package name required\n") store
install_named toml writable (c ∷ cs, version) store =
    let r = install_package writable (c ∷ cs) version store in
    elim (resolve_dependencies toml) [
      | none ↦ none
      | some text ↦ ends 0 (record r { out = r.out ++ text })
    ]

abbrev pub uninstall_named : List Bytes → Store → Ending
uninstall_named [] store = complains (codes "dmc uninstall: package name required\n") store
uninstall_named (name ∷ rest) store = succeeds (uninstall_package name store)

abbrev pub update_named : Bool → Bytes → Store → Ending
update_named writable [] store = complains (codes "dmc update: package name required\n") store
update_named writable (c ∷ cs) store = succeeds (update_package writable (c ∷ cs) store)

abbrev pub search_named : Bytes → Store → Ending
search_named [] store = complains (codes "dmc search: search term required\n") store
search_named (c ∷ cs) store = succeeds (some (search_packages (c ∷ cs) store))

abbrev pub publish : Store → Report
publish store = record {
  out = codes "dmc publish: publishing package to registry...\n";
  err = [];
  store = store;
}

-- `args` are the arguments behind `pkg`.
unfoldable pub cmd_pkg : Option Bytes → Bool → List Bytes → Store → Ending
unfolding resolve_dependencies install_args install_package uninstall_package update_package
    search_packages list_packages
cmd_pkg toml writable [] store =
    complains
      (codes "dmc pkg: usage: dmc pkg <install|uninstall|update|search|list|publish> [package]\n")
      store
cmd_pkg toml writable (command ∷ rest) store =
    if is command "install"
    then install_named toml writable (install_args [] [] rest) store
    else if is command "uninstall"
    then uninstall_named rest store
    else if is command "update"
    then update_named writable (first_named rest) store
    else if is command "search"
    then search_named (first_named rest) store
    else if is command "list"
    then succeeds (list_packages store)
    else if is command "publish"
    then ends 0 (publish store)
    else complains (cat (codes "dmc pkg: unknown command '" ∷ command ∷ codes "'\n" ∷ [])) store
