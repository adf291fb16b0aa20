-- ===== src/Packages/Update.antt =====
-- What the package commands leave installed: `update` and `list` against what `install` writes.
use demonic_c.Base.{
  ◌≡◌, ◌∙◌, sym, ap, subst, refl, inl, inr, Bool, true, false, List, [], ◌∷◌, ◌++◌, Option, none,
  some, if_intro, All, find_map, Bool-cases, Option-cases, List-cases, String,
}
use demonic_c.Text.{Bytes, codes, is, eqb, eqb_iff}
use demonic_c.Packages.{
  Report, meta_of, of_version, version_or_first, install_from, install_package, named_version,
  uninstall_found, uninstall_package, update_from, update_package,
}
use demonic_c.Packages.Installed.{
  PackageInfo, PackageMetadata, Store, search_registry, read_meta, installed_packages, meta_text,
  put_text, write_package_meta,
}
use demonic_c.Packages.Registry.{
  Offered, search_registry-Offered, in_quotes, Written, ReadsAs, read_meta-Offered,
  put_text-Written, remove_all-Written, read_meta-Written, installed_packages-Written,
  is_old-Offered, of_version-Offered,
}

-- A report that leaves only directories of the registry's packages.
record Leaves (r : Report) : Type 0 where
  written : All Written r.store

uninstall-Leaves :
    (name : Bytes) (o : Option Bytes) (store : Store)
    → All Written store
    → Leaves (uninstall_found name o store)
uninstall-Leaves name none store w = record { written = w }
uninstall-Leaves name (some v) store w = record { written = remove_all-Written name store w }

-- A command that changes the directories.
pub data Command : Type 0 where
  install : Bool → Bytes → Bytes → Command
  uninstall : Bytes → Command
  update : Bool → Bytes → Command

abbrev store_behind : Option Report → Store → Store
store_behind none store = store
store_behind (some r) store = r.store

-- The directories behind a command, also where it throws.
unfoldable pub after_command : Command → Store → Store
after_command (install writable name version) store =
    (install_package writable name version store).store
after_command (uninstall name) store = store_behind (uninstall_package name store) store
after_command (update writable name) store = store_behind (update_package writable name store) store

unfoldable pub after_commands : List Command → Store → Store
unfolding after_command
after_commands [] store = store
after_commands (c ∷ cs) store = after_commands cs (after_command c store)

write-Leaves :
    (writable : Bool) (p : PackageInfo) (store : Store)
    → Offered p
    → All Written store
    → All Written (write_package_meta writable p.name (meta_of p) store)
unfolding write_package_meta
write-Leaves writable p store o w =
    if_intro (All Written) writable (λ _. put_text-Written p store o w) (λ _. w)

install_from-Leaves :
    (writable : Bool) (name version : Bytes) (ps : List PackageInfo) (store : Store)
    → All Offered ps
    → All Written store
    → Leaves (install_from writable name version ps store)
install_from-Leaves writable name version [] store o w = record { written = w }
install_from-Leaves writable name version (p ∷ ps) store o w =
    elim (Option-cases (find_map (of_version (version_or_first version p)) (p ∷ ps))) [
      | inl e ↦ rw e (record { written = w })
      | inr (q, e) ↦ rw e (record {
        written =
            write-Leaves writable q store
              (of_version-Offered (version_or_first version p) (p ∷ ps) o e) w;
      })
    ]

install-Leaves :
    (writable : Bool) (name version : Bytes) (store : Store)
    → All Written store
    → Leaves (install_package writable name version store)
unfolding install_package
install-Leaves writable name version store w =
    install_from-Leaves writable name version (search_registry name) store
      (search_registry-Offered name) w

-- `update` of a package of the registry, on directories that the commands have written.
update-Written :
    (writable : Bool) (name : Bytes) (p : PackageInfo) (ps : List PackageInfo) (store : Store)
    → All Offered (p ∷ ps)
    → All Written store
    → update_from writable name (p ∷ ps) store
      ≡ some (install_package writable name p.version store)
update-Written writable name p ps store o w =
    let (ms, e, q) = installed_packages-Written store w in rw (e, is_old-Offered p name ms o.0 q)

update_package-Written :
    (writable : Bool) (name : Bytes) (store : Store) {p : PackageInfo} {ps : List PackageInfo}
    → All Written store
    → search_registry name ≡ p ∷ ps
    → update_package writable name store ≡ some (install_package writable name p.version store)
unfolding update_package
update_package-Written writable name store {p} {ps} w e =
    ap (λ o. update_from writable name o store) e
    ∙ update-Written writable name p ps store (subst (All Offered) e (search_registry-Offered name))
        w

after_command-Written :
    (c : Command) (store : Store) → All Written store → All Written (after_command c store)
unfolding after_command uninstall_package update_package
after_command-Written (install writable name version) store w =
    (install-Leaves writable name version store w).written
after_command-Written (uninstall name) store w =
    let (ms, e, _) = installed_packages-Written store w in
    rw e (uninstall-Leaves name (find_map (named_version name) ms) store w).written
after_command-Written (update writable name) store w = elim (List-cases (search_registry name)) [
  | inl e ↦ rw e w
  | inr (p, ps, e) ↦
      subst (λ r. All Written (store_behind r store))
        (sym (update_package-Written writable name store w e))
        (install-Leaves writable name p.version store w).written
]

after_commands-Written :
    (cs : List Command) (store : Store) → All Written store → All Written (after_commands cs store)
unfolding after_commands
after_commands-Written [] store w = w
after_commands-Written (c ∷ cs) store w =
    after_commands-Written cs (after_command c store) (after_command-Written c store w)

-- On directories that commands have written, in any order and however they end, `update` of a package
-- that the registry has installs its first version, also where that version is installed already.
pub update_reinstalls :
    (cs : List Command) (writable : Bool) (name : Bytes) {p : PackageInfo} {ps : List PackageInfo}
    → search_registry name ≡ p ∷ ps
    → update_package writable name (after_commands cs [])
      ≡ some (install_package writable name p.version (after_commands cs []))
update_reinstalls cs writable name {p} {ps} e =
    update_package-Written writable name (after_commands cs []) (after_commands-Written cs [] tt) e

-- The packages of a name have that name.
search_registry-named : (name : Bytes) → All (λ p. p.name ≡ name) (search_registry name)
unfolding search_registry
search_registry-named name =
    if_intro (All (λ p. p.name ≡ name)) (is name "json") (λ e. (same "json" e, (same "json" e, tt)))
      λ _.
        if_intro (All (λ p. p.name ≡ name)) (is name "http")
          (λ e. (same "http" e, (same "http" e, tt)))
          λ _.
            if_intro (All (λ p. p.name ≡ name)) (is name "crypto") (λ e. (same "crypto" e, tt))
              (λ _. tt)
  where
    same : (s : String) → is name s ≡ true → codes s ≡ name
    same s e = sym ((eqb_iff name (codes s)).0 e)

-- A package with the version that is read of it.
record Shows (name version : Bytes) (o : Option (List PackageMetadata)) : Type 0 where
  metas : List PackageMetadata
  reads : o ≡ some metas
  shown : find_map (named_version name) metas ≡ some (in_quotes version)

here-Shows :
    (name version : Bytes) (e : Bytes × Bytes) (es : Store)
    → ReadsAs name version (read_meta e)
    → All Written es
    → Shows name version (installed_packages (e ∷ es))
unfolding installed_packages
here-Shows name version e es r w =
    let (ms, rest, _) = installed_packages-Written es w in
    let found : eqb r.meta.name name ≡ true = (eqb_iff r.meta.name name).1 r.named in
    record {
      metas = r.meta ∷ ms;
      reads = rw (r.reads, rest);
      shown = rw (find_map, found, r.quoted);
    }

put_text-Shows :
    (p : PackageInfo) (store : Store)
    → Offered p
    → All Written store
    → Shows p.name p.version (installed_packages (put_text p.name (meta_text (meta_of p)) store))
unfolding put_text installed_packages
put_text-Shows p [] o w =
    here-Shows p.name p.version (p.name, meta_text (meta_of p)) [] (read_meta-Offered p o) tt
put_text-Shows p (e ∷ es) o w = elim (Bool-cases (eqb e.0 p.name)) [
  | inl same ↦
      let named : e.0 ≡ p.name = (eqb_iff e.0 p.name).0 same in
      rw same (
        here-Shows p.name p.version (e.0, meta_text (meta_of p)) es
          (subst (λ n. ReadsAs p.name p.version (read_meta (n, meta_text (meta_of p)))) (sym named)
            (read_meta-Offered p o))
          w.1)
  | inr other ↦
      let r = read_meta-Written e w.0 in
      let rest = put_text-Shows p es o w.1 in
      let apart : eqb r.meta.name p.name ≡ false =
        subst (λ n. eqb n p.name ≡ false) (sym r.named) other in
      rw other (record {
        metas = r.meta ∷ rest.metas;
        reads = rw (r.reads, rest.reads);
        shown = rw (find_map, apart) rest.shown;
      })
]

-- Behind `install` of a package that the registry has, without a version and where the file is written,
-- on directories that commands have written, `installed_packages` reads all the directories, and the
-- version that it gives for the package is the registry's first one, with a quote on each side.
pub install-installed :
    (cs : List Command) (name : Bytes) {p : PackageInfo} {ps : List PackageInfo}
    → search_registry name ≡ p ∷ ps
    → (ms : List PackageMetadata) × (installed_packages
          (install_package true name [] (after_commands cs [])).store
        ≡ some ms)
      × (find_map (named_version name) ms ≡ some (b'"' ∷ (p.version ++ (b'"' ∷ []))))
unfolding install_package write_package_meta
install-installed cs name {p} {ps} e =
    let offered : All Offered (p ∷ ps) = subst (All Offered) e (search_registry-Offered name) in
    let named : All (λ q. q.name ≡ name) (p ∷ ps) =
      subst (All (λ q. q.name ≡ name)) e (search_registry-named name) in
    let self : eqb p.version p.version ≡ true = (eqb_iff p.version p.version).1 refl in
    let s = put_text-Shows p (after_commands cs []) offered.0 (after_commands-Written cs [] tt) in
    (
      s.metas,
      rw (e, find_map, self) s.reads,
      subst (λ n. find_map (named_version n) s.metas ≡ some (in_quotes p.version)) named.0 s.shown,
    )
