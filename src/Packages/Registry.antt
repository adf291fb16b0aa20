-- ===== src/Packages/Registry.antt =====
-- The packages of the registry, the directories that are written for them, and what is read of those.
use demonic_c.Base.{
  ◌≡◌, ◌∙◌, sym, ap, subst, refl, inl, inr, true, List, [], ◌∷◌, ◌++◌, Option, some, if_intro, All,
  find_map, Bool-cases,
}
use demonic_c.Text.{Bytes, codes, is, eqb, eqb_iff}
use demonic_c.Packages.{meta_of, of_version, remove_all, named_version, greater, is_old}
use demonic_c.Packages.Installed.{
  PackageInfo, PackageMetadata, Store, info, search_registry, read_meta, installed_packages,
  meta_text, put_text,
}

-- The packages of the registry.
pub data Offered : PackageInfo → Type 0 where
  json_2 : Offered (info (codes "json") (codes "2.0.1") (codes "JSON parsing and serialization"))
  json_1 : Offered (info (codes "json") (codes "1.5.0") (codes "Basic JSON support"))
  http_1 : Offered (info (codes "http") (codes "1.0.3") (codes "HTTP client library"))
  http_0 : Offered (info (codes "http") (codes "0.9.0") (codes "Basic HTTP support"))
  crypto_0 : Offered (info (codes "crypto") (codes "0.9.1") (codes "Cryptographic primitives"))

pub search_registry-Offered : (name : Bytes) → All Offered (search_registry name)
unfolding search_registry
search_registry-Offered name =
    if_intro (All Offered) (is name "json") (λ _. (json_2, (json_1, tt)))
      λ _.
        if_intro (All Offered) (is name "http") (λ _. (http_1, (http_0, tt)))
          λ _. if_intro (All Offered) (is name "crypto") (λ _. (crypto_0, tt)) (λ _. tt)

-- A version as `installed_packages` reads it: with the quotes around it.
abbrev pub in_quotes : Bytes → Bytes
in_quotes version = b'"' ∷ (version ++ (b'"' ∷ []))

-- A directory with what `install_package` writes.
pub record Written (e : Bytes × Bytes) : Type 0 where
  pub source : PackageInfo
  pub offered : Offered source
  pub named : e.0 ≡ source.name
  pub text : e.1 ≡ meta_text (meta_of source)

-- What is read of the text of a package.
pub record ReadsAs (name version : Bytes) (o : Option PackageMetadata) : Type 0 where
  pub meta : PackageMetadata
  pub reads : o ≡ some meta
  pub named : meta.name ≡ name
  pub quoted : meta.version ≡ in_quotes version

pub read_meta-Offered :
    (p : PackageInfo)
    → Offered p
    → ReadsAs p.name p.version (read_meta (p.name, meta_text (meta_of p)))
unfolding read_meta
read_meta-Offered _ json_2 = record { meta = _; reads = refl; named = refl; quoted = refl }
read_meta-Offered _ json_1 = record { meta = _; reads = refl; named = refl; quoted = refl }
read_meta-Offered _ http_1 = record { meta = _; reads = refl; named = refl; quoted = refl }
read_meta-Offered _ http_0 = record { meta = _; reads = refl; named = refl; quoted = refl }
read_meta-Offered _ crypto_0 = record { meta = _; reads = refl; named = refl; quoted = refl }

pub greater-Offered :
    (p : PackageInfo) (v : Bytes) → Offered p → greater p.version (b'"' ∷ v) ≡ true
unfolding greater
greater-Offered _ v json_2 = refl
greater-Offered _ v json_1 = refl
greater-Offered _ v http_1 = refl
greater-Offered _ v http_0 = refl
greater-Offered _ v crypto_0 = refl

pub put_text-Written :
    (p : PackageInfo) (store : Store)
    → Offered p
    → All Written store
    → All Written (put_text p.name (meta_text (meta_of p)) store)
unfolding put_text
put_text-Written p [] o w = (record { source = p; offered = o; named = refl; text = refl }, tt)
put_text-Written p (e ∷ es) o w = elim (Bool-cases (eqb e.0 p.name)) [
  | inl same ↦
      rw same
        (record { source = p; offered = o; named = (eqb_iff e.0 p.name).0 same; text = refl }, w.1)
  | inr other ↦ rw other (w.0, put_text-Written p es o w.1)
]

pub remove_all-Written :
    (name : Bytes) (store : Store) → All Written store → All Written (remove_all name store)
unfolding remove_all
remove_all-Written name [] w = tt
remove_all-Written name (e ∷ es) w = elim (Bool-cases (eqb e.0 name)) [
  | inl same ↦ rw same (remove_all-Written name es w.1)
  | inr other ↦ rw other (w.0, remove_all-Written name es w.1)
]

-- The versions that are read from directories that the commands have written are in quotes.
abbrev pub InQuotes : PackageMetadata → Type 0
InQuotes m = (v : Bytes) × (m.version ≡ b'"' ∷ v)

pub read_meta-Written :
    (e : Bytes × Bytes) → (w : Written e) → ReadsAs e.0 w.source.version (read_meta e)
read_meta-Written e w =
    let r = read_meta-Offered w.source w.offered in
    record {
      meta = r.meta;
      reads = ap read_meta (λ i. (w.named i, w.text i)) ∙ r.reads;
      named = r.named ∙ sym w.named;
      quoted = r.quoted;
    }

pub installed_packages-Written :
    (store : Store)
    → All Written store
    → (ms : List PackageMetadata) × (installed_packages store ≡ some ms) × All InQuotes ms
unfolding installed_packages
installed_packages-Written [] w = ([], refl, tt)
installed_packages-Written (e ∷ es) w =
    let r = read_meta-Written e w.0 in
    let (ms, rest, q) = installed_packages-Written es w.1 in
    (r.meta ∷ ms, rw (r.reads, rest), ((_, r.quoted), q))

pub is_old-Offered :
    (p : PackageInfo) (name : Bytes) (ms : List PackageMetadata)
    → Offered p
    → All InQuotes ms
    → is_old p.version (find_map (named_version name) ms) ≡ true
is_old-Offered p name [] o q = refl
is_old-Offered p name (m ∷ ms) o q = elim (Bool-cases (eqb m.name name)) [
  | inl same ↦ rw (find_map, same, q.0.1) (greater-Offered p q.0.0 o)
  | inr other ↦ rw (find_map, other) (is_old-Offered p name ms o q.1)
]

pub of_version-Offered :
    (version : Bytes) (ps : List PackageInfo) {p : PackageInfo}
    → All Offered ps
    → find_map (of_version version) ps ≡ some p
    → Offered p
of_version-Offered version [] o e = cc e
of_version-Offered version (q ∷ ps) {p} o e = elim (Bool-cases (eqb q.version version)) [
  | inl same ↦ let found : q ≡ p = cc (rw (find_map, same) at e) in subst Offered found o.0
  | inr other ↦ of_version-Offered version ps o.1 (rw (find_map, other) at e)
]
