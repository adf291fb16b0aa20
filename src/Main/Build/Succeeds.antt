-- ===== src/Main/Build/Succeeds.antt =====
-- What a build that succeeds has done.
use demonic_c.Base.{◌≡◌, refl, sym, ap, subst, Bool, true, false, List, none, Bool-cases, inl, inr}
use demonic_c.Text.{Bytes, codes, eqb_iff}
use demonic_c.Main.World.{Disk, System, exists, create_directories, remove_file}
use demonic_c.Main.Build.{
  build_args, find_compiler_binary, compile_command, link_command, linked, compiled, generated_c,
  build_source, cmd_build,
}

-- The source was there, both commands returned 0, one behind the other, and what they left is there
-- without the generated file.
pub record Built (sys : System) (argv0 : Bytes) (release statik : Bool) (source : Bytes)
    (disk left : Disk) : Type 0 where
  pub compiled_to : Disk
  pub linked_to : Disk
  pub found : exists disk source ≡ true
  pub compiles :
      sys.run
        (compile_command
          (find_compiler_binary argv0 (create_directories (codes "bin") disk))
          source)
        (create_directories (codes "bin") disk)
      ≡ (true, compiled_to)
  pub links : sys.run (link_command sys release statik source) compiled_to ≡ (true, linked_to)
  pub cleaned : left ≡ remove_file generated_c linked_to
  pub gone : left.files generated_c ≡ none

remove_file-same : (path : Bytes) (disk : Disk) → (remove_file path disk).files path ≡ none
unfolding remove_file
remove_file-same path disk = rw ((eqb_iff path path).1 refl)

module _ (sys : System) (argv0 : Bytes) (release statik : Bool) (source : Bytes) (disk : Disk) where
  linked-Built :
      (d₁ : Disk) (r : Bool × Disk)
      → exists disk source ≡ true
      → sys.run
          (compile_command
            (find_compiler_binary argv0 (create_directories (codes "bin") disk))
            source)
          (create_directories (codes "bin") disk)
        ≡ (true, d₁)
      → sys.run (link_command sys release statik source) d₁ ≡ r
      → (linked source r).status ≡ 0
      → Built sys argv0 release statik source disk (linked source r).disk
  linked-Built d₁ (true, d₂) found compiles links zero_status = record {
    compiled_to = d₁;
    linked_to = d₂;
    found = found;
    compiles = compiles;
    links = links;
    cleaned = refl;
    gone = remove_file-same generated_c d₂;
  }
  linked-Built d₁ (false, d₂) found compiles links zero_status = absurd cc

  compiled-Built :
      (r : Bool × Disk)
      → exists disk source ≡ true
      → sys.run
          (compile_command
            (find_compiler_binary argv0 (create_directories (codes "bin") disk))
            source)
          (create_directories (codes "bin") disk)
        ≡ r
      → (compiled sys release statik source r).status ≡ 0
      → Built sys argv0 release statik source disk (compiled sys release statik source r).disk
  compiled-Built (true, d₁) found compiles zero_status =
      linked-Built d₁ _ found compiles refl zero_status
  compiled-Built (false, d₁) found compiles zero_status = absurd cc

  build_source-Built :
      (build_source sys argv0 (release, statik, source) disk).status ≡ 0
      → Built sys argv0 release statik source disk
          (build_source sys argv0 (release, statik, source) disk).disk
  unfolding build_source
  build_source-Built zero_status = elim (Bool-cases (exists disk source)) [
    | inl found ↦ rw found (compiled-Built _ found refl (rw found at zero_status))
    | inr absent ↦ absurd (cc (rw absent at zero_status))
  ]

-- `dmc build` returns 0 only where the source is there and the compiler and the C compiler both returned
-- 0 on it, with the flags of its arguments. It leaves then what they left, without the generated C file.
pub cmd_build-Built :
    (sys : System) (argv0 : Bytes) (args : List Bytes) (disk : Disk) {release statik : Bool}
    {source : Bytes}
    → build_args false false (codes "src/main.dmc") args ≡ (release, statik, source)
    → (cmd_build sys argv0 args disk).status ≡ 0
    → Built sys argv0 release statik source disk (cmd_build sys argv0 args disk).disk
unfolding cmd_build
cmd_build-Built sys argv0 args disk {release} {statik} {source} e zero_status =
    let same : cmd_build sys argv0 args disk
        ≡ build_source sys argv0 (release, statik, source) disk =
      ap (λ a. build_source sys argv0 a disk) e in
    subst (λ r. r.status ≡ 0 → Built sys argv0 release statik source disk r.disk) (sym same)
      (build_source-Built sys argv0 release statik source disk) zero_status
