-- ===== src/Main/Publish.antt =====
-- `cmd_bundle`, `cmd_login` and `cmd_deprecate` of compiler/dmc.cpp.
use demonic_c.Base.{List, [], ◌∷◌, ◌++◌, Option, none, some, if◌then◌else◌, map}
use demonic_c.Text.{Bytes, codes, cat}
use demonic_c.Main.World.{
  Disk, Report, System, is_file, is_directory, exists, create_directories, put, join, pkg_dir,
}

-- The lines for the files below a directory that is there. `recursive_directory_iterator` throws on
-- another path, which nothing catches.
unfoldable pub manifest_lines : System → Disk → Bytes → Option Bytes
unfolding is_directory exists
manifest_lines sys disk root =
    if is_directory disk root
    then some
        (cat (map (λ p. if is_file disk p then p ++ codes "\n" else []) (sys.entries root disk)))
    else if exists disk root
    then none
    else some []

abbrev pub bundled : System → Disk → Option Bytes → Option Bytes → Option Report
bundled sys disk (some src) (some tests) = some (record {
  status = 0;
  out = codes "Bundle manifest created at dist/manifest.txt\n";
  err = [];
  disk = put sys (codes "dist/manifest.txt") (cat (codes "dmc.toml\n" ∷ src ∷ tests ∷ [])) disk;
})
bundled sys disk _ _ = none

-- The manifest is opened, which empties it, before the directories are read.
unfoldable pub cmd_bundle : System → Disk → Option Report
unfolding create_directories put manifest_lines
cmd_bundle sys disk =
    let opened = put sys (codes "dist/manifest.txt") [] (create_directories (codes "dist") disk) in
    bundled sys opened (manifest_lines sys opened (codes "src"))
      (manifest_lines sys opened (codes "test-files"))

unfoldable pub cmd_login : System → Disk → Report
unfolding create_directories put join pkg_dir
cmd_login sys disk = record {
  status = 0;
  out = codes "Registry authentication initialized locally\n";
  err = [];
  disk =
      put sys (join (pkg_dir sys) (codes "credentials")) (codes "authenticated=true\n")
        (create_directories (pkg_dir sys) disk);
}

unfoldable pub cmd_deprecate : System → List Bytes → Disk → Report
unfolding put join pkg_dir
cmd_deprecate sys [] disk = record {
  status = 1;
  out = [];
  err = codes "dmc deprecate: package version required\n";
  disk = disk;
}
cmd_deprecate sys (name ∷ rest) disk = record {
  status = 0;
  out = cat (codes "Marked " ∷ name ∷ codes " as deprecated locally\n" ∷ []);
  err = [];
  disk =
      put sys (join (pkg_dir sys) (name ++ codes ".deprecated")) (codes "deprecated=true\n") disk;
}
