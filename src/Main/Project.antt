-- ===== src/Main/Project.antt =====
-- `new_project`, `init_project`, `cmd_new` and `cmd_init` of compiler/dmc.cpp.
use demonic_c.Base.{List, [], ◌∷◌, if◌then◌else◌}
use demonic_c.Text.{Bytes, codes, cat}
use demonic_c.Main.World.{Disk, Report, System, exists, create_directories, put, join}

abbrev pub new_toml : Bytes → Bytes
new_toml name = cat (
    codes "[package]\n"
    ∷ codes "name = \""
    ∷ name
    ∷ codes "\"\n"
    ∷ codes "version = \"0.1.0\"\n"
    ∷ codes "description = \"A Demonic C project\"\n"
    ∷ codes "\n"
    ∷ codes "[build]\n"
    ∷ codes "output = \"bin/"
    ∷ name
    ∷ codes "\"\n"
    ∷ codes "type = \"executable\"\n"
    ∷ codes "\n"
    ∷ codes "[dependencies]\n"
    ∷ codes "# json = \"^2.0\"\n"
    ∷ codes "# http = \"^1.0\"\n"
    ∷ [])

abbrev pub new_main : Bytes → Bytes
new_main name = cat (
    codes "fn main() -> int {\n"
    ∷ codes "    println(\"Hello from "
    ∷ name
    ∷ codes "!\");\n"
    ∷ codes "    return 0;\n"
    ∷ codes "}\n"
    ∷ [])

abbrev pub new_test : Bytes
new_test = cat (codes "fn test_basic() -> int {\n" ∷ codes "    return 0;\n" ∷ codes "}\n" ∷ [])

abbrev pub new_gitignore : Bytes
new_gitignore =
    cat (codes "bin/\n" ∷ codes "*.o\n" ∷ codes "*.exe\n" ∷ codes ".dmc/\n" ∷ codes "*.c\n" ∷ [])

abbrev pub new_message : Bytes → Bytes
new_message name = cat (
    codes "Created new Demonic C project: "
    ∷ name
    ∷ codes "\n"
    ∷ codes "\nTo get started:\n"
    ∷ codes "  cd "
    ∷ name
    ∷ codes "\n"
    ∷ codes "  dmc run src/main.dmc\n"
    ∷ codes "\nProject structure:\n"
    ∷ codes "  "
    ∷ name
    ∷ codes "/\n"
    ∷ codes "  ├── dmc.toml\n"
    ∷ codes "  ├── src/\n"
    ∷ codes "  │   └── main.dmc\n"
    ∷ codes "  ├── lib/\n"
    ∷ codes "  ├── test-files/\n"
    ∷ codes "  │   └── test_main.dmc\n"
    ∷ codes "  └── .gitignore\n"
    ∷ [])

-- The directories and the files of a new project.
unfoldable pub new_files : System → Bytes → Disk → Disk
unfolding create_directories put join
new_files sys name disk =
    let src = create_directories (join name (codes "src")) disk in
    let lib = create_directories (join name (codes "lib")) src in
    let tests = create_directories (join name (codes "tests")) lib in
    let toml = put sys (join name (codes "dmc.toml")) (new_toml name) tests in
    let program =
      put sys (join (join name (codes "src")) (codes "main.dmc")) (new_main name) toml in
    let test =
      put sys (join (join name (codes "tests")) (codes "test_main.dmc")) new_test program in
    put sys (join name (codes ".gitignore")) new_gitignore test

unfoldable pub new_project : System → Bytes → Disk → Report
unfolding exists new_files
new_project sys name disk =
    if exists disk name
    then record {
      status = 0;
      out = [];
      err = cat (codes "dmc new: directory '" ∷ name ∷ codes "' already exists\n" ∷ []);
      disk = disk;
    }
    else record { status = 0; out = new_message name; err = []; disk = new_files sys name disk }

-- `new_project` returns nothing: the status is 0 behind it.
unfoldable pub cmd_new : System → List Bytes → Disk → Report
unfolding new_project
cmd_new sys [] disk = record {
  status = 1;
  out = [];
  err = codes "dmc new: usage: dmc new <project-name>\n";
  disk = disk;
}
cmd_new sys (name ∷ rest) disk = new_project sys name disk

abbrev pub init_toml : Bytes
init_toml = cat (
    codes "[package]\n"
    ∷ codes "name = \"my-project\"\n"
    ∷ codes "version = \"0.1.0\"\n"
    ∷ codes "description = \"A Demonic C project\"\n"
    ∷ codes "\n"
    ∷ codes "[build]\n"
    ∷ codes "output = \"bin/my-project\"\n"
    ∷ codes "type = \"executable\"\n"
    ∷ codes "\n"
    ∷ codes "[dependencies]\n"
    ∷ codes "# json = \"^2.0\"\n"
    ∷ [])

-- `init_project`, with the status that `cmd_init` returns.
unfoldable pub cmd_init : System → Disk → Report
unfolding exists put
cmd_init sys disk =
    if exists disk (codes "dmc.toml")
    then record {
      status = 0;
      out = [];
      err = codes "dmc init: dmc.toml already exists\n";
      disk = disk;
    }
    else record {
      status = 0;
      out = codes "Initialized Demonic C project in current directory\n";
      err = [];
      disk = put sys (codes "dmc.toml") init_toml disk;
    }
