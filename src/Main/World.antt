-- ===== src/Main/World.antt =====
-- The surroundings of the commands of compiler/dmc.cpp: files, directories and the functions of the
-- system, and the parts of paths.
use demonic_c.Base.{
  ℕ, suc, Bool, true, false, ◌||◌, List, [], ◌∷◌, ◌++◌, ◌==◌, Option, none, some, if◌then◌else◌,
  any, map, drop,
}
use demonic_c.Text.{Bytes, codes, eqb, is, rfind, substr}
use demonic_c.Files.{Files, write_file}
use demonic_c.Format.{lines, back_is}
use demonic_c.Packages.Installed.{Store}

-- A directory is there where its path is in the list. A path is its text. `packages` is what is under
-- `packages_path()`, as in `Packages`.
pub record Disk : Type 0 where
  pub files : Files
  pub dirs : List Bytes
  pub packages : Store

-- What a command leaves behind.
pub record Report : Type 0 where
  pub status : ℕ
  pub out : Bytes
  pub err : Bytes
  pub disk : Disk

-- The paths that `recursive_directory_iterator` goes through; which files an `std::ofstream` opens;
-- `std::system`, with whether it returns 0; and `std::getenv`.
pub record System : Type 0 where
  pub entries : Bytes → Disk → List Bytes
  pub writable : Bytes → Bool
  pub run : Bytes → Disk → Bool × Disk
  pub env : Bytes → Option Bytes

abbrev pub is_file : Disk → Bytes → Bool
is_file disk path = elim (disk.files path) [ none ↦ false | some text ↦ true ]

unfoldable pub is_directory : Disk → Bytes → Bool
is_directory disk path = any (eqb path) disk.dirs

unfoldable pub exists : Disk → Bytes → Bool
unfolding is_directory
exists disk path = is_file disk path || is_directory disk path

-- The texts in front of each `/`, and the whole.
unfoldable pub prefixes : Bytes → List Bytes
prefixes [] = [] ∷ []
prefixes (c ∷ cs) =
    let rest = map (λ p. c ∷ p) (prefixes cs) in if c == b'/' then [] ∷ rest else rest

unfoldable pub create_directories : Bytes → Disk → Disk
unfolding prefixes
create_directories path disk = record disk { dirs = prefixes path ++ disk.dirs }

-- An `std::ofstream` that opens is written, and no other.
unfoldable pub put : System → Bytes → Bytes → Disk → Disk
unfolding write_file
put sys path text disk =
    if sys.writable path then record disk { files = write_file path text disk.files } else disk

unfoldable pub remove_file : Bytes → Disk → Disk
remove_file path disk = record disk { files = λ q. if eqb path q then none else disk.files q }

-- `read_lines`.
abbrev pub read_lines : Disk → Bytes → List Bytes
read_lines disk path = elim (disk.files path) [ none ↦ [] | some text ↦ lines text ]

-- `dir / name`.
unfoldable pub join : Bytes → Bytes → Bytes
join [] name = name
join (c ∷ dir) name = if back_is b'/' (c ∷ dir) then (c ∷ dir) ++ name else (c ∷ dir) ++ b'/' ∷ name

-- `path.filename()`.
unfoldable pub file_name : Bytes → Bytes
unfolding rfind
file_name path = elim (rfind (codes "/") path) [ none ↦ path | some i ↦ drop (suc i) path ]

-- Where the extension of a file name begins, if it has one.
unfoldable pub extension_at : Bytes → Option ℕ
unfolding rfind eqb
extension_at name =
    if is name ".."
    then none
    else elim (rfind (codes ".") name) [ none ↦ none | some i ↦ if i == 0 then none else some i ]

-- `path.extension()` and `path.stem()`.
unfoldable pub extension : Bytes → Bytes
unfolding file_name extension_at
extension path = elim (extension_at (file_name path)) [
  | none ↦ []
  | some i ↦ drop i (file_name path)
]

unfoldable pub stem : Bytes → Bytes
unfolding file_name extension_at
stem path = elim (extension_at (file_name path)) [
  | none ↦ file_name path
  | some i ↦ substr (file_name path) 0 i
]

-- `pkg_dir`, where the system is not Windows.
unfoldable pub pkg_dir : System → Bytes
pkg_dir sys = elim (sys.env (codes "HOME")) [
  | none ↦ codes ".dmc/packages"
  | some home ↦ home ++ codes "/.dmc/packages"
]
