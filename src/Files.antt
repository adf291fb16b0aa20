-- ===== src/Files.antt =====
-- What a command of compiler/dmc.cpp leaves behind: its exit status, what it prints and the files. The
-- file system is a map from paths to the bytes of files; a path that exists is a file that opens.
use demonic_c.Base.{ℕ, ◌≡◌, ◌≢◌, refl, Option, some, if◌then◌else◌, Bool-cases, inl, inr}
use demonic_c.Text.{Bytes, eqb, eqb_iff}

abbrev pub Files : Type 0
Files = Bytes → Option Bytes

pub record Exit : Type 0 where
  pub status : ℕ
  pub out : Bytes
  pub err : Bytes
  pub files : Files

-- `std::ofstream output(path); output << text;`
unfoldable pub write_file : Bytes → Bytes → Files → Files
write_file path text files q = if eqb path q then some text else files q

pub write_file-same :
    (path text : Bytes) (files : Files) → write_file path text files path ≡ some text
unfolding write_file
write_file-same path text files = rw ((eqb_iff path path).1 refl)

pub write_file-other :
    (path text : Bytes) (files : Files) (q : Bytes)
    → path ≢ q
    → write_file path text files q ≡ files q
unfolding write_file
write_file-other path text files q h = elim (Bool-cases (eqb path q)) [
  | inl e ↦ absurd (h ((eqb_iff path q).0 e))
  | inr e ↦ rw e
]
