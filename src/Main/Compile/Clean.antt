-- ===== src/Main/Compile/Clean.antt =====
-- What a compilation ends in, by its exit status and its files.
use demonic_c.Base.{ℕ, ◌≡◌, true, false, List, [], some}
use demonic_c.Text.{Bytes, is}
use demonic_c.Result.{Result}
use demonic_c.Emission.{emit}
use demonic_c.Files.{Files, Exit}
use demonic_c.Lexer.{Token, lex}
use demonic_c.Parser.State.{State, Outcome}
use demonic_c.Parser.Source.{initial}
use demonic_c.Parser.Load.{collect_declarations}
use demonic_c.Main.Args.{Options}
use demonic_c.Main.Compile.{Host, place_of}

-- Where the C text goes: to the standard output, to the file of `-o`, or, where that can not be written,
-- nowhere.
pub data Delivered (host : Host) (o : Options) (files : Files) (c : Bytes) (x : Exit) : Type 0 where
  printed : is o.output_path "-" ≡ true → x.out ≡ c → x.files ≡ files → Delivered host o files c x
  written :
      is o.output_path "-" ≡ false
      → host.writable o.output_path ≡ true
      → x.out ≡ []
      → x.files o.output_path ≡ some c
      → Delivered host o files c x
  lost :
      is o.output_path "-" ≡ false
      → host.writable o.output_path ≡ false
      → x.out ≡ []
      → x.files ≡ files
      → Delivered host o files c x

-- The compilation of a file without an error: it is there, its tokens and its imports are read, no
-- diagnostic is recorded, and the C text of the declarations is delivered or lost.
pub record Clean (host : Host) (depth : ℕ) (o : Options) (files : Files) (x : Exit) : Type 0 where
  pub text : Bytes
  pub tokens : List Token
  pub loaded : List Bytes
  pub state : State
  pub found : files o.source_path ≡ some text
  pub lexed : lex text ≡ Result.ok tokens
  pub collected :
      collect_declarations host.paths files depth (place_of host o) (initial tokens)
      ≡ Outcome.ok loaded state
  pub no_errors : state.diagnostics ≡ []
  pub delivered : Delivered host o files (emit host.runtime state) x
