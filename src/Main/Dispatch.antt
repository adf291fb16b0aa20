-- ===== src/Main/Dispatch.antt =====
-- Which arguments of `main` of compiler/dmc.cpp compile a file.
use demonic_c.Base.{
  ◌≡◌, refl, sym, ap, ◌∙◌, subst, Bool, true, false, List, [], ◌∷◌, String, any, Bool-cases, inl,
  inr, All,
}
use demonic_c.Text.{Bytes, codes, eqb, eqb_iff, is}
use demonic_c.Main.{Setting, main, compile_args, of_parsed, of_ending}
use demonic_c.Main.Args.{no_options}
use demonic_c.Main.Args.Spelled.{
  Item, output, dir, source, spelled, sources, IsPath, by_sources, options_of, main_args-spelled,
}
use demonic_c.Main.Compile.{compile}
use demonic_c.Main.World.{Disk}

abbrev pub commands : List Bytes
commands =
    codes "pkg"
    ∷ codes "new"
    ∷ codes "init"
    ∷ codes "fmt"
    ∷ codes "lint"
    ∷ codes "test"
    ∷ codes "doc"
    ∷ codes "build"
    ∷ codes "bundle"
    ∷ codes "login"
    ∷ codes "deprecate"
    ∷ codes "publish"
    ∷ []

unfoldable pub is_command : Bytes → Bool
unfolding eqb
is_command a = any (eqb a) commands

other_command :
    (a : Bytes) (name : String)
    → is_command a ≡ false
    → is_command (codes name) ≡ true
    → is a name ≡ false
other_command a name h e = elim (Bool-cases (is a name)) [
  | inl same ↦ absurd (cc (h, e, ap is_command ((eqb_iff a (codes name)).0 same)))
  | inr other ↦ other
]

main-other :
    (st : Setting) (a : Bytes) (args : List Bytes) (disk : Disk)
    → is_command a ≡ false
    → main st (a ∷ args) disk ≡ compile_args st (a ∷ args) disk
unfolding main is_command
main-other st a args disk h = rw (
  other_command a "pkg" h refl,
  other_command a "new" h refl,
  other_command a "init" h refl,
  other_command a "fmt" h refl,
  other_command a "lint" h refl,
  other_command a "test" h refl,
  other_command a "doc" h refl,
  other_command a "build" h refl,
  other_command a "bundle" h refl,
  other_command a "login" h refl,
  other_command a "deprecate" h refl,
  other_command a "publish" h refl,
)

main-spelled :
    (st : Setting) (items : List Item) (disk : Disk) {s : Bytes}
    → sources items ≡ s ∷ []
    → is_command s ≡ false
    → main st (spelled items) disk ≡ compile_args st (spelled items) disk
unfolding spelled sources is_command
main-spelled st [] disk e h = absurd cc
main-spelled st (output x ∷ items) disk e h =
    main-other st (codes "-o") (x ∷ spelled items) disk refl
main-spelled st (dir d ∷ items) disk e h = main-other st (codes "-I") (d ∷ spelled items) disk refl
main-spelled st (source a ∷ items) disk {s} e h =
    let same : a ≡ s = cc in main-other st a (spelled items) disk (ap is_command same ∙ h)

-- Where the arguments are the options `-o` and `-I` with any arguments, and one path that is not empty, is
-- no command and does not begin with `-`, in any order, `main` compiles the file at the path with the
-- last output and all the directories, and ends as the compilation does.
pub main-compiles :
    (st : Setting) (items : List Item) (disk : Disk) {s : Bytes}
    → sources items ≡ s ∷ []
    → IsPath s
    → is_command s ≡ false
    → main st (spelled items) disk
      ≡ of_ending disk (
          compile st.host st.depth
            (record (options_of no_options items) { source_path = s })
            disk.files)
unfolding compile_args by_sources
main-compiles st items disk {s} e path h =
    let all : All IsPath (sources items) = subst (All IsPath) (sym e) (path, tt) in
    main-spelled st items disk e h
    ∙ ap (of_parsed st disk)
        (main_args-spelled items all ∙ ap (by_sources (options_of no_options items)) e)
    ∙ rw path.named refl
