-- ===== src/Main.antt =====
-- `main` of compiler/dmc.cpp: the commands, and the compilation behind them.
pub mod Args
pub mod Compile
pub mod World
pub mod Doc
pub mod Project
pub mod Build
pub mod Publish
pub mod Dispatch
use demonic_c.Base.{ℕ, Bool, List, [], ◌∷◌, Option, none, some, if◌then◌else◌}
use demonic_c.Text.{Bytes, codes, eqb, is}
use demonic_c.Files.{Exit}
use demonic_c.Format.Command.{cmd_fmt}
use demonic_c.Lint.{cmd_lint}
use demonic_c.Packages.Installed.{Store}
use demonic_c.Packages.Command.{cmd_pkg, publish}
use demonic_c.Main.Args.{Options, no_options, Parsed, usage, main_args}
use demonic_c.Main.Compile.{Host, Ending, compile}
use demonic_c.Main.World.{Disk, Report, System}
use demonic_c.Main.Doc.{cmd_doc}
use demonic_c.Main.Project.{cmd_new, cmd_init}
use demonic_c.Main.Build.{cmd_test_impl, cmd_build}
use demonic_c.Main.Publish.{cmd_bundle, cmd_login, cmd_deprecate}

-- `uncaught` is an exception outside the `try` block.
pub data Done : Type 0 where
  returned : Report → Done
  uncaught : Done
  undefined : Done
  out_of_fuel : Done

abbrev pub of_exit : Disk → Exit → Report
of_exit disk x = record {
  status = x.status;
  out = x.out;
  err = x.err;
  disk = record disk { files = x.files };
}

abbrev pub of_ending : Disk → Ending → Done
of_ending disk (Ending.exits x) = returned (of_exit disk x)
of_ending disk Ending.overflow = undefined
of_ending disk Ending.out_of_bounds = undefined
of_ending disk Ending.out_of_fuel = out_of_fuel

abbrev pub of_pkg : Disk → Option (ℕ × demonic_c.Packages.Report) → Done
of_pkg disk none = uncaught
of_pkg disk (some (status, r)) = returned (record {
  status = status;
  out = r.out;
  err = r.err;
  disk = record disk { packages = r.store };
})

abbrev pub caught_by_none : Option Report → Done
caught_by_none none = uncaught
caught_by_none (some r) = returned r

-- The surroundings with what is fixed for a run: the name of the program, the packages' directory that
-- can be written or not, and how deep imports go.
pub record Setting : Type 0 where
  pub host : Host
  pub sys : System
  pub argv0 : Bytes
  pub packages_writable : Bool
  pub depth : ℕ

-- `main` behind the commands.
abbrev pub of_parsed : Setting → Disk → Parsed → Done
of_parsed st disk (Parsed.exits status out err) =
    returned (record { status = status; out = out; err = err; disk = disk })
of_parsed st disk (Parsed.goes_on o) =
    if is o.source_path ""
    then returned (record { status = 1; out = usage; err = []; disk = disk })
    else of_ending disk (compile st.host st.depth o disk.files)

unfoldable pub compile_args : Setting → List Bytes → Disk → Done
unfolding main_args compile
compile_args st args disk = of_parsed st disk (main_args no_options args)

unfoldable pub main : Setting → List Bytes → Disk → Done
unfolding compile_args cmd_pkg cmd_new cmd_init cmd_fmt cmd_lint cmd_test_impl cmd_doc cmd_build
    cmd_bundle cmd_login cmd_deprecate eqb
main st [] disk = compile_args st [] disk
main st (command ∷ args) disk =
    if is command "pkg"
    then of_pkg disk
        (cmd_pkg (disk.files (codes "dmc.toml")) st.packages_writable args disk.packages)
    else if is command "new"
    then returned (cmd_new st.sys args disk)
    else if is command "init"
    then returned (cmd_init st.sys disk)
    else if is command "fmt"
    then returned (of_exit disk (cmd_fmt st.sys.writable args disk.files))
    else if is command "lint"
    then returned (of_exit disk (cmd_lint args disk.files))
    else if is command "test"
    then returned (cmd_test_impl st.sys args disk)
    else if is command "doc"
    then returned (cmd_doc st.sys args disk)
    else if is command "build"
    then returned (cmd_build st.sys st.argv0 args disk)
    else if is command "bundle"
    then caught_by_none (cmd_bundle st.sys disk)
    else if is command "login"
    then returned (cmd_login st.sys disk)
    else if is command "deprecate"
    then returned (cmd_deprecate st.sys args disk)
    else if is command "publish"
    then of_pkg disk (some (0, publish disk.packages))
    else compile_args st (command ∷ args) disk
