-- ===== src/Tests/Build.antt =====
-- The theorems on the emission and the packages at a small program and a few commands.
use mathlib.Core.List.{Perm}
use demonic_c.Base.{
  ◌≡◌, ℕ, refl, not, true, false, Option, none, List, [], ◌∷◌, some, find_map, map,
}
use demonic_c.Text.{Bytes, codes, eqb}
use demonic_c.Parser.Types.{ctype}
use demonic_c.Parser.State.{Function}
use demonic_c.Emission.{definition, groups}
use demonic_c.Emission.Order.{in_order, parted, kept, is_main, groups-Perm}
use demonic_c.Packages.{Report, install_package, named_version, update_package}
use demonic_c.Packages.Installed.{PackageMetadata, search_registry, installed_packages}
use demonic_c.Packages.Command.{cmd_pkg, dependencies_in}
use demonic_c.Packages.Update.{
  Command, install, uninstall, after_commands, update_reinstalls, install-installed,
}

abbrev function_of : Bytes → List Bytes → Function
function_of name attributes = record {
  name = name;
  ret_type = codes "int";
  params = [];
  body = codes "return 0;" ∷ [];
  attributes = attributes;
}

abbrev program : List Function
program =
    function_of (codes "check") (codes "test" ∷ [])
    ∷ function_of (codes "main") []
    ∷ function_of (codes "help") []
    ∷ []

program-definitions :
    map definition (groups program).normals ≡ codes "int help(void) {\n    return 0;\n}" ∷ []
unfolding groups definition eqb ctype
program-definitions = refl

groups-Perm_example :
    (groups program ≡ parted program)
    × Perm (in_order (groups program)) (kept (λ fn. not (is_main fn)) program)
groups-Perm_example = groups-Perm program

abbrev session : List Command
session =
    install true (codes "http") []
    ∷ install true (codes "json") (codes "1.5.0")
    ∷ uninstall (codes "http")
    ∷ []

update_reinstalls_example :
    update_package true (codes "json") (after_commands session [])
    ≡ some (install_package true (codes "json") (codes "2.0.1") (after_commands session []))
unfolding search_registry eqb
update_reinstalls_example = update_reinstalls session true (codes "json") refl

install-installed_example :
    (ms : List PackageMetadata) × (installed_packages
        (install_package true (codes "json") [] (after_commands session [])).store
      ≡ some ms)
    × (find_map (named_version (codes "json")) ms ≡ some (codes "\"2.0.1\""))
unfolding search_registry eqb
install-installed_example = install-installed session (codes "json") refl

-- The status behind a package that the registry does not have.
abbrev status_from : (o : Option (ℕ × Report)) → ℕ
status_from none = 2
status_from (some r) = r.0

cmd_pkg-missing : status_from (cmd_pkg none true (codes "install" ∷ codes "nosuch" ∷ []) []) ≡ 0
unfolding cmd_pkg
cmd_pkg-missing = refl

dependencies-read :
    dependencies_in false
      (codes "[dependencies]" ∷ codes " json = \"2\"" ∷ codes "[package]" ∷ codes "name = x" ∷ [])
    ≡ codes "json" ∷ []
unfolding dependencies_in
dependencies-read = refl
