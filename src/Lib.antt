-- ===== src/Lib.antt =====
-- Verification of the Demonic-C compiler, `dmc`.
--
-- The program. `compiler/dmc.cpp` translates `.dmc` sources to C and runs a C compiler on the result.
-- `lex` cuts the text into tokens. `class Parser` reads imports and then declarations; its member
-- functions return C text for statements and expressions, collect diagnostics and type warnings, and
-- fold constants on the way. `emit` writes the runtime library and the declarations, and `peephole`
-- passes over the text. Around it stand a formatter, a linter, a documentation generator, a package
-- manager, project templates and a build command, each a command of `main`.
--
-- The model. Strings are lists of bytes over the native numbers (Text). An index into a vector that
-- only moves forward is the list from that index on.
--   Result, Lexer       `lex` and its loops; Lexer/Grammar is the lexical grammar apart from them.
--   Parser/State        the fields of `class Parser`, `peek`, `take`, `expect`, `fail`, the scopes and
--                       the warnings, as a state monad whose outcomes tell a return, an exception with
--                       the state it leaves, a read behind the tokens, a signed overflow in the
--                       compiler, and the end of the fuel apart.
--   Parser/Types        `ctype` and the const members that look at types and names.
--   Parser/Fold         `binary_precedence`, `is_int_literal`, `try_fold`; Typed has the types of literals.
--   Parser/Expression   `expression`, `parse_binary`, `postfix`, `unary_expr` and what they call.
--                       Grammar is a grammar of operators apart from them; Behind, Operands and Climbs
--                       show that `parse_binary` reads it.
--   Parser/Statement    `statement`, `block`, `switch_statement`, `asm_statement`, `type_name`; the
--                       C texts stand in Parser/Statement/Text.
--   Parser/Declaration  `structure`, `parse_enum`, `function`, and the loop of `collect_declarations`
--                       with its handler and `skip_to_decl`.
--   Parser/Source       `Parser(lex(text))` and that loop.
--   Parser/Runs         steps between states, and the primitives as such steps.
--   Parser/Import       `parse_imports` and `is_builtin_module`.
--   Parser/Load         `resolve_import` and `collect_declarations` with the files that a file imports:
--                       Loads, Depth and Ends on what is loaded, how deep, and to the end.
--   Parser/Merge        `merge_into` and `has_function`.
--   Files               the exit of a command, and the file system as a map from paths to bytes.
--   Format, Lint        `format_dmc_code` and `cmd_fmt`, `lint_dmc_code` and `cmd_lint`.
--   Html, Peephole      `html_escape`, `Parser::peephole`.
--   Emission            `emit` behind the runtime library, and `definition`.
--   Packages            the registry, the directories of installed packages and the commands on them;
--                       Semver is `parse_semver`.
--   Main                `main`: Args is its loop over the arguments, Compile what stands in its `try`
--                       block, from the source file through `lex`, `collect_declarations` and `emit` to
--                       the exit status. World has files, directories and the functions of the system;
--                       Doc, Project, Build and Publish are the other commands, `cmd_doc` to
--                       `cmd_deprecate`; Dispatch says which arguments compile a file.
--   Emitted             what the C text of `emit_runtime` does: Handles has the tables of handles with
--                       `_dmc_resize_vec` and its like, Vec, Queue, Map and Arena the containers,
--                       Memory the buffers, Streams the files, Sockets the sockets, Math the
--                       functions on `long long`, Isr the interrupt table, Text the text functions,
--                       Numerals the texts of numbers, Json `json_get`, Http the urls, Regex and Db
--                       regular expressions and databases, System what the system is asked for.
--   Runtime             the C files under `runtime`: Core is `core/dmc_core.c`, Mem `mem/dmc_mem.c`,
--                       Fs `fs/dmc_fs.c`, Net `net/dmc_net.c`, Smoke `smoke/dmc_runtime_smoke.c`, and
--                       Calls a program's calls of them on the one table of handles.
--   Tests               runs on small inputs, and the theorems at concrete inputs.
--
-- Parameters. Whether `calloc`, `malloc` and `realloc` succeed is an argument of each call that asks them,
-- and so is whether a file opens for writing. The functions of stdio and of the sockets are the records
-- `Stdio`, `Sockets` and, for the emitted C, `Network`; so are sqlite in `Sqlite`, patterns in `Patterns`
-- and the rest of the system in `Machine`. What `realloc` leaves in new cells of a queue is
-- an argument. The text of `emit_runtime` is an argument of `emit`. What std::filesystem does to put
-- paths together is the record `Paths`; `Host` has it with `weakly_canonical` and the files that can
-- be written, and `System` has `std::system`, `std::getenv` and the order in which directories are walked.
-- The fuel of `collect_declarations` in Parser/Load, the depth of `compile`, bounds how deep imports go:
-- a unit for each file and one more is enough.
--
-- Bounds. `long long` is written out: a literal of 2^63 or more is the exception of `std::stoll`, and
-- a sum or product from there on is the outcome `overflow`. `lex` has a unit of fuel for each byte,
-- `ctype` one for each byte of the type, `peephole` one for each byte. The parsing functions have a
-- unit for each call and each round of a loop, and no function makes more than eight of them for each
-- token it passes; the theorems name the fuel. In the emitted C a `long long` is the number of its 64
-- bits and an `int` of its 32; a signed overflow, a write behind an array and the use of a null pointer
-- are the effect `undefined`.
--
-- Not modelled: of the C text of `emit_runtime` the functions on `double` and `text_cmp`, which return
-- what the C library does, and the branches without sqlite and for Windows, which return a constant; the
-- branch of `pkg_dir` for Windows; the exceptions of `create_directories`. The headers under `runtime`
-- hold declarations, which the C files repeat. In the commands a path is its text, so that two spellings
-- of a path are two paths.
pub mod Base
pub mod Text
pub mod Result
pub mod Files
pub mod Lexer
pub mod Parser
pub mod Format
pub mod Lint
pub mod Main
pub mod Runtime
pub mod Emitted
pub mod Packages
pub mod Emission
pub mod Html
pub mod Peephole
pub mod Tests
