-- ===== src/Lib.antt =====
-- rpmz is an RPM package manager in Zig. Its repository carries audits in Python, under scripts/, that
-- decide whether a tree may be merged or released: they read the Zig sources, the build manifests and
-- the release assets as texts, and refuse what breaks a rule. This library models those audits, since
-- what they accept is what the rest of the program is trusted for. The parts share the way of reading a
-- text (Base) and of raising an exception (Base/Outcomes); Scripts joins its audits with those of Workflow,
-- and the two halves of Release agree on the names of assets, on versions and on checksum files.
--
-- Base         the notation, lists under native numbers, texts as lists of code points with the
--              methods of `str` that the scripts use, sets of texts, exceptions as values, and the
--              patterns of `re` as functions that walk a text once.
-- Errdefer     scripts/dead-errdefer-audit.py. Strip is `strip_noise`, Signature is `return_type_of`
--              and the patterns, Scan is `scan` with its stack of braces. Strip/Tokens says what a
--              line is made of, apart from the code; Scan/Balance and Scan/Findings say what `scan`
--              refuses and reports.
-- Confinement  scripts/replay-confinement-audit.py, over client/replay.zig. Lexer is `lex_zig`
--              (offsets are numbers, a token is found in the code by its offset); Lexer/Quoted says what a
--              string literal is, apart from the code. Imports is
--              `import_calls` and `expand_std_imports`, Policy holds the lists of names, Patterns and
--              Audit are the checks of `audit_source`.
-- Closure      `extract_dependency_closure` of scripts/product-no-libsolv-fetch-audit.py and
--              `provide_system_packages` of scripts/public-zig-api-audit.py. Worklist is the loop that
--              both have, over what a package's visit does; Pins reads the hashes of a manifest. The
--              directories of packages are functions of the hash (Cache, Checkout).
-- Release      scripts/release.py, scripts/release_common.py and scripts/release-smoke.py. Version is
--              `parse_semver`, whose pattern is read as its groups, and `emit_version`; Smoke is
--              `validate_arguments`, Trial is `run_smoke`, with the list of the commands it
--              starts, on a machine whose commands and files are a parameter (Machine); Trial/Order is about
--              that list; Sidecar is `write_checksum` (without the
--              exception on a name that is not ASCII) and `verify_checksum`; Paths is `PurePosixPath` with `safe_relative`, Paths/Below and Paths/Resolves follow a path name by name; Assets is `names` and `expected_assets`; Archive is
--              `verify_archive` over the members that `tarfile` gives; Sbom is the check of the SPDX
--              document in `verify_assets`, and the files of the document in `write_sbom`; Verify is
--              `verify_assets` as a whole. Digests are given with the members. A format string of
--              release-assets.json is a function.
-- Workflow     scripts/release-audit.py, the part that reads the two workflow files. Values are what the reader
--              gives, with the tuple that `ast.literal_eval` makes of a scalar such as `'a', 'b'`; Lines reads lines, comments and block scalars, Scalars a scalar and a key, Parser is
--              `WorkflowParser`. Parser/Pieces, Members, Rounds and Ends show that it ends. Steps looks up
--              jobs and steps, Release is `audit_release_workflow` in the order of its sections (Jobs, Table,
--              Commands, Scan), Ci is `audit_ci_workflow`. A position is the list of the lines from there on.
--              `parse_block`, `parse_map` and `parse_list` stand on fuel, twice the lines and two more;
--              a scalar has as much fuel as it has characters and one more. `ast.literal_eval` of a quoted
--              text is a parameter; what the theorems ask of it is that it gives a value whose dicts have
--              distinct keys, or an exception. What Python raises on a value of the wrong type is a `Crash`.
--              Line numbers are left out of the messages of the reader.
-- Scripts      scripts/release-audit.py, the part that walks the syntax trees of the release scripts. Syntax is a tree
--              of labels as `ast.parse` gives it (a parameter), less the nodes that no test looks at; Walk is
--              `ast.walk`, level by level, with the ancestors of each node in place of the dict of parents: as
--              much fuel as the tree has levels. Walk/Reaches says what a place of a tree is, by the indices of
--              children. Which classes of nodes count as conditional is the list of the code; a node with no
--              label of its own has the name of its class. Shape is `ast_shape`; Imports, Process, Packager and
--              SmokeSource are the audits, Audit is `audit` as a whole, which joins them with Workflow. The
--              label of the script is left out of the messages, and a number of the manifest, which none of
--              the tests asks for, has no value.
--
-- How the model reads the code:
-- - `\w` and `\b` are read over ASCII word characters, and `lower` on ASCII letters; `\s` and
--   `str.strip` have all the space characters of Python. A pattern is a function of the text and of
--   whether a word character stands before it.
-- - An exception is `raise`, with a constructor for each message. A text that a message quotes is an
--   argument of the constructor where the text depends on the input; else it is left out.
-- - A set is a list and is compared by `set_eq`; a set that the scripts turn into a list keeps the order
--   in which its elements are found, where Python gives any order.
-- - Fuel: `lex_zig` runs on the length of the source, and each of its steps consumes a character. The
--   two closures take fuel as an argument, in which one unit is one package taken from the list: the
--   first hashes and the pins of the packages that there are, and one, are enough. The reader of workflows
--   and the walk of a tree have the fuel named above. All other loops are structural.
-- - The windows of `read_quoted` and of block comments at the end of a text stop there, as in the code.
--
-- Not modelled: the Zig program itself (client, repomd, solver, rpmzig, tools); the other scripts and
-- the pytest harness; argument parsing, printing, subprocesses and the reading of files, which stand
-- around the functions modelled here: what they read is an argument.
pub mod Base
pub mod Errdefer
pub mod Confinement
pub mod Closure
pub mod Release
pub mod Workflow
pub mod Scripts
