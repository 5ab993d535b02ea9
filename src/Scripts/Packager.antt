-- ===== src/Scripts/Packager.antt =====
-- `audit_packager` of scripts/release-audit.py: the manifest of the release and the script that packs it.
use rpmz.Base.{
  ℕ, zero, suc, ◌+◌, ◌-◌, ◌*◌, ◌/◌, ◌%◌, ◌≤◌, ◌<◌, String, ◌≡◌, refl, sym, ap, ◌∙◌, subst, ◌≢◌, ◌↔◌,
  ◌⊎◌, inl, inr, Bool, true, false, not, ◌&&◌, ◌||◌, Option, none, some, List, [], ◌∷◌, ◌++◌, map,
  append_assoc, append-nil, arith, ltb, leb, ◌==◌, if◌then◌else◌, ==_iff, ==_refl, Bool-cases,
  Option-cases, List-cases, and-true, or-true, not-true, length, get_elem?, take, drop, replicate,
  any, every, All, In, here, there, In-cons, not-In-nil, In-append_left, In-append_right,
  In-append_cases, length-append, length-drop, length-take_of_le, length-replicate,
  take-append-drop, if-cases, All-append, All-imp, every-All, length-map, Text, codes, texts,
  text_eq, text_eq_iff, text_eq_refl, starts_with, starts_with-append, starts_with-eq, ends_with,
  contains, is_space, lstrip, rstrip, strip, split, join, lower, mem, subset, set_eq, mem_self,
  mem-cons, mem-append, mem-subset, subset_intro, set_eq_iff, Outcome, ok, raise, ◌>>=◌, ◌>>◌,
  guard, >>=-eq-ok, guard-eq-ok, for_each, then-eq-ok, >>-eq-ok, for_each-In, for_each-All,
  for_each-guard, for_each_intro, is_digit, is_word, starts_name, is_hex, drop_while, cut,
  take_while, take_while-append-drop_while, after, word_ends, search, find_all, is_some, match_word,
  expand,
}
pub mod Starts
use rpmz.Workflow.Values.{Value, Fields, lookup, value_eq}
use rpmz.Workflow.Steps.{str, list, get_or}
use rpmz.Scripts.Syntax.{
  Literal, Label, module_body, function, Tree, node, Forest, trees, called_name,
}
use rpmz.Scripts.Walk.{Located, walk}
use rpmz.Scripts.Shape.{
  Shape, Shapes, a_constant, a_name, sequence, a_binop, fstring, a_formatted, no_shape, shape,
}
use rpmz.Scripts.Imports.{
  ScriptProblem, inconsistent_manifest, missing_calls, each_located, audit_script_signing,
  audit_imports,
}
use rpmz.Scripts.Process.{Allowed, audit_process_execution}

-- `constant`, `name` and `sequence` for texts
abbrev pub constant_of : String → Shape
constant_of s = a_constant (Literal.text (codes s))

abbrev pub name_shape : String → Shape
name_shape s = a_name (codes s)

abbrev pub shapes_of : List Shape → Shapes
shapes_of [] = no_shape
shapes_of (s ∷ ss) = shape s (shapes_of ss)

abbrev pub sequence_of : List Shape → Shape
sequence_of ss = sequence (shapes_of ss)

abbrev check_key : Fields → String → Value → List ScriptProblem
check_key manifest key value = elim (value_eq (get_or Value.null (codes key) manifest) value) [
  | true ↦ []
  | false ↦ inconsistent_manifest (codes key) ∷ []
]

unfoldable pub audit_manifest : Fields → List ScriptProblem
unfolding get_or value_eq
audit_manifest manifest =
    check_key manifest "repository" (str "cataggar/rpmz")
    ++ check_key manifest "platforms"
        (Value.items (list (str "linux-x64" ∷ str "linux-arm64" ∷ [])))
    ++ check_key manifest "binary_archive" (str "rpmz-{version}-{platform}.tar.gz")
    ++ check_key manifest "source_archive" (str "rpmz-{version}.tar.xz")
    ++ check_key manifest "sbom" (str "rpmz-{version}-{platform}.sbom.spdx.json")
    ++ check_key manifest "install_command" (str "ghr install cataggar/rpmz@v{version}")

unfoldable pub packager_imports : List Text
packager_imports = texts (
    "argparse" ∷ "datetime" ∷ "gzip" ∷ "hashlib" ∷ "json" ∷ "lzma" ∷ "os" ∷ "platform" ∷ "shutil"
    ∷ "subprocess" ∷ "tarfile" ∷ "uuid" ∷ [])

unfoldable pub packager_from : List (Option Text × List Text)
packager_from =
    (some (codes "pathlib"), texts ("Path" ∷ "PurePosixPath" ∷ []))
    ∷ (some (codes "release_common"), texts ("parse_semver" ∷ []))
    ∷ []

-- The processes that the packager may start.
unfoldable pub packager_argv : Allowed
packager_argv =
    (
      codes "rpmz_version",
      sequence_of (
          a_binop (codes "Div") (name_shape "prefix") (constant_of "bin/rpmz")
          ∷ constant_of "--version"
          ∷ []),
      texts ("check" ∷ "capture_output" ∷ "text" ∷ []),
    )
    ∷ (
      codes "compatibility_version",
      sequence_of (
          a_binop (codes "Div") (name_shape "prefix") (constant_of "bin/rpmz")
          ∷ constant_of "tdnf"
          ∷ constant_of "--version"
          ∷ []),
      texts ("check" ∷ "capture_output" ∷ "text" ∷ []),
    )
    ∷ (
      codes "package_source",
      sequence_of (
          constant_of "git"
          ∷ constant_of "archive"
          ∷ constant_of "--format=tar"
          ∷ fstring (
              shapes_of (
                constant_of "--prefix="
                ∷ a_formatted (name_shape "package_name")
                ∷ constant_of "/"
                ∷ []))
          ∷ constant_of "HEAD"
          ∷ []),
      texts ("cwd" ∷ "check" ∷ "capture_output" ∷ []),
    )
    ∷ []

abbrev called_in : Located → List Text
unfolding called_name
called_in (t, i, ancestors) = elim (called_name t) [ none ↦ [] | some f ↦ f ∷ [] ]

-- The names that a node calls.
unfoldable pub calls_of : Tree → List Text
unfolding walk called_name
calls_of t = each_located called_in (walk t)

-- `calls.get(function, set())`; a later definition takes the place of an earlier one.
unfoldable pub calls_in : Text → List Text → List Tree → List Text
unfolding text_eq calls_of
calls_in name found [] = found
calls_in name found (node (function f) ts ∷ rest) = elim (text_eq name f) [
  | true ↦ calls_in name (calls_of (node (function f) ts)) rest
  | false ↦ calls_in name found rest
]
calls_in name found (_ ∷ rest) = calls_in name found rest

-- `required - found`
unfoldable pub lacking : List Text → List Text → List Text
unfolding mem
lacking [] found = []
lacking (x ∷ xs) found = if mem x found then lacking xs found else x ∷ lacking xs found

unfoldable pub expected_calls : List (Text × List Text)
expected_calls =
    (
      codes "package_binary",
      texts (
          "verify_public_bin" ∷ "rpmz_version" ∷ "compatibility_version" ∷ "copy_install_tree"
          ∷ "add_tree" ∷ "write_checksum" ∷ "write_sbom" ∷ []),
    )
    ∷ (codes "package_source", texts ("write_checksum" ∷ []))
    ∷ (codes "verify_assets", texts ("verify_archive" ∷ "verify_checksum" ∷ "archive_members" ∷ []))
    ∷ (codes "dry_run", texts ("package_binary" ∷ "package_source" ∷ "verify_assets" ∷ []))
    ∷ (codes "self_test", texts ("verify_public_archive_bin" ∷ []))
    ∷ []

unfoldable pub audit_calls : List (Text × List Text) → List Tree → List ScriptProblem
unfolding calls_in lacking
audit_calls [] body = []
audit_calls ((f, required) ∷ rest) body = elim (lacking required (calls_in f [] body)) [
  | [] ↦ audit_calls rest body
  | c ∷ cs ↦ missing_calls f (c ∷ cs) ∷ audit_calls rest body
]

-- `tree.body`
unfoldable pub body_of : Tree → List Tree
body_of (node module_body ts) = trees ts
body_of _ = []

unfoldable pub audit_packager : Fields → Tree → List ScriptProblem
unfolding audit_manifest audit_script_signing audit_imports audit_process_execution audit_calls
    body_of expected_calls packager_imports packager_from packager_argv
audit_packager manifest script =
    audit_manifest manifest
    ++ audit_script_signing script
    ++ audit_imports script packager_imports packager_from
    ++ audit_process_execution script packager_argv
    ++ audit_calls expected_calls (body_of script)
