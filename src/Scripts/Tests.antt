-- ===== src/Scripts/Tests.antt =====
-- Runs of the audits of scripts.
use rpmz.Base.{
  String, ◌≡◌, refl, true, Option, none, some, List, [], ◌∷◌, ◌++◌, map, if◌then◌else◌, All, Text,
  codes, text_eq, ok,
}
use rpmz.Workflow.Values.{Fields, items}
use rpmz.Workflow.Steps.{str, dict, list}
use rpmz.Workflow.Samples.{unquote, release, ci}
use rpmz.Workflow.Ci.{problems, audit_workflows}
use rpmz.Scripts.Syntax.{
  Label, constant, attribute, name, binop, call, joined, formatted, keyword, import_names,
  import_from, function, module_body, Tree, node, forest, Literal, called_attribute, qualified,
}
use rpmz.Scripts.Walk.{Located}
use rpmz.Scripts.Walk.Reaches.{Descends, at_root, at_child}
use rpmz.Scripts.Process.{audit_process_execution}
use rpmz.Scripts.Process.Sound.{IsApproved}
use rpmz.Scripts.Process.Uses.{IsCalledBy, audit_process_execution-uses}
use rpmz.Scripts.Packager.{packager_argv, audit_packager, body_of}
use rpmz.Scripts.SmokeSource.{function_named, audit_smoke_source}
use rpmz.Scripts.SmokeSource.Installs.{IsPlain, audit_smoke_source-installs}
use rpmz.Scripts.Audit.{found, Sources, IsSilent, audit, audit-IsSilent}

-- Test data: small scripts that start the processes they may start.
abbrev var : String → Tree
var s = node (name (codes s)) (forest [])

abbrev quoted : String → Tree
quoted s = node (constant (Literal.text (codes s))) (forest [])

abbrev given : String → Tree
given s = node (keyword (some (codes s))) (forest (quoted "" ∷ []))

abbrev member : String → String → Tree
member owner attr = node (attribute (codes attr)) (forest (var owner ∷ []))

abbrev calling : String → List Tree → Tree
calling f ts = node call (forest (var f ∷ ts))

abbrev sum_of : String → Tree → Tree → Tree
sum_of op l r = node (binop (codes op)) (forest (l ∷ r ∷ []))

abbrev define : String → List Tree → Tree
define f body = node (function (codes f)) (forest body)

abbrev start : List Tree → List Tree → Tree
start argv given_ones =
    node call (forest (member "subprocess" "run" ∷ node Label.list (forest argv) ∷ given_ones))

abbrev importing : List String → Tree
importing ns = node (import_names (map (λ n. (codes n, none)) ns)) (forest [])

abbrev taking : String → List String → Tree
taking m ns = node (import_from (some (codes m)) (map (λ n. (codes n, none)) ns)) (forest [])

abbrev calls : List String → List Tree
calls ns = map (λ n. calling n []) ns

abbrev checked : List Tree
checked = given "check" ∷ given "capture_output" ∷ given "text" ∷ []

abbrev with_env : List Tree
with_env = given "check" ∷ given "capture_output" ∷ given "text" ∷ given "env" ∷ []

abbrev packager_script : Tree
packager_script = node module_body (
    forest (
      importing (
        "argparse" ∷ "datetime" ∷ "gzip" ∷ "hashlib" ∷ "json" ∷ "lzma" ∷ "os" ∷ "platform"
        ∷ "shutil" ∷ "subprocess" ∷ "tarfile" ∷ "uuid" ∷ [])
      ∷ taking "pathlib" ("Path" ∷ "PurePosixPath" ∷ [])
      ∷ taking "release_common" ("parse_semver" ∷ [])
      ∷ define "rpmz_version" (
          start (sum_of "Div" (var "prefix") (quoted "bin/rpmz") ∷ quoted "--version" ∷ []) checked
          ∷ [])
      ∷ define "compatibility_version" (
          start
            (sum_of "Div" (var "prefix") (quoted "bin/rpmz")
              ∷ quoted "tdnf"
              ∷ quoted "--version"
              ∷ [])
            checked
          ∷ [])
      ∷ define "package_source" (
          calling "write_checksum" []
          ∷ start
              (quoted "git"
                ∷ quoted "archive"
                ∷ quoted "--format=tar"
                ∷ node joined (
                    forest (
                      quoted "--prefix="
                      ∷ node (formatted true) (forest (var "package_name" ∷ []))
                      ∷ quoted "/"
                      ∷ []))
                ∷ quoted "HEAD"
                ∷ [])
              (given "cwd" ∷ given "check" ∷ given "capture_output" ∷ [])
          ∷ [])
      ∷ define "package_binary" (
          calls (
            "verify_public_bin" ∷ "rpmz_version" ∷ "compatibility_version" ∷ "copy_install_tree"
            ∷ "add_tree" ∷ "write_checksum" ∷ "write_sbom" ∷ []))
      ∷ define "verify_assets"
          (calls ("verify_archive" ∷ "verify_checksum" ∷ "archive_members" ∷ []))
      ∷ define "dry_run" (calls ("package_binary" ∷ "package_source" ∷ "verify_assets" ∷ []))
      ∷ define "self_test" (calls ("verify_public_archive_bin" ∷ []))
      ∷ []))

abbrev methods : List String → List Tree
methods ms = map (λ m. node call (forest (member "runner" m ∷ []))) ms

abbrev run_smoke : Tree
run_smoke = define "run_smoke" (
    calls ("validate_arguments" ∷ "expected_assets" ∷ "verify_checksum" ∷ [])
    ++ methods (
        "ghr_install" ∷ "rpmz_version" ∷ "compatibility_version" ∷ "native_audit" ∷ "release_assets"
        ∷ "download_assets" ∷ []))

abbrev smoke_script : Tree
smoke_script = node module_body (
    forest (
      importing
        ("argparse" ∷ "hashlib" ∷ "json" ∷ "os" ∷ "shutil" ∷ "subprocess" ∷ "sys" ∷ "uuid" ∷ [])
      ∷ taking "pathlib" ("Path" ∷ [])
      ∷ taking "release_common" ("parse_semver" ∷ [])
      ∷ define "ghr_install"
          (start (quoted "ghr" ∷ quoted "install" ∷ var "spec" ∷ []) with_env ∷ [])
      ∷ define "rpmz_version" (start (var "path" ∷ quoted "--version" ∷ []) with_env ∷ [])
      ∷ define "compatibility_version"
          (start (var "path" ∷ quoted "tdnf" ∷ quoted "--version" ∷ []) with_env ∷ [])
      ∷ define "native_audit" (
          start
            (member "sys" "executable"
              ∷ calling "str" (sum_of "Div" (var "ROOT") (quoted "scripts/librpm-audit.py") ∷ [])
              ∷ quoted "--prefix"
              ∷ calling "str" (var "prefix" ∷ [])
              ∷ [])
            with_env
          ∷ [])
      ∷ define "release_assets" (
          start
            (quoted "gh"
              ∷ quoted "release"
              ∷ quoted "view"
              ∷ var "tag"
              ∷ quoted "--repo"
              ∷ var "repo"
              ∷ quoted "--json"
              ∷ quoted "assets"
              ∷ [])
            with_env
          ∷ [])
      ∷ define "download_assets" (
          start
            (quoted "gh"
              ∷ quoted "release"
              ∷ quoted "download"
              ∷ var "tag"
              ∷ quoted "--repo"
              ∷ var "repo"
              ∷ quoted "--dir"
              ∷ calling "str" (var "directory" ∷ [])
              ∷ quoted "--pattern"
              ∷ var "archive_name"
              ∷ quoted "--pattern"
              ∷ sum_of "Add" (var "archive_name") (quoted ".sha256")
              ∷ [])
            with_env
          ∷ [])
      ∷ run_smoke
      ∷ define "main" (calling "run_smoke" [] ∷ [])
      ∷ []))

abbrev common_script : Tree
common_script = node module_body (forest (importing ("re" ∷ []) ∷ []))

abbrev manifest_sample : Fields
manifest_sample = dict (
    ("repository", str "cataggar/rpmz")
    ∷ ("platforms", items (list (str "linux-x64" ∷ str "linux-arm64" ∷ [])))
    ∷ ("binary_archive", str "rpmz-{version}-{platform}.tar.gz")
    ∷ ("source_archive", str "rpmz-{version}.tar.xz")
    ∷ ("sbom", str "rpmz-{version}-{platform}.sbom.spdx.json")
    ∷ ("install_command", str "ghr install cataggar/rpmz@v{version}")
    ∷ [])

packager_silent : audit_packager manifest_sample packager_script ≡ []
unfolding audit_packager
packager_silent = refl

smoke_silent : audit_smoke_source (some smoke_script) ≡ ok []
unfolding audit_smoke_source
smoke_silent = refl

-- The start of a process in the packager's `rpmz_version`.
abbrev version_start : Tree
version_start =
    start (sum_of "Div" (var "prefix") (quoted "bin/rpmz") ∷ quoted "--version" ∷ []) checked

abbrev version_function : Tree
version_function = define "rpmz_version" (version_start ∷ [])

abbrev version_run : Located
version_run =
    (member "subprocess" "run", 0, version_start ∷ version_function ∷ packager_script ∷ [])

version_run-Descends : Descends packager_script version_run
version_run-Descends = at_child (at_child (at_child at_root 3 refl) 0 refl) 0 refl

processes_silent : audit_process_execution packager_script packager_argv ≡ []
unfolding audit_process_execution packager_argv
processes_silent = refl

version_run-qualified : qualified (version_run.0) ≡ some (codes "subprocess", codes "run")
unfolding qualified
version_run-qualified = refl

audit_process_execution-uses_example :
    (codes "run" ≡ codes "run")
    × (y : Located) × Descends packager_script y
    × IsCalledBy version_run y
    × IsApproved packager_argv y
audit_process_execution-uses_example =
    audit_process_execution-uses packager_script packager_argv version_run (codes "run")
      processes_silent version_run-Descends version_run-qualified

audit_smoke_source-installs_example :
    (run : Tree) × (x : Located) × (function_named (codes "run_smoke") none (body_of smoke_script)
      ≡ some run)
    × Descends run x
    × (called_attribute x.0 ≡ some (codes "runner", codes "ghr_install"))
    × All IsPlain x.2
audit_smoke_source-installs_example = audit_smoke_source-installs smoke_script smoke_silent

-- A script that never installs.
abbrev idle : Tree
idle = define "run_smoke" (methods ("rpmz_version" ∷ []))

abbrev idle_script : Tree
idle_script = node module_body (forest (idle ∷ []))

-- Test data: each script stands for its own text.
unfoldable parse_sample : Text → Option Tree
unfolding text_eq
parse_sample t =
    if text_eq t (codes "release.py")
    then some packager_script
    else if text_eq t (codes "release-smoke.py")
    then some smoke_script
    else some common_script

abbrev sources : Sources
sources = record {
  release_source = release;
  ci_source = ci;
  manifest = manifest_sample;
  packager = codes "release.py";
  smoke_source = codes "release-smoke.py";
  common_source = codes "release_common.py";
}

sources_silent : audit unquote parse_sample sources ≡ ok (found [] [])
unfolding audit parse_sample
sources_silent = refl

audit-IsSilent_example :
    (audit_workflows unquote release ci ≡ ok (problems [])) × IsSilent parse_sample sources
audit-IsSilent_example = audit-IsSilent unquote parse_sample sources sources_silent
