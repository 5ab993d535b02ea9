-- ===== src/Scripts/SmokeSource.antt =====
-- `audit_smoke_source` of scripts/release-audit.py: the script that tries a release.
use rpmz.Base.{
  ℕ, zero, suc, ◌+◌, ◌-◌, ◌*◌, ◌/◌, ◌%◌, ◌≤◌, ◌<◌, String, ◌≡◌, refl, sym, ap, ◌∙◌, subst, ◌≢◌, ◌↔◌,
  ◌⊎◌, inl, inr, Bool, true, false, not, ◌&&◌, ◌||◌, Option, none, some, List, [], ◌∷◌, ◌++◌, map,
  append_assoc, append-nil, arith, ltb, leb, ◌==◌, if◌then◌else◌, ==_iff, ==_refl, Bool-cases,
  Option-cases, List-cases, and-true, or-true, not-true, length, get_elem?, take, drop, replicate,
  any, every, All, In, here, there, In-cons, not-In-nil, In-append_left, In-append_right,
  In-append_cases, length-append, length-drop, length-take_of_le, length-replicate,
  take-append-drop, if-cases, All-append, All-imp, every-All, length-map, Text, codes, texts,
  text_eq, text_eq_iff, text_eq_refl, starts_with, starts_with-append, starts_with-eq, ends_with,
  contains, is_space, lstrip, rstrip, strip, split, join, lower, mem, subset, set_eq, mem_self,
  mem-cons, mem-append, mem-subset, subset_intro, set_eq_iff, Outcome, ok, raise, ◌>>=◌, ◌>>◌,
  guard, >>=-eq-ok, guard-eq-ok, for_each, then-eq-ok, >>-eq-ok, for_each-In, for_each-All,
  for_each-guard, for_each_intro, is_digit, is_word, starts_name, is_hex, drop_while, cut,
  take_while, take_while-append-drop_while, after, word_ends, search, find_all, is_some, match_word,
  expand,
}
pub mod Installs
use rpmz.Scripts.Syntax.{
  Label, function, async_function, other, Tree, node, called_name, called_attribute,
}
use rpmz.Scripts.Walk.{Located, walk}
use rpmz.Scripts.Shape.{Shape, an_attribute, a_binop, a_call}
use rpmz.Scripts.Imports.{
  ScriptProblem, unparsed, missing_run_smoke, methods_changed, conditional_install,
  main_calls_changed, conditional_main, missing_verification, each_located, audit_script_signing,
  audit_imports,
}
use rpmz.Scripts.Process.{Allowed, audit_process_execution}
use rpmz.Scripts.Packager.{constant_of, name_shape, shapes_of, sequence_of, calls_of, body_of}

-- `IndexError`
pub data SmokeCrash : Type 0 where
  index_error : SmokeCrash

unfoldable pub smoke_imports : List Text
smoke_imports =
    texts ("argparse" ∷ "hashlib" ∷ "json" ∷ "os" ∷ "shutil" ∷ "subprocess" ∷ "sys" ∷ "uuid" ∷ [])

unfoldable pub smoke_from : List (Option Text × List Text)
smoke_from =
    (some (codes "pathlib"), texts ("Path" ∷ []))
    ∷ (some (codes "release_common"), texts ("parse_semver" ∷ []))
    ∷ []

unfoldable pub smoke_keywords : List Text
smoke_keywords = texts ("check" ∷ "capture_output" ∷ "text" ∷ "env" ∷ [])

-- The processes that the script may start.
unfoldable pub smoke_argv : Allowed
unfolding smoke_keywords
smoke_argv =
    (
      codes "ghr_install",
      sequence_of (constant_of "ghr" ∷ constant_of "install" ∷ name_shape "spec" ∷ []),
      smoke_keywords,
    )
    ∷ (
      codes "rpmz_version",
      sequence_of (name_shape "path" ∷ constant_of "--version" ∷ []),
      smoke_keywords,
    )
    ∷ (
      codes "compatibility_version",
      sequence_of (name_shape "path" ∷ constant_of "tdnf" ∷ constant_of "--version" ∷ []),
      smoke_keywords,
    )
    ∷ (
      codes "native_audit",
      sequence_of (
          an_attribute (name_shape "sys") (codes "executable")
          ∷ a_call (codes "str") (
              shapes_of (
                a_binop (codes "Div") (name_shape "ROOT") (constant_of "scripts/librpm-audit.py")
                ∷ []))
          ∷ constant_of "--prefix"
          ∷ a_call (codes "str") (shapes_of (name_shape "prefix" ∷ []))
          ∷ []),
      smoke_keywords,
    )
    ∷ (
      codes "release_assets",
      sequence_of (
          constant_of "gh"
          ∷ constant_of "release"
          ∷ constant_of "view"
          ∷ name_shape "tag"
          ∷ constant_of "--repo"
          ∷ name_shape "repo"
          ∷ constant_of "--json"
          ∷ constant_of "assets"
          ∷ []),
      smoke_keywords,
    )
    ∷ (
      codes "download_assets",
      sequence_of (
          constant_of "gh"
          ∷ constant_of "release"
          ∷ constant_of "download"
          ∷ name_shape "tag"
          ∷ constant_of "--repo"
          ∷ name_shape "repo"
          ∷ constant_of "--dir"
          ∷ a_call (codes "str") (shapes_of (name_shape "directory" ∷ []))
          ∷ constant_of "--pattern"
          ∷ name_shape "archive_name"
          ∷ constant_of "--pattern"
          ∷ a_binop (codes "Add") (name_shape "archive_name") (constant_of ".sha256")
          ∷ []),
      smoke_keywords,
    )
    ∷ []

-- `functions.get(name)`; a later definition takes the place of an earlier one.
unfoldable pub function_named : Text → Option Tree → List Tree → Option Tree
unfolding text_eq
function_named name found [] = found
function_named name found (node (function f) ts ∷ rest) = elim (text_eq name f) [
  | true ↦ function_named name (some (node (function f) ts)) rest
  | false ↦ function_named name found rest
]
function_named name found (node (async_function f) ts ∷ rest) = elim (text_eq name f) [
  | true ↦ function_named name (some (node (async_function f) ts)) rest
  | false ↦ function_named name found rest
]
function_named name found (_ ∷ rest) = function_named name found rest

-- A call of a method of `runner`, with the method.
unfoldable pub runner_call : Located → List (Text × Located)
unfolding called_attribute text_eq
runner_call (t, i, ancestors) = elim (called_attribute t) [
  | none ↦ []
  | some (owner, attr) ↦
      if text_eq owner (codes "runner") then (attr, (t, i, ancestors)) ∷ [] else []
]

unfoldable pub runner_methods : Tree → List (Text × Located)
unfolding walk runner_call
runner_methods t = each_located runner_call (walk t)

unfoldable pub expected_methods : List Text
expected_methods = texts (
    "ghr_install" ∷ "rpmz_version" ∷ "compatibility_version" ∷ "native_audit" ∷ "release_assets"
    ∷ "download_assets" ∷ [])

unfoldable pub occurrences : Text → List Text → ℕ
unfolding text_eq
occurrences x [] = 0
occurrences x (y ∷ ys) = elim (text_eq x y) [
  | true ↦ suc (occurrences x ys)
  | false ↦ occurrences x ys
]

-- `sorted(left) == sorted(right)`
unfoldable pub same_multiset : List Text → List Text → Bool
unfolding occurrences
same_multiset xs ys = every (λ x. occurrences x xs == occurrences x ys) (xs ++ ys)

-- The classes of nodes that count as conditional.
unfoldable pub conditional_nodes : List Text
conditional_nodes = texts ("If" ∷ "For" ∷ "AsyncFor" ∷ "While" ∷ "Try" ∷ "Match" ∷ "IfExp" ∷ [])

-- `isinstance(node, conditional_nodes)`
unfoldable pub is_conditional : Tree → Bool
unfolding conditional_nodes mem
is_conditional (node (other kind) ts) = mem kind conditional_nodes
is_conditional _ = false

-- The loop over the parents up to the function, which is a definition and so no such node itself.
unfoldable pub below_condition : Located → Bool
unfolding is_conditional
below_condition (t, i, ancestors) = any is_conditional ancestors

-- The calls of one method.
unfoldable pub calls_of_method : Text → List (Text × Located) → List Located
unfolding text_eq
calls_of_method m [] = []
calls_of_method m ((attr, x) ∷ rest) =
    if text_eq attr m then x ∷ calls_of_method m rest else calls_of_method m rest

-- `ghr_calls[0]`
unfoldable pub first_call : List Located → Outcome SmokeCrash Located
first_call [] = raise index_error
first_call (x ∷ xs) = ok x

abbrev runs_smoke : Located → List Located
unfolding called_name text_eq
runs_smoke (t, i, ancestors) = elim (called_name t) [
  | none ↦ []
  | some f ↦ if text_eq f (codes "run_smoke") then (t, i, ancestors) ∷ [] else []
]

unfoldable pub main_calls : Option Tree → List Located
unfolding walk called_name text_eq
main_calls none = []
main_calls (some main_function) = each_located runs_smoke (walk main_function)

unfoldable pub main_problems : List Located → List ScriptProblem
unfolding below_condition
main_problems (x ∷ []) = if below_condition x then conditional_main ∷ [] else []
main_problems _ = main_calls_changed ∷ []

unfoldable pub verification_problems : List Text → List Text → List ScriptProblem
unfolding mem
verification_problems [] called = []
verification_problems (r ∷ rest) called =
    (if mem r called then [] else missing_verification r ∷ []) ++ verification_problems rest called

-- What is asked of `run_smoke` and of `main`.
unfoldable pub audit_run_smoke : Tree → Tree → Outcome SmokeCrash (List ScriptProblem)
unfolding runner_methods same_multiset expected_methods calls_of_method first_call below_condition
    main_problems main_calls function_named body_of verification_problems calls_of
audit_run_smoke script run_smoke = do
  ghr_call ← first_call (calls_of_method (codes "ghr_install") (runner_methods run_smoke))
  ok (
      (if same_multiset (map (λ m. m.0) (runner_methods run_smoke)) expected_methods
        then []
        else methods_changed ∷ [])
      ++ (if below_condition ghr_call then conditional_install ∷ [] else [])
      ++ main_problems (main_calls (function_named (codes "main") none (body_of script)))
      ++ verification_problems
          (texts ("validate_arguments" ∷ "expected_assets" ∷ "verify_checksum" ∷ []))
          (calls_of run_smoke))

-- What is asked of every node of the script.
unfoldable pub smoke_nodes : Tree → List ScriptProblem
unfolding audit_script_signing audit_imports audit_process_execution smoke_imports smoke_from
    smoke_argv
smoke_nodes script =
    audit_script_signing script
    ++ audit_imports script smoke_imports smoke_from
    ++ audit_process_execution script smoke_argv

-- The script, or `none` if `ast.parse` raises.
unfoldable pub audit_smoke_source : Option Tree → Outcome SmokeCrash (List ScriptProblem)
unfolding smoke_nodes function_named body_of audit_run_smoke
audit_smoke_source none = ok (unparsed ∷ [])
audit_smoke_source (some script) = elim (function_named (codes "run_smoke") none (body_of script)) [
  | none ↦ ok (smoke_nodes script ++ (missing_run_smoke ∷ []))
  | some run_smoke ↦
      audit_run_smoke script run_smoke >>= λ problems. ok (smoke_nodes script ++ problems)
]
