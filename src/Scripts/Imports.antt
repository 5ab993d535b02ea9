-- ===== src/Scripts/Imports.antt =====
-- `audit_script_signing` and `audit_imports` of scripts/release-audit.py.
use rpmz.Base.{
  Bool, true, false, ◌&&◌, ◌||◌, Option, none, some, List, [], ◌∷◌, ◌++◌, map, if◌then◌else◌, any,
  every, Text, codes, text_eq, lower, set_eq, is_some,
}
use rpmz.Scripts.Syntax.{text, constant, import_names, import_from, Alias, Tree, node}
use rpmz.Scripts.Walk.{Located, walk, is_top}
use rpmz.Workflow.Release.Scan.{signing_words}

-- The messages; the label of the script is left out.
pub data ScriptProblem : Type 0 where
  signing_capability : List Text → ScriptProblem
  local_import : ScriptProblem
  aliased_import : ScriptProblem
  unsafe_from_import : ScriptProblem
  imports_changed : ScriptProblem
  imports_loader : ScriptProblem
  dynamic_execution : ScriptProblem
  references_os : Text → ScriptProblem
  uses_os : Text → ScriptProblem
  aliases_subprocess : ScriptProblem
  forbidden_subprocess : Text → ScriptProblem
  unapproved_argv : Option Text → ScriptProblem
  shell_mode : ScriptProblem
  functions_changed : ScriptProblem
  inconsistent_manifest : Text → ScriptProblem
  missing_calls : Text → List Text → ScriptProblem
  unparsed : ScriptProblem
  missing_run_smoke : ScriptProblem
  methods_changed : ScriptProblem
  conditional_install : ScriptProblem
  main_calls_changed : ScriptProblem
  conditional_main : ScriptProblem
  missing_verification : Text → ScriptProblem

-- The loop returns with the first text that names a signing command.
unfoldable pub signing_in : List Located → List ScriptProblem
unfolding signing_words lower
signing_in [] = []
signing_in ((node (constant (text t)) ts, i, ancestors) ∷ xs) = elim (signing_words (lower t)) [
  | [] ↦ signing_in xs
  | c ∷ cs ↦ signing_capability (c ∷ cs) ∷ []
]
signing_in (_ ∷ xs) = signing_in xs

unfoldable pub audit_script_signing : Tree → List ScriptProblem
unfolding signing_in walk
audit_script_signing t = signing_in (walk t)

abbrev pub has_asname : Alias → Bool
has_asname (n, asname) = is_some asname

-- `alias.asname is not None or alias.name == "*"`
unfoldable pub is_unsafe : Alias → Bool
unfolding text_eq
is_unsafe (n, asname) = is_some asname || text_eq n (codes "*")

abbrev pub alias_name : Alias → Text
alias_name (n, asname) = n

-- One message for each alias that a test picks.
abbrev pub report_each : (Alias → Bool) → ScriptProblem → List Alias → List ScriptProblem
report_each p problem [] = []
report_each p problem (a ∷ rest) = elim (p a) [
  | true ↦ problem ∷ report_each p problem rest
  | false ↦ report_each p problem rest
]

-- The messages about one import.
unfoldable pub import_problems : Located → List ScriptProblem
unfolding is_top is_unsafe
import_problems (node (import_names aliases) ts, i, ancestors) =
    (if is_top (node (import_names aliases) ts, i, ancestors) then [] else local_import ∷ [])
    ++ report_each has_asname aliased_import aliases
import_problems (node (import_from source aliases) ts, i, ancestors) =
    (if is_top (node (import_from source aliases) ts, i, ancestors) then [] else local_import ∷ [])
    ++ report_each is_unsafe unsafe_from_import aliases
import_problems _ = []

abbrev pub each_located {ℓ} : {A : Type ℓ} → (Located → List A) → List Located → List A
each_located f [] = []
each_located f (x ∷ xs) = f x ++ each_located f xs

-- `actual_imports`
unfoldable pub imported : Located → List Text
imported (node (import_names aliases) ts, i, ancestors) = map alias_name aliases
imported _ = []

-- The names that are taken from each module, one entry for each statement.
unfoldable pub imported_from : Located → List (Option Text × List Text)
imported_from (node (import_from source aliases) ts, i, ancestors) =
    (source, map alias_name aliases) ∷ []
imported_from _ = []

unfoldable pub module_eq : Option Text → Option Text → Bool
unfolding text_eq
module_eq none none = true
module_eq (some s) (some t) = text_eq s t
module_eq _ _ = false

-- `actual_from.get(module)`: the names of all statements about a module
unfoldable pub names_from : Option Text → List (Option Text × List Text) → List Text
unfolding module_eq
names_from m [] = []
names_from m ((k, ns) ∷ rest) = if module_eq m k then ns ++ names_from m rest else names_from m rest

abbrev pub has_module : Option Text → List (Option Text × List Text) → Bool
unfolding module_eq
has_module m rest = any (λ e. module_eq m e.0) rest

-- `actual_from == allowed_from`
unfoldable pub same_from : List (Option Text × List Text) → List (Option Text × List Text) → Bool
unfolding names_from set_eq module_eq
same_from actual allowed =
    every (λ e. has_module e.0 allowed && set_eq (names_from e.0 actual) (names_from e.0 allowed))
      actual
    && every (λ e. has_module e.0 actual) allowed

unfoldable pub audit_imports :
    Tree → List Text → List (Option Text × List Text) → List ScriptProblem
unfolding walk import_problems imported imported_from set_eq same_from
audit_imports t allowed_imports allowed_from =
    each_located import_problems (walk t)
    ++ (if set_eq (each_located imported (walk t)) allowed_imports
          && same_from (each_located imported_from (walk t)) allowed_from
        then []
        else imports_changed ∷ [])
