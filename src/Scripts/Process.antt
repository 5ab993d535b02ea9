-- ===== src/Scripts/Process.antt =====
-- `audit_process_execution` of scripts/release-audit.py.
use rpmz.Base.{
  ℕ, zero, suc, ◌+◌, ◌-◌, ◌*◌, ◌/◌, ◌%◌, ◌≤◌, ◌<◌, String, ◌≡◌, refl, sym, ap, ◌∙◌, subst, ◌≢◌, ◌↔◌,
  ◌⊎◌, inl, inr, Bool, true, false, not, ◌&&◌, ◌||◌, Option, none, some, List, [], ◌∷◌, ◌++◌, map,
  append_assoc, append-nil, arith, ltb, leb, ◌==◌, if◌then◌else◌, ==_iff, ==_refl, Bool-cases,
  Option-cases, List-cases, and-true, or-true, not-true, length, get_elem?, take, drop, replicate,
  any, every, All, In, here, there, In-cons, not-In-nil, In-append_left, In-append_right,
  In-append_cases, length-append, length-drop, length-take_of_le, length-replicate,
  take-append-drop, if-cases, All-append, All-imp, every-All, length-map, Text, codes, texts,
  text_eq, text_eq_iff, text_eq_refl, starts_with, starts_with-append, starts_with-eq, ends_with,
  contains, is_space, lstrip, rstrip, strip, split, join, lower, mem, subset, set_eq, mem_self,
  mem-cons, mem-append, mem-subset, subset_intro, set_eq_iff, Outcome, ok, raise, ◌>>=◌, ◌>>◌,
  guard, >>=-eq-ok, guard-eq-ok, for_each, then-eq-ok, >>-eq-ok, for_each-In, for_each-All,
  for_each-guard, for_each_intro, is_digit, is_word, starts_name, is_hex, drop_while, cut,
  take_while, take_while-append-drop_while, after, word_ends, search, find_all, is_some, match_word,
  expand,
}
pub mod Sound
pub mod Uses
use rpmz.Scripts.Syntax.{
  Label, import_names, import_from, call, attribute, Alias, Tree, node, label, args, keywords,
  called_name, called_attribute, qualified,
}
use rpmz.Scripts.Walk.{Located, walk, is_called, enclosing_function}
use rpmz.Scripts.Shape.{Shape, ast_shape, shape_eq}
use rpmz.Scripts.Imports.{
  ScriptProblem, imports_loader, dynamic_execution, references_os, uses_os, aliases_subprocess,
  forbidden_subprocess, unapproved_argv, shell_mode, functions_changed, alias_name, each_located,
  module_eq,
}

unfoldable pub denied_imports : List Text
denied_imports = texts ("ctypes" ∷ "importlib" ∷ "runpy" ∷ [])

unfoldable pub denied_os_calls : List Text
denied_os_calls = texts (
    "system" ∷ "popen" ∷ "posix_spawn" ∷ "posix_spawnp" ∷ "spawnl" ∷ "spawnle" ∷ "spawnlp"
    ∷ "spawnlpe" ∷ "spawnv" ∷ "spawnve" ∷ "spawnvp" ∷ "spawnvpe" ∷ "execl" ∷ "execle" ∷ "execlp"
    ∷ "execlpe" ∷ "execv" ∷ "execve" ∷ "execvp" ∷ "execvpe" ∷ [])

unfoldable pub dynamic_calls : List Text
dynamic_calls = texts ("eval" ∷ "exec" ∷ "compile" ∷ "__import__" ∷ "getattr" ∷ [])

-- `name.split(".", 1)[0]`
abbrev pub top_package : Text → Text
unfolding cut
top_package n = (cut b'.' n).0

-- What is wrong with an attribute of a name.
unfoldable pub attribute_problems : Bool → Text × Text → List ScriptProblem
unfolding text_eq mem denied_os_calls
attribute_problems called (owner, attr) =
    if text_eq owner (codes "os") && mem attr denied_os_calls
    then references_os attr ∷ []
    else if text_eq owner (codes "subprocess") && not called
    then aliases_subprocess ∷ []
    else []

-- What is wrong with a call of an attribute of a name, and whether it starts a process.
unfoldable pub call_problems : Text × Text → List ScriptProblem × Bool
unfolding text_eq mem denied_os_calls
call_problems (owner, attr) =
    if text_eq owner (codes "os") && mem attr denied_os_calls
    then (uses_os attr ∷ [], false)
    else if text_eq owner (codes "subprocess")
    then (if text_eq attr (codes "run")
        then ([], true)
        else (forbidden_subprocess attr ∷ [], false))
    else ([], false)

-- The chain of tests on one node.
unfoldable pub node_problems : Located → List ScriptProblem × Bool
unfolding mem cut denied_imports dynamic_calls attribute_problems call_problems is_called
    called_name called_attribute qualified
node_problems (node (import_names aliases) ts, i, ancestors) = (
  if any (λ a. mem (top_package (alias_name a)) denied_imports) aliases
      then imports_loader ∷ []
      else [],
  false,
)
node_problems (node (import_from source aliases) ts, i, ancestors) = (
  elim source [
    | none ↦ []
    | some m ↦ if mem (top_package m) denied_imports then imports_loader ∷ [] else []
  ],
  false,
)
node_problems (node call ts, i, ancestors) = elim (called_name (node call ts)) [
  | some f ↦ (if mem f dynamic_calls then dynamic_execution ∷ [] else [], false)
  | none ↦ elim (called_attribute (node call ts)) [ none ↦ ([], false) | some q ↦ call_problems q ]
]
node_problems (node (attribute attr) ts, i, ancestors) = (
  elim (qualified (node (attribute attr) ts)) [
    | none ↦ []
    | some q ↦ attribute_problems (is_called (node (attribute attr) ts, i, ancestors)) q
  ],
  false,
)
node_problems _ = ([], false)

unfoldable pub node_messages : Located → List ScriptProblem
unfolding node_problems
node_messages x = (node_problems x).0

-- `process_calls`
unfoldable pub process_calls : List Located → List Located
unfolding node_problems
process_calls [] = []
process_calls (x ∷ xs) = if (node_problems x).1 then x ∷ process_calls xs else process_calls xs

-- `allowed_argv`: a function, the shape of its one argument and its keywords
abbrev pub Allowed : Type 0
Allowed = List (Text × Shape × List Text)

unfoldable pub allowed_for : Option Text → Allowed → Option (Shape × List Text)
unfolding text_eq
allowed_for none allowed = none
allowed_for (some f) [] = none
allowed_for (some f) ((g, argv, kws) ∷ rest) =
    if text_eq f g then some (argv, kws) else allowed_for (some f) rest

-- `argv == expected[0]`, where `argv` is `None` unless there is one argument
unfoldable pub argv_is : List Tree → Shape → Bool
unfolding ast_shape shape_eq
argv_is (a ∷ []) expected = shape_eq (ast_shape a) expected
argv_is _ expected = false

abbrev pub has_key_arg : Option Text → List (Option Text) → Bool
unfolding module_eq
has_key_arg k ks = any (module_eq k) ks

-- `keywords == expected[1]`
unfoldable pub keywords_are : List (Option Text) → List Text → Bool
unfolding module_eq
keywords_are ks expected =
    every (λ k. has_key_arg k (map some expected)) ks
    && every (λ e. has_key_arg (some e) ks) expected

unfoldable pub is_approved : Tree → Option (Shape × List Text) → Bool
unfolding argv_is keywords_are args keywords
is_approved t none = false
is_approved t (some (argv, kws)) = argv_is (args t) argv && keywords_are (keywords t) kws

-- The messages about one start of a process.
unfoldable pub process_problems : Allowed → Located → List ScriptProblem
unfolding is_approved allowed_for enclosing_function keywords module_eq
process_problems allowed (t, i, ancestors) =
    (if is_approved t (allowed_for (enclosing_function ancestors) allowed)
      then []
      else unapproved_argv (enclosing_function ancestors) ∷ [])
    ++ (if has_key_arg (some (codes "shell")) (keywords t) then shell_mode ∷ [] else [])

abbrev pub function_of : Located → Option Text
unfolding enclosing_function
function_of (t, i, ancestors) = enclosing_function ancestors

-- `seen == set(allowed_argv)`
unfoldable pub same_functions : List Located → Allowed → Bool
unfolding module_eq enclosing_function
same_functions calls allowed =
    every (λ x. has_key_arg (function_of x) (map (λ e. some e.0) allowed)) calls
    && every (λ e. has_key_arg (some e.0) (map function_of calls)) allowed

unfoldable pub audit_process_execution : Tree → Allowed → List ScriptProblem
unfolding walk node_messages process_calls process_problems same_functions
audit_process_execution t allowed =
    each_located node_messages (walk t)
    ++ each_located (process_problems allowed) (process_calls (walk t))
    ++ (if same_functions (process_calls (walk t)) allowed then [] else functions_changed ∷ [])
