-- ===== src/Workflow/Steps.antt =====
-- The lookups that the two audits of scripts/release-audit.py share, and how they collect messages. An
-- attribute that the value at hand does not have, or a subscript that it does not take, is a `Crash`:
-- the source lets the exception of Python through.
use rpmz.Base.{
  ℕ, zero, suc, ◌+◌, ◌-◌, ◌*◌, ◌/◌, ◌%◌, ◌≤◌, ◌<◌, String, ◌≡◌, refl, sym, ap, ◌∙◌, subst, ◌≢◌, ◌↔◌,
  ◌⊎◌, inl, inr, Bool, true, false, not, ◌&&◌, ◌||◌, Option, none, some, List, [], ◌∷◌, ◌++◌, map,
  append_assoc, append-nil, arith, ltb, leb, ◌==◌, if◌then◌else◌, ==_iff, ==_refl, Bool-cases,
  Option-cases, List-cases, and-true, or-true, not-true, length, get_elem?, take, drop, replicate,
  any, every, All, In, here, there, In-cons, not-In-nil, In-append_left, In-append_right,
  In-append_cases, length-append, length-drop, length-take_of_le, length-replicate,
  take-append-drop, if-cases, All-append, All-imp, every-All, length-map, Text, codes, texts,
  text_eq, text_eq_iff, text_eq_refl, starts_with, starts_with-append, starts_with-eq, ends_with,
  contains, is_space, lstrip, rstrip, strip, split, join, lower, mem, subset, set_eq, mem_self,
  mem-cons, mem-append, mem-subset, subset_intro, set_eq_iff, Outcome, ok, raise, ◌>>=◌, ◌>>◌,
  guard, >>=-eq-ok, guard-eq-ok, for_each, then-eq-ok, >>-eq-ok, for_each-In, for_each-All,
  for_each-guard, for_each_intro, is_digit, is_word, starts_name, is_hex, drop_while, cut,
  take_while, take_while-append-drop_while, after, word_ends, search, find_all, is_some, match_word,
  expand,
}
pub mod Sound
use rpmz.Workflow.Values.{
  Value, null, boolean, text, items, mapping, tuple, other_literal, Items, nil, cons, Fields, end,
  field, lookup, has_key, keys, value_eq,
}
use rpmz.Workflow.Lines.{split_lines}

-- `TypeError` and `AttributeError`, and `ValueError` of `list.index`.
pub data Crash : Type 0 where
  wrong_type : Crash
  not_in_list : Crash

-- A message: about the whole workflow, about a job or about a step (with its name or its action).
pub data Problem : Type 0 where
  changed : String → Problem
  in_job : Text → String → Problem
  in_step : Text → Value → String → Problem
  forbidden_token : Text → Problem
  signing_capability : List Text → Problem

abbrev pub Checked : Type 0
Checked = Outcome Crash (List Problem)

unfoldable pub expect : Bool → Problem → List Problem
expect condition problem = if condition then [] else problem ∷ []

-- Several expectations in their order.
unfoldable pub expect_all : List (Bool × Problem) → List Problem
unfolding expect
expect_all [] = []
expect_all ((condition, problem) ∷ checks) = expect condition problem ++ expect_all checks

-- Audits in their order; the messages of the first ones are lost with an exception.
unfoldable pub each_of : List Checked → Checked
each_of [] = ok []
each_of (check ∷ checks) = do problems ← check; more ← each_of checks; ok (problems ++ more)

abbrev pub str : String → Value
str s = text (codes s)

-- A literal dict of texts.
abbrev pub dict : List (String × Value) → Fields
dict [] = end
dict ((key, value) ∷ fs) = field (codes key) value (dict fs)

abbrev pub list : List Value → Items
list [] = nil
list (v ∷ vs) = cons v (list vs)

abbrev pub to_list : Items → List Value
to_list nil = []
to_list (cons v vs) = v ∷ to_list vs

unfoldable pub platforms : Value
platforms = items (
    list (
      mapping (dict (("os", str "ubuntu-24.04") ∷ ("platform", str "linux-x64") ∷ []))
      ∷ mapping (dict (("os", str "ubuntu-24.04-arm") ∷ ("platform", str "linux-arm64") ∷ []))
      ∷ []))

unfoldable pub ghr_install_action : Text
ghr_install_action = codes "cataggar/ghr/actions/install@a3be8c61b9d5c2bd6d38e6d067c69d70434a6db9"

unfoldable pub zig_install_env : Value
zig_install_env = mapping (dict (("GH_TOKEN", str "${{ github.token }}") ∷ []))

unfoldable pub zig_install_inputs : Value
zig_install_inputs = mapping (
    dict (
      ("ghr-version", str "v0.9.1")
      ∷ (
        "tools",
        str "cataggar/zig@v0.17.0 RWSGOq2NVecA2UPNdBUZykf1CCb147pkmdtYxgb3Ti+JO/wCYvhbAb/U",
      )
      ∷ []))

unfoldable pub signing_commands : List Text
signing_commands = texts ("gpg" ∷ "cosign" ∷ "minisign" ∷ "signify" ∷ "openssl" ∷ [])

-- `fields.get(key, default)`
unfoldable pub get_or : Value → Text → Fields → Value
unfolding lookup
get_or default key fs = elim (lookup key fs) [ none ↦ default | some v ↦ v ]

-- `value.get(key)`
unfoldable pub get : Text → Value → Outcome Crash Value
unfolding get_or
get key (mapping fs) = ok (get_or null key fs)
get key _ = raise wrong_type

-- `key in value`
unfoldable pub is_in : Text → Value → Outcome Crash Bool
unfolding has_key value_eq contains
is_in key (mapping fs) = ok (has_key key fs)
is_in key (text t) = ok (contains t key)
is_in key (items vs) = ok (any (value_eq (text key)) (to_list vs))
is_in key (tuple vs) = ok (any (value_eq (text key)) (to_list vs))
is_in key (boolean b) = raise wrong_type
is_in key null = raise wrong_type
is_in key (other_literal hashable n) = raise wrong_type

unfoldable mutual
  pub is_hashable : Value → Bool
  is_hashable (items vs) = false
  is_hashable (mapping fs) = false
  is_hashable (tuple vs) = all_hashable vs
  is_hashable (other_literal hashable n) = hashable
  is_hashable _ = true

  all_hashable : Items → Bool
  all_hashable nil = true
  all_hashable (cons v vs) = is_hashable v && all_hashable vs

-- `set(value)`, as the list of its elements
unfoldable pub elements : Value → Outcome Crash (List Value)
unfolding is_hashable keys
elements (mapping fs) = ok (map text (keys fs))
elements (text t) = ok (map (λ c. text (c ∷ [])) t)
elements (items vs) = if every is_hashable (to_list vs) then ok (to_list vs) else raise wrong_type
elements (tuple vs) = if every is_hashable (to_list vs) then ok (to_list vs) else raise wrong_type
elements (boolean b) = raise wrong_type
elements (other_literal hashable n) = raise wrong_type
elements null = raise wrong_type

-- `left == right` of a set of values and a set of texts
unfoldable pub same_set : List Value → List Text → Bool
unfolding value_eq
same_set vs ts =
    every (λ v. any (λ t. value_eq v (text t)) ts) vs
    && every (λ t. any (λ v. value_eq v (text t)) vs) ts

-- `steps if isinstance(steps, list) else []`
unfoldable pub as_steps : Value → List Value
as_steps (items vs) = to_list vs
as_steps _ = []

unfoldable pub job_steps : Value → List Value
unfolding as_steps get_or
job_steps (mapping fs) = as_steps (get_or (items nil) (codes "steps") fs)
job_steps _ = []

-- The steps that are dicts and pass a test.
unfoldable pub steps_with : (Fields → Bool) → List Value → List Fields
steps_with p [] = []
steps_with p (mapping fs ∷ vs) = if p fs then fs ∷ steps_with p vs else steps_with p vs
steps_with p (_ ∷ vs) = steps_with p vs

-- `matches[0] if len(matches) == 1 else None`
abbrev pub only {ℓ} : {A : Type ℓ} → List A → Option A
only (x ∷ []) = some x
only _ = none

unfoldable pub named_step : Value → Text → Option Fields
unfolding steps_with job_steps get_or value_eq
named_step job name =
    only
      (steps_with (λ step. value_eq (get_or null (codes "name") step) (text name)) (job_steps job))

-- `isinstance(value, str) and value.startswith(prefix)`
unfoldable pub text_starts : Text → Value → Bool
unfolding starts_with
text_starts prefix (text t) = starts_with t prefix
text_starts prefix _ = false

unfoldable pub action_step : Value → Text → Option Fields
unfolding steps_with job_steps get_or text_starts
action_step job prefix =
    only (steps_with (λ step. text_starts prefix (get_or null (codes "uses") step)) (job_steps job))

-- `step is not None and step.get(key) == value`
unfoldable pub step_has : Option Fields → Text → Value → Bool
unfolding get_or value_eq
step_has none key value = false
step_has (some step) key value = value_eq (get_or null key step) value

-- The step that `audit_zig_install` asks for.
unfoldable pub zig_install_step : Value
unfolding ghr_install_action zig_install_env zig_install_inputs
zig_install_step = mapping (
    dict (
      ("name", str "Install Zig via ghr")
      ∷ ("uses", text ghr_install_action)
      ∷ ("env", zig_install_env)
      ∷ ("with", zig_install_inputs)
      ∷ []))

-- `step == {...}`, where `step` may be `None`
unfoldable pub step_is : Value → Option Fields → Bool
unfolding value_eq
step_is value none = false
step_is value (some step) = value_eq (mapping step) value

-- `audit_zig_install`: the messages, and the step.
unfoldable pub audit_zig_install : Value → Text → List Problem × Option Fields
unfolding action_step step_is zig_install_step expect
audit_zig_install job context =
    let step = action_step job (codes "cataggar/ghr/actions/install@") in
    (
      expect (step_is zig_install_step step)
          (in_job context "must install Zig 0.17.0 with the pinned ghr action"),
      step,
    )

unfoldable pub scalar_lines : Value → List Text
unfolding split_lines strip
scalar_lines (text t) = nonempty (map strip (split_lines t))
  where
    nonempty : List Text → List Text
    nonempty [] = []
    nonempty ([] ∷ ls) = nonempty ls
    nonempty ((c ∷ l) ∷ ls) = (c ∷ l) ∷ nonempty ls
scalar_lines _ = []

unfoldable pub without_comments : List Text → List Text
unfolding starts_with
without_comments [] = []
without_comments (l ∷ ls) =
    if starts_with l (codes "#") then without_comments ls else l ∷ without_comments ls

unfoldable pub shell_lines : Value → List Text
unfolding scalar_lines without_comments
shell_lines value = without_comments (scalar_lines value)

unfoldable pub same_lines : List Text → List Text → Bool
unfolding text_eq
same_lines [] [] = true
same_lines (x ∷ xs) (y ∷ ys) = text_eq x y && same_lines xs ys
same_lines _ _ = false

-- `step is not None and shell_lines(step.get("run")) == [...]`
unfoldable pub step_runs : Option Fields → List String → Bool
unfolding shell_lines same_lines get_or
step_runs none commands = false
step_runs (some step) commands =
    same_lines (shell_lines (get_or null (codes "run") step)) (texts commands)

-- One subscript of `matrix`; what it raises is caught.
unfoldable pub subscript : Text → Value → Value
unfolding get_or
subscript key (mapping fs) = get_or null key fs
subscript key _ = null

unfoldable pub matrix : Value → Value
unfolding subscript
matrix job =
    subscript (codes "include") (subscript (codes "matrix") (subscript (codes "strategy") job))

-- `walk_scalars`: the texts of a value and the keys of its dicts, but nothing of a tuple.
unfoldable mutual
  pub walk_scalars : Value → List Text
  walk_scalars (text t) = t ∷ []
  walk_scalars (items vs) = walk_items vs
  walk_scalars (mapping fs) = walk_fields fs
  walk_scalars _ = []

  pub walk_items : Items → List Text
  walk_items nil = []
  walk_items (cons v vs) = walk_scalars v ++ walk_items vs

  pub walk_fields : Fields → List Text
  walk_fields end = []
  walk_fields (field key v fs) = key ∷ walk_scalars v ++ walk_fields fs

unfoldable pub step_identity : Value → Text × Value
unfolding lookup get_or
step_identity (mapping step) = elim (lookup (codes "uses") step) [
  | some action ↦ (codes "uses", action)
  | none ↦ (codes "name", get_or null (codes "name") step)
]
step_identity _ = (codes "invalid", null)

unfoldable pub step_identities : Value → List (Text × Value)
unfolding step_identity job_steps
step_identities job = map step_identity (job_steps job)
