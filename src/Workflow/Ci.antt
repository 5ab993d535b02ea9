-- ===== src/Workflow/Ci.antt =====
-- `audit_ci_workflow` of scripts/release-audit.py, and the part of `audit` that reads the two workflows.
use rpmz.Base.{
  ℕ, zero, suc, ◌+◌, ◌-◌, ◌*◌, ◌/◌, ◌%◌, ◌≤◌, ◌<◌, String, ◌≡◌, refl, sym, ap, ◌∙◌, subst, ◌≢◌, ◌↔◌,
  ◌⊎◌, inl, inr, Bool, true, false, not, ◌&&◌, ◌||◌, Option, none, some, List, [], ◌∷◌, ◌++◌, map,
  append_assoc, append-nil, arith, ltb, leb, ◌==◌, if◌then◌else◌, ==_iff, ==_refl, Bool-cases,
  Option-cases, List-cases, and-true, or-true, not-true, length, get_elem?, take, drop, replicate,
  any, every, All, In, here, there, In-cons, not-In-nil, In-append_left, In-append_right,
  In-append_cases, length-append, length-drop, length-take_of_le, length-replicate,
  take-append-drop, if-cases, All-append, All-imp, every-All, length-map, Text, codes, texts,
  text_eq, text_eq_iff, text_eq_refl, starts_with, starts_with-append, starts_with-eq, ends_with,
  contains, is_space, lstrip, rstrip, strip, split, join, lower, mem, subset, set_eq, mem_self,
  mem-cons, mem-append, mem-subset, subset_intro, set_eq_iff, Outcome, ok, raise, ◌>>=◌, ◌>>◌,
  guard, >>=-eq-ok, guard-eq-ok, for_each, then-eq-ok, >>-eq-ok, for_each-In, for_each-All,
  for_each-guard, for_each_intro, is_digit, is_word, starts_name, is_hex, drop_while, cut,
  take_while, take_while-append-drop_while, after, word_ends, search, find_all, is_some, match_word,
  expand,
}
pub mod Sound
pub mod Verdicts
use rpmz.Workflow.Values.{
  Value, null, boolean, text, items, mapping, Items, nil, cons, Fields, end, field, lookup, has_key,
  keys, value_eq,
}
use rpmz.Workflow.Steps.{
  Crash, wrong_type, Problem, changed, in_job, in_step, forbidden_token, signing_capability,
  Checked, expect, each_of, str, dict, list, to_list, platforms, ghr_install_action,
  zig_install_env, zig_install_inputs, signing_commands, get_or, get, is_in, elements, same_set,
  job_steps, named_step, action_step, step_has, audit_zig_install, scalar_lines, shell_lines,
  same_lines, step_runs, matrix, walk_fields, step_identities,
}
use rpmz.Workflow.Values.{value_eq}
use rpmz.Workflow.Steps.{Crash, not_in_list, get}
use rpmz.Workflow.Lines.{YamlError}
use rpmz.Workflow.Parser.{parse_workflow}
use rpmz.Workflow.Release.{audit_release_workflow}
use rpmz.Workflow.Release.Jobs.{keeps_read_token, read_permissions}

-- `list.index`
unfoldable pub index : Value → List Value → Outcome Crash ℕ
unfolding value_eq
index v [] = raise not_in_list
index v (w ∷ ws) = if value_eq w v then ok 0 else (index v ws >>= λ n. ok (suc n))

-- `install is not None and cache is not None and ...`
unfoldable pub is_behind : Value → Option Fields → Option Fields → Outcome Crash Bool
unfolding index job_steps
is_behind job (some install) (some cache) = do
  i ← index (mapping install) (job_steps job)
  j ← index (mapping cache) (job_steps job)
  ok (ltb i j)
is_behind job _ _ = ok false

unfoldable pub zig_jobs : List Text
zig_jobs = texts ("build-and-test" ∷ "no-rpm-development" ∷ "release-dry-run" ∷ [])

-- `jobs.get(name, {})`, where `jobs` may be no dict
unfoldable pub ci_job : Value → Text → Outcome Crash Value
unfolding get_or
ci_job (mapping jobs) name = ok (get_or (mapping end) name jobs)
ci_job _ name = raise wrong_type

-- A job installs Zig and configures its caches behind that.
unfoldable pub audit_zig_job : Value → Text → Checked
unfolding ci_job audit_zig_install action_step is_behind expect
audit_zig_job jobs name = do
  job ← ci_job jobs name
  behind ←
      is_behind job (audit_zig_install job name).1
        (action_step job (codes "./.github/actions/zig-cache"))
  ok (
      (audit_zig_install job name).0
      ++ expect behind (in_job name "must configure Zig caches after installation"))

-- The dry run of a release.
unfoldable pub audit_dry_run : Value → Checked
unfolding ci_job is_in expect keeps_read_token action_step named_step step_runs
audit_dry_run jobs = do
  dry_run ← ci_job jobs (codes "release-dry-run")
  given ← is_in (codes "permissions") dry_run
  ok (
      expect (not given) (changed "release dry-run must inherit read-only CI permissions")
      ++ expect (keeps_read_token (action_step dry_run (codes "actions/checkout@")))
          (changed "release dry-run checkout must retain only the read-scoped token")
      ++ expect
          (step_runs (named_step dry_run (codes "Package and verify v0.1.0 locally")) (
            "zig build -j2 -Doptimize=safe -Dversion=0.1.0 \\"
            ∷ "release-dry-run --prefix ./release-install" ∷ []))
          (changed "CI release dry-run command changed"))

unfoldable pub audit_ci_root : Fields → List Problem
unfolding expect set_eq keys get_or value_eq read_permissions
audit_ci_root document =
    expect (set_eq (keys document) (texts ("name" ∷ "on" ∷ "permissions" ∷ "jobs" ∷ [])))
      (changed "CI workflow root key allowlist changed")
    ++ expect (value_eq (get_or null (codes "permissions") document) read_permissions)
        (changed "CI workflow default permissions must be read-only")

unfoldable pub audit_ci_workflow : Fields → Checked
unfolding audit_ci_root get_or each_of audit_zig_job zig_jobs audit_dry_run
audit_ci_workflow document =
    let jobs = get_or (mapping end) (codes "jobs") document in
    each_of (
      ok (audit_ci_root document)
      ∷ each_of (map (audit_zig_job jobs) zig_jobs)
      ∷ audit_dry_run jobs
      ∷ [])

-- What the first part of `audit` gives: what is wrong with the two files, or that one cannot be read.
pub data Verdict : Type 0 where
  unreadable : YamlError → Verdict
  problems : List Problem → Verdict

-- The documents of the two workflows.
unfoldable pub read_both :
    (Text → Outcome YamlError Value) → Text → Text → Outcome YamlError (Fields × Fields)
unfolding parse_workflow
read_both literal release_source ci_source = do
  release ← parse_workflow literal release_source
  ci ← parse_workflow literal ci_source
  ok (release, ci)

-- The reading of the two workflows and their audits.
unfoldable pub audit_workflows :
    (Text → Outcome YamlError Value) → Text → Text → Outcome Crash Verdict
unfolding read_both audit_release_workflow audit_ci_workflow
audit_workflows literal release_source ci_source =
    elim (read_both literal release_source ci_source) [
      | raise error ↦ ok (unreadable error)
      | ok (release, ci) ↦ do
        of_release ← audit_release_workflow release
        of_ci ← audit_ci_workflow ci
        ok (problems (of_release ++ of_ci))
    ]
