-- ===== src/Workflow/Release.antt =====
-- `audit_release_workflow` of scripts/release-audit.py, in the order of its sections.
pub mod Jobs
pub mod Table
pub mod Commands
pub mod Scan
pub mod Sound
use rpmz.Base.{
  ℕ, zero, suc, ◌+◌, ◌-◌, ◌*◌, ◌/◌, ◌%◌, ◌≤◌, ◌<◌, String, ◌≡◌, refl, sym, ap, ◌∙◌, subst, ◌≢◌, ◌↔◌,
  ◌⊎◌, inl, inr, Bool, true, false, not, ◌&&◌, ◌||◌, Option, none, some, List, [], ◌∷◌, ◌++◌, map,
  append_assoc, append-nil, arith, ltb, leb, ◌==◌, if◌then◌else◌, ==_iff, ==_refl, Bool-cases,
  Option-cases, List-cases, and-true, or-true, not-true, length, get_elem?, take, drop, replicate,
  any, every, All, In, here, there, In-cons, not-In-nil, In-append_left, In-append_right,
  In-append_cases, length-append, length-drop, length-take_of_le, length-replicate,
  take-append-drop, if-cases, All-append, All-imp, every-All, length-map, Text, codes, texts,
  text_eq, text_eq_iff, text_eq_refl, starts_with, starts_with-append, starts_with-eq, ends_with,
  contains, is_space, lstrip, rstrip, strip, split, join, lower, mem, subset, set_eq, mem_self,
  mem-cons, mem-append, mem-subset, subset_intro, set_eq_iff, Outcome, ok, raise, ◌>>=◌, ◌>>◌,
  guard, >>=-eq-ok, guard-eq-ok, for_each, then-eq-ok, >>-eq-ok, for_each-In, for_each-All,
  for_each-guard, for_each_intro, is_digit, is_word, starts_name, is_hex, drop_while, cut,
  take_while, take_while-append-drop_while, after, word_ends, search, find_all, is_some, match_word,
  expand,
}
use rpmz.Workflow.Values.{
  Value, null, boolean, text, items, mapping, Items, nil, cons, Fields, end, field, lookup, has_key,
  keys, value_eq,
}
use rpmz.Workflow.Steps.{
  Crash, wrong_type, Problem, changed, in_job, in_step, forbidden_token, signing_capability,
  Checked, expect, each_of, str, dict, list, to_list, platforms, ghr_install_action,
  zig_install_env, zig_install_inputs, signing_commands, get_or, get, is_in, elements, same_set,
  job_steps, named_step, action_step, step_has, audit_zig_install, scalar_lines, shell_lines,
  same_lines, step_runs, matrix, walk_fields, step_identities,
}
use rpmz.Workflow.Release.Jobs.{
  audit_root, audit_job_set, audit_reading_job, reading_jobs, audit_release_job, audit_platforms,
  job_of,
}
use rpmz.Workflow.Release.Table.{plans, audit_plan}
use rpmz.Workflow.Release.Commands.{
  all_jobs, audit_version, audit_build, audit_source_job, audit_artifacts, audit_attestation,
  audit_create, audit_smoke,
}
use rpmz.Workflow.Release.Scan.{audit_envs, audit_scalars}

-- The sections behind the check that `jobs` is a dict. What crashes in one of them lets no message through.
unfoldable pub audit_jobs : Fields → Fields → List Checked
unfolding audit_root audit_job_set audit_reading_job reading_jobs audit_release_job audit_platforms
    job_of plans audit_plan all_jobs audit_version audit_build audit_source_job audit_artifacts
    audit_attestation audit_create audit_smoke audit_envs audit_scalars each_of walk_fields
audit_jobs document jobs =
    ok (audit_root document)
    ∷ ok (audit_job_set jobs)
    ∷ each_of (map (audit_reading_job jobs) reading_jobs)
    ∷ audit_release_job jobs
    ∷ audit_platforms jobs
    ∷ each_of (map (audit_plan jobs) plans)
    ∷ each_of (map (λ name. ok (audit_version jobs name)) all_jobs)
    ∷ ok (audit_build (job_of jobs (codes "build")))
    ∷ ok (audit_source_job (job_of jobs (codes "source")))
    ∷ ok (
        audit_artifacts (job_of jobs (codes "build")) (job_of jobs (codes "source"))
          (job_of jobs (codes "release")))
    ∷ ok (audit_attestation (job_of jobs (codes "release")))
    ∷ audit_create (job_of jobs (codes "release"))
    ∷ audit_smoke (job_of jobs (codes "post-release-smoke"))
    ∷ each_of (audit_envs jobs)
    ∷ ok (audit_scalars (walk_fields document))
    ∷ []

unfoldable pub audit_release_workflow : Fields → Checked
unfolding audit_root audit_jobs each_of get_or
audit_release_workflow document = elim (get_or null (codes "jobs") document) [
  | mapping jobs ↦ each_of (audit_jobs document jobs)
  | _ ↦ ok (audit_root document ++ (changed "release workflow jobs must be a mapping" ∷ []))
]
