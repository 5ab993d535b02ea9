-- ===== src/Workflow/Release/Sound.antt =====
-- What a silent `audit_release_workflow` says of each section.
use rpmz.Base.{
  ℕ, zero, suc, ◌+◌, ◌-◌, ◌*◌, ◌/◌, ◌%◌, ◌≤◌, ◌<◌, String, ◌≡◌, refl, sym, ap, ◌∙◌, subst, ◌≢◌, ◌↔◌,
  ◌⊎◌, inl, inr, Bool, true, false, not, ◌&&◌, ◌||◌, Option, none, some, List, [], ◌∷◌, ◌++◌, map,
  append_assoc, append-nil, arith, ltb, leb, ◌==◌, if◌then◌else◌, ==_iff, ==_refl, Bool-cases,
  Option-cases, List-cases, and-true, or-true, not-true, length, get_elem?, take, drop, replicate,
  any, every, All, In, here, there, In-cons, not-In-nil, In-append_left, In-append_right,
  In-append_cases, length-append, length-drop, length-take_of_le, length-replicate,
  take-append-drop, if-cases, All-append, All-imp, every-All, length-map, Text, codes, texts,
  text_eq, text_eq_iff, text_eq_refl, starts_with, starts_with-append, starts_with-eq, ends_with,
  contains, is_space, lstrip, rstrip, strip, split, join, lower, mem, subset, set_eq, mem_self,
  mem-cons, mem-append, mem-subset, subset_intro, set_eq_iff, Outcome, ok, raise, ◌>>=◌, ◌>>◌,
  guard, >>=-eq-ok, guard-eq-ok, for_each, then-eq-ok, >>-eq-ok, for_each-In, for_each-All,
  for_each-guard, for_each_intro, is_digit, is_word, starts_name, is_hex, drop_while, cut,
  take_while, take_while-append-drop_while, after, word_ends, search, find_all, is_some, match_word,
  expand,
}
pub mod Scalars
pub mod Permissions
pub mod Actions
pub mod Environment
use rpmz.Workflow.Values.{
  Value, null, boolean, text, items, mapping, tuple, other_literal, Items, nil, cons, Fields, end,
  field, lookup, has_key, keys, value_eq,
}
use rpmz.Workflow.Steps.{
  Crash, wrong_type, Problem, changed, in_job, in_step, forbidden_token, signing_capability,
  Checked, expect, each_of, str, dict, list, to_list, platforms, ghr_install_action,
  zig_install_env, zig_install_inputs, signing_commands, get_or, get, is_in, elements, same_set,
  job_steps, named_step, action_step, step_has, audit_zig_install, scalar_lines, shell_lines,
  same_lines, step_runs, matrix, walk_fields, step_identities,
}
use rpmz.Workflow.Steps.Sound.{append-nothing, expect-nothing, each_of-nothing}
use rpmz.Workflow.Release.{audit_jobs, audit_release_workflow}
use rpmz.Workflow.Release.Jobs.{
  audit_root, audit_job_set, audit_reading_job, reading_jobs, audit_release_job, audit_platforms,
  job_of, expected_jobs, read_permissions, write_permissions,
}
use rpmz.Workflow.Release.Table.{JobPlan, plan, plans, audit_plan, identities_eq}
use rpmz.Workflow.Release.Scan.{
  audit_env, audit_envs, audit_scalars, audit_scalar, expected_env, env_matches, find_token,
  forbidden, signing_words, words_from,
}

-- No message, so there are jobs and no section has one.
pub audit_release_workflow-sections :
    (document : Fields)
    → audit_release_workflow document ≡ ok []
    → (jobs : Fields) × (get_or null (codes "jobs") document ≡ mapping jobs)
      × All (λ check. check ≡ ok []) (audit_jobs document jobs)
unfolding audit_release_workflow
audit_release_workflow-sections document silent =
    go (get_or null (codes "jobs") document) refl silent
  where
    spoken : (ps : List Problem) (p : Problem) → ◌≡◌ {A = Checked} (ok (ps ++ (p ∷ []))) (ok []) → ⊥
    spoken [] p h = cc
    spoken (x ∷ ps) p h = cc

    go :
        (v : Value)
        → get_or null (codes "jobs") document ≡ v
        → (elim v [
          | mapping jobs ↦ each_of (audit_jobs document jobs)
          | _ ↦ ok (audit_root document ++ (changed "release workflow jobs must be a mapping" ∷ []))
        ])
          ≡ ok []
        → (jobs : Fields) × (get_or null (codes "jobs") document ≡ mapping jobs)
          × All (λ check. check ≡ ok []) (audit_jobs document jobs)
    go (mapping jobs) e h = (jobs, e, each_of-nothing (audit_jobs document jobs) h)
    go null e h = absurd (spoken (audit_root document) _ h)
    go (boolean b) e h = absurd (spoken (audit_root document) _ h)
    go (text t) e h = absurd (spoken (audit_root document) _ h)
    go (items vs) e h = absurd (spoken (audit_root document) _ h)
    go (tuple vs) e h = absurd (spoken (audit_root document) _ h)
    go (other_literal b n) e h = absurd (spoken (audit_root document) _ h)

pub get_or-lookup :
    (default v : Value) (key : Text) (fs : Fields)
    → lookup key fs ≡ some v
    → get_or default key fs ≡ v
unfolding get_or
get_or-lookup default v key fs h = rw (h, get_or) refl

-- The sections for the jobs that the document has.
pub jobs_sections :
    (document jobs : Fields)
    → audit_release_workflow document ≡ ok []
    → lookup (codes "jobs") document ≡ some (mapping jobs)
    → All (λ check. check ≡ ok []) (audit_jobs document jobs)
jobs_sections document jobs silent h =
    let (found, e, parts) = audit_release_workflow-sections document silent in
    go found (cc (e, get_or-lookup null (mapping jobs) (codes "jobs") document h)) parts
  where
    go :
        (found : Fields)
        → found ≡ jobs
        → All (λ check. check ≡ ok []) (audit_jobs document found)
        → All (λ check. check ≡ ok []) (audit_jobs document jobs)
    go found e parts = subst (λ fs. All (λ check. check ≡ ok []) (audit_jobs document fs)) e parts
