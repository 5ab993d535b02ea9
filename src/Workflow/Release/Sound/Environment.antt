-- ===== src/Workflow/Release/Sound/Environment.antt =====
-- Which steps have an environment.
use rpmz.Base.{
  ◌≡◌, refl, ◌⊎◌, inl, inr, Bool, true, false, ◌&&◌, none, some, [], ◌∷◌, map, if◌then◌else◌,
  not-true, All, In, Text, codes, text_eq, text_eq_iff, ok,
}
use rpmz.Workflow.Values.{
  Value, null, boolean, text, items, mapping, tuple, other_literal, Fields, end, field, lookup,
  has_key, value_eq,
}
use rpmz.Workflow.Steps.{each_of, str, dict, ghr_install_action, zig_install_env, get_or, job_steps}
use rpmz.Workflow.Steps.Sound.{expect-nothing, each_of-nothing, ok-nothing, step-nothing}
use rpmz.Workflow.Release.{audit_jobs, audit_release_workflow}
use rpmz.Workflow.Release.Scan.{audit_env, audit_envs, expected_env, env_matches}
use rpmz.Workflow.Release.Sound.{jobs_sections}

-- The steps of a job, among those of all jobs.
audit_envs-lookup :
    (jobs : Fields) (name : Text) (job : Value)
    → lookup name jobs ≡ some job
    → All (λ check. check ≡ ok []) (audit_envs jobs)
    → each_of (map (audit_env name) (job_steps job)) ≡ ok []
unfolding lookup audit_envs
audit_envs-lookup end name job h all = cc
audit_envs-lookup (field k v jobs) name job h all =
    go (text_eq name k) (text_eq_iff name k).0 h (audit_envs-lookup jobs name job)
  where
    go :
        (b : Bool)
        → (b ≡ true → name ≡ k)
        → (if b then some v else lookup name jobs) ≡ some job
        → (lookup name jobs ≡ some job
            → All (λ check. check ≡ ok []) (audit_envs jobs)
            → each_of (map (audit_env name) (job_steps job)) ≡ ok [])
        → each_of (map (audit_env name) (job_steps job)) ≡ ok []
    go true same e rec = cc (all.0, same refl)
    go false same e rec = rec e all.1

-- What a silent check says of a step.
audit_env_lem :
    (name : Text) (step : Value)
    → audit_env name step ≡ ok []
    → (fields : Fields) × (step ≡ mapping fields)
      × (env_matches (expected_env name fields) fields ≡ true)
unfolding audit_env
audit_env_lem name (mapping fields) h = (
  fields,
  refl,
  expect-nothing (env_matches (expected_env name fields) fields) _ (ok-nothing _ h),
)
audit_env_lem name null h = cc
audit_env_lem name (boolean b) h = cc
audit_env_lem name (text t) h = cc
audit_env_lem name (items vs) h = cc
audit_env_lem name (tuple vs) h = cc
audit_env_lem name (other_literal b n) h = cc

-- The environment that a step of a job may have.
unfoldable pub HasEnv : Text → Fields → Type 0
HasEnv name fields =
    (has_key (codes "env") fields ≡ false)
    ⊎ ((name ≡ codes "build")
        × (value_eq (get_or null (codes "uses") fields) (text ghr_install_action) ≡ true)
        × (value_eq (get_or null (codes "env") fields) zig_install_env ≡ true))
    ⊎ ((name ≡ codes "post-release-smoke")
        × (value_eq (get_or null (codes "name") fields) (str "Install and audit published release")
            ≡ true)
        × (value_eq (get_or null (codes "env") fields)
              (mapping (dict (("GH_TOKEN", str "${{ secrets.GITHUB_TOKEN }}") ∷ [])))
            ≡ true))

env_matches-HasEnv :
    (name : Text) (fields : Fields)
    → env_matches (expected_env name fields) fields ≡ true
    → HasEnv name fields
unfolding expected_env HasEnv
env_matches-HasEnv name fields h =
    go (text_eq name (codes "build"))
      (value_eq (get_or null (codes "uses") fields) (text ghr_install_action))
      (text_eq name (codes "post-release-smoke"))
      (value_eq (get_or null (codes "name") fields) (str "Install and audit published release"))
      (text_eq_iff name (codes "build")).0 (text_eq_iff name (codes "post-release-smoke")).0 h
  where
    go :
        (a b c d : Bool)
        → (a ≡ true → name ≡ codes "build")
        → (c ≡ true → name ≡ codes "post-release-smoke")
        → env_matches
            (if a && b
              then some zig_install_env
              else if c && d
              then some (mapping (dict (("GH_TOKEN", str "${{ secrets.GITHUB_TOKEN }}") ∷ [])))
              else none)
            fields
          ≡ true
        → (has_key (codes "env") fields ≡ false)
          ⊎ ((name ≡ codes "build")
              × (b ≡ true)
              × (value_eq (get_or null (codes "env") fields) zig_install_env ≡ true))
          ⊎ ((name ≡ codes "post-release-smoke")
              × (d ≡ true)
              × (value_eq
                    (get_or null (codes "env") fields)
                    (mapping (dict (("GH_TOKEN", str "${{ secrets.GITHUB_TOKEN }}") ∷ [])))
                  ≡ true))
    go true true c d f g e = inr (inl (f refl, refl, (unfold env_matches in e)))
    go true false true true f g e = inr (inr (g refl, refl, (unfold env_matches in e)))
    go false b true true f g e = inr (inr (g refl, refl, (unfold env_matches in e)))
    go true false false d f g e =
        inl (not-true (has_key (codes "env") fields) (unfold env_matches in e))
    go false b false d f g e =
        inl (not-true (has_key (codes "env") fields) (unfold env_matches in e))
    go true false true false f g e =
        inl (not-true (has_key (codes "env") fields) (unfold env_matches in e))
    go false b true false f g e =
        inl (not-true (has_key (codes "env") fields) (unfold env_matches in e))

-- In a release workflow without messages a step of a job has no environment, or it is the step of `build`
-- that installs Zig with the token of the workflow, or the step of `post-release-smoke` that tries the
-- release with the read-scoped token.
pub audit_release_workflow-environment :
    (document jobs : Fields) (name : Text) (job step : Value)
    → audit_release_workflow document ≡ ok []
    → lookup (codes "jobs") document ≡ some (mapping jobs)
    → lookup name jobs ≡ some job
    → In step (job_steps job)
    → (fields : Fields) × (step ≡ mapping fields) × HasEnv name fields
unfolding audit_jobs
audit_release_workflow-environment document jobs name job step silent is_jobs is_job i =
    let parts = jobs_sections document jobs silent is_jobs in
    let envs = each_of-nothing (audit_envs jobs) parts.1.1.1.1.1.1.1.1.1.1.1.1.1.0 in
    let steps =
      each_of-nothing (map (audit_env name) (job_steps job))
        (audit_envs-lookup jobs name job is_job envs) in
    let (fields, e, env) =
      audit_env_lem name step (step-nothing (audit_env name) (job_steps job) step i steps) in
    (fields, e, env_matches-HasEnv name fields env)
