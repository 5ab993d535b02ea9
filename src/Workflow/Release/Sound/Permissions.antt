-- ===== src/Workflow/Release/Sound/Permissions.antt =====
-- Who may write.
use rpmz.Base.{
  ◌≡◌, refl, sym, ◌∙◌, ◌⊎◌, inl, inr, Bool, true, false, not, ◌||◌, some, List, [], map, arith,
  if◌then◌else◌, not-true, Text, codes, text_eq, text_eq_iff, mem, set_eq, set_eq_iff, ok,
}
use rpmz.Workflow.Values.{Value, null, mapping, Fields, end, field, lookup, has_key, keys, value_eq}
use rpmz.Workflow.Steps.{Problem, Checked, expect_all, get_or, get, is_in}
use rpmz.Workflow.Steps.Sound.{
  expect-nothing, each_of-nothing, ok-nothing, expect_all-nothing, named-nothing,
  expect-append-nothing,
}
use rpmz.Workflow.Release.{audit_jobs, audit_release_workflow}
use rpmz.Workflow.Release.Jobs.{
  audit_root, root_checks, release_checks, audit_job_set, audit_reading_job, reading_jobs,
  audit_release_job, job_of, expected_jobs, read_permissions, write_permissions,
}
use rpmz.Workflow.Release.Sound.{get_or-lookup, jobs_sections}

lookup-mem :
    (key : Text) (fs : Fields) (v : Value) → lookup key fs ≡ some v → mem key (keys fs) ≡ true
unfolding lookup keys mem
lookup-mem key end v h = cc
lookup-mem key (field k w fs) v h = go (text_eq key k) (lookup-mem key fs v) h
  where
    go :
        (b : Bool)
        → (lookup key fs ≡ some v → mem key (keys fs) ≡ true)
        → (if b then some w else lookup key fs) ≡ some v
        → (b || mem key (keys fs)) ≡ true
    go true rec e = refl
    go false rec e = rec e

-- A workflow without messages has the four jobs.
pub job_names :
    (jobs : Fields) (name : Text) (job : Value)
    → audit_job_set jobs ≡ []
    → lookup name jobs ≡ some job
    → mem name expected_jobs ≡ true
unfolding audit_job_set
job_names jobs name job silent h =
    sym (
      (set_eq_iff (keys jobs) expected_jobs).0
        (expect-nothing (set_eq (keys jobs) expected_jobs) _ silent) name)
    ∙ lookup-mem name jobs job h

one_of_four :
    (name : Text)
    → mem name expected_jobs ≡ true
    → (name ≡ codes "release") ⊎ (mem name reading_jobs ≡ true)
unfolding mem expected_jobs reading_jobs
one_of_four name h =
    elim (third (text_eq name (codes "build")) (text_eq name (codes "source"))
      (text_eq name (codes "release")) (text_eq name (codes "post-release-smoke")) h) [
        | inl e ↦ inl ((text_eq_iff name (codes "release")).0 e)
        | inr e ↦ inr e
      ]
  where
    third :
        (a b c d : Bool)
        → (a || (b || (c || (d || false)))) ≡ true
        → (c ≡ true) ⊎ ((a || (b || (d || false))) ≡ true)
    third a b c d k = ground arith

-- A job that reads has no permissions of its own.
audit_reading_job_lem :
    (jobs job : Fields) (name : Text)
    → lookup name jobs ≡ some (mapping job)
    → audit_reading_job jobs name ≡ ok []
    → has_key (codes "permissions") job ≡ false
unfolding audit_reading_job job_of is_in
audit_reading_job_lem jobs job name h silent =
    not-true (has_key (codes "permissions") job)
      (expect-append-nothing (not (has_key (codes "permissions") job)) _ _
        (ok-nothing _ (rw (get_or-lookup (mapping end) (mapping job) name jobs h) at silent))).0

-- The job that writes has exactly the three permissions.
audit_release_job_lem :
    (jobs job : Fields)
    → lookup (codes "release") jobs ≡ some (mapping job)
    → audit_release_job jobs ≡ ok []
    → value_eq (get_or null (codes "permissions") job) write_permissions ≡ true
unfolding audit_release_job job_of get release_checks
audit_release_job_lem jobs job h silent =
    (expect_all-nothing checks (ok-nothing (expect_all checks) said)).0
  where
    checks : List (Bool × Problem)
    checks =
        release_checks (mapping job) (get_or null (codes "permissions") job)
          (get_or null (codes "needs") job)

    said : ◌≡◌ {A = Checked} (ok (expect_all checks)) (ok [])
    said = rw (get_or-lookup (mapping end) (mapping job) (codes "release") jobs h) at silent

audit_root_lem :
    (document : Fields)
    → audit_root document ≡ []
    → value_eq (get_or null (codes "permissions") document) read_permissions ≡ true
unfolding audit_root root_checks
audit_root_lem document silent = (expect_all-nothing (root_checks document) silent).1.1.1.0

-- A release workflow without messages grants the jobs permissions to read; a job that is a dict has permissions of its
-- own only if it is `release`, and these are the three that a release needs.
pub audit_release_workflow-permissions :
    (document jobs job : Fields) (name : Text)
    → audit_release_workflow document ≡ ok []
    → lookup (codes "jobs") document ≡ some (mapping jobs)
    → lookup name jobs ≡ some (mapping job)
    → (value_eq (get_or null (codes "permissions") document) read_permissions ≡ true)
      × ((has_key (codes "permissions") job ≡ false)
          ⊎ ((name ≡ codes "release")
              × (value_eq (get_or null (codes "permissions") job) write_permissions ≡ true)))
unfolding audit_jobs
audit_release_workflow-permissions document jobs job name silent is_jobs is_job =
    let parts = jobs_sections document jobs silent is_jobs in
    (
      audit_root_lem document (ok-nothing (audit_root document) parts.0),
      elim (one_of_four name
          (job_names jobs name (mapping job) (ok-nothing (audit_job_set jobs) parts.1.0) is_job)) [
            | inl n ↦ inr (n, audit_release_job_lem jobs job (cc (n, is_job)) parts.1.1.1.0)
            | inr r ↦ inl (
                audit_reading_job_lem jobs job name is_job (
                  named-nothing (audit_reading_job jobs) reading_jobs name r
                    (each_of-nothing (map (audit_reading_job jobs) reading_jobs) parts.1.1.0)))
          ],
    )
