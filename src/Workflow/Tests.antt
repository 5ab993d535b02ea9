-- ===== src/Workflow/Tests.antt =====
-- Runs of the reader and of the audits.
use rpmz.Base.{
  ◌≡◌, refl, ◌⊎◌, Bool, true, false, none, some, [], ◌∷◌, In, here, there, Text, codes, mem,
  Outcome, ok, raise,
}
use rpmz.Workflow.Values.{Value, null, text, items, mapping, nil, cons, Fields, end, field}
use rpmz.Workflow.Lines.{YamlError}
use rpmz.Workflow.Parser.{parse_workflow}
use rpmz.Workflow.Release.{audit_release_workflow}
use rpmz.Workflow.Ci.{audit_workflows, problems}
use rpmz.Workflow.Distinct.{IsDistinct, KeysDistinct}
use rpmz.Workflow.Scalars.Ends.{Ends}
use rpmz.Workflow.Parser.Ends.{parse_workflow-Ends}
use rpmz.Workflow.Values.{has_key, lookup, tuple, value_eq}
use rpmz.Workflow.Steps.{get_or, job_steps, walk_scalars, str, list}
use rpmz.Workflow.Release.Jobs.{read_permissions, write_permissions}
use rpmz.Workflow.Release.Sound.Scalars.{
  Holds, key, in_value, IsAllowed, audit_release_workflow-scalars,
}
use rpmz.Workflow.Release.Sound.Permissions.{audit_release_workflow-permissions}
use rpmz.Workflow.Release.Sound.Actions.{pinned_actions, audit_release_workflow-actions}
use rpmz.Workflow.Release.Sound.Environment.{HasEnv, audit_release_workflow-environment}
use rpmz.Workflow.Ci.Verdicts.{IsJustified, audit_workflows-IsJustified}
use rpmz.Workflow.Samples.{unquote, release, ci}

abbrev small : Text
small =
    codes
      "# c\non:\n  push:\n    tags: ['v*', x]\njobs:\n  a:\n    - uses: y # z\n      with:\n        q: >-\n          l1\n          l2\n    - b\n"

read_small :
    parse_workflow unquote small
    ≡ ok (
        field
          (codes "on")
          (mapping (
            field
              (codes "push")
              (mapping (
                field
                  (codes "tags")
                  (items (cons (text (codes "v*")) (cons (text (codes "x")) nil)))
                  end))
              end))
          (field
            (codes "jobs")
            (mapping (
              field
                (codes "a")
                (items (
                  cons
                    (mapping (
                      field (codes "uses") (text (codes "y")) (
                        field
                          (codes "with")
                          (mapping (field (codes "q") (text (codes "l1 l2")) end))
                          end)))
                    (cons (text (codes "b")) nil)))
                end))
            end))
unfolding parse_workflow
read_small = refl

abbrev is_ok {ℓ κ} : {E : Type ℓ} {A : Type κ} → Outcome E A → Bool
is_ok (ok a) = true
is_ok (raise e) = false

read_release : is_ok (parse_workflow unquote release) ≡ true
unfolding parse_workflow
read_release = refl

audit_both : audit_workflows unquote release ci ≡ ok (problems [])
unfolding audit_workflows
audit_both = refl

-- Test data: the documents, jobs and steps of the repository's own workflows.
abbrev document_of : Outcome YamlError Fields → Fields
document_of (ok document) = document
document_of (raise e) = end

abbrev as_fields : Value → Fields
as_fields (mapping fs) = fs
as_fields _ = end

unfoldable release_document : Fields
unfolding parse_workflow
release_document = document_of (parse_workflow unquote release)

unfoldable release_jobs : Fields
unfolding release_document get_or
release_jobs = as_fields (get_or null (codes "jobs") release_document)

unfoldable release_job : Fields
unfolding release_jobs get_or
release_job = as_fields (get_or null (codes "release") release_jobs)

unfoldable ci_document : Fields
unfolding parse_workflow
ci_document = document_of (parse_workflow unquote ci)

unfoldable ci_jobs : Fields
unfolding ci_document get_or
ci_jobs = as_fields (get_or null (codes "jobs") ci_document)

unfoldable dry_run : Value
unfolding ci_jobs get_or
dry_run = get_or null (codes "release-dry-run") ci_jobs

unquote-Ends : (t : Text) → Ends IsDistinct (unquote t)
unfolding IsDistinct
unquote-Ends t = tt

parse_workflow-Ends_example : Ends KeysDistinct (parse_workflow unquote release)
parse_workflow-Ends_example = parse_workflow-Ends unquote unquote-Ends release

release_silent : audit_release_workflow release_document ≡ ok []
unfolding audit_release_workflow release_document
release_silent = refl

release_has_jobs : lookup (codes "jobs") release_document ≡ some (mapping release_jobs)
unfolding release_jobs lookup
release_has_jobs = refl

jobs_has_release : lookup (codes "release") release_jobs ≡ some (mapping release_job)
unfolding release_job lookup
jobs_has_release = refl

audit_release_workflow-permissions_example :
    (value_eq (get_or null (codes "permissions") release_document) read_permissions ≡ true)
    × ((has_key (codes "permissions") release_job ≡ false)
        ⊎ ((codes "release" ≡ codes "release")
            × (value_eq (get_or null (codes "permissions") release_job) write_permissions ≡ true)))
audit_release_workflow-permissions_example =
    audit_release_workflow-permissions release_document release_jobs release_job (codes "release")
      release_silent release_has_jobs jobs_has_release

-- The second step of `release` brings the archives of the other jobs.
unfoldable second : Value
unfolding release_job job_steps
second = elim (job_steps (mapping release_job)) [ x ∷ y ∷ xs ↦ y | _ ↦ null ]

second-In : In second (job_steps (mapping release_job))
unfolding second
second-In = there (here refl)

audit_release_workflow-actions_example :
    (fields : Fields) × (second ≡ mapping fields)
    × ((lookup (codes "uses") fields ≡ none)
        ⊎ ((action : Text) × (lookup (codes "uses") fields ≡ some (text action))
            × (mem action pinned_actions ≡ true)))
audit_release_workflow-actions_example =
    audit_release_workflow-actions release_document release_jobs (codes "release")
      (mapping release_job) second release_silent release_has_jobs jobs_has_release second-In

audit_release_workflow-environment_example :
    (fields : Fields) × (second ≡ mapping fields) × HasEnv (codes "release") fields
audit_release_workflow-environment_example =
    audit_release_workflow-environment release_document release_jobs (codes "release")
      (mapping release_job) second release_silent release_has_jobs jobs_has_release second-In

contents_held : Holds (codes "contents") (mapping release_document)
unfolding release_document lookup has_key
contents_held = in_value (codes "permissions") refl (key refl)

audit_release_workflow-scalars_example : IsAllowed (codes "contents")
audit_release_workflow-scalars_example =
    audit_release_workflow-scalars release_document (codes "contents") release_silent contents_held

-- The texts of a tuple are not among the scalars that are scanned.
tuple_unseen : walk_scalars (tuple (list (str "gpg" ∷ str "x" ∷ []))) ≡ []
unfolding walk_scalars
tuple_unseen = refl

audit_workflows-IsJustified_example : IsJustified unquote release ci (problems [])
audit_workflows-IsJustified_example =
    audit_workflows-IsJustified unquote unquote-Ends release ci (problems []) audit_both
