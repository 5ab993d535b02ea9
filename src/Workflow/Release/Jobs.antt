-- ===== src/Workflow/Release/Jobs.antt =====
-- The root keys, the permissions and the platforms that `audit_release_workflow` of
-- scripts/release-audit.py asks for.
use rpmz.Base.{
  Bool, false, not, Option, none, some, List, [], ◌∷◌, ◌++◌, Text, codes, texts, set_eq, ok, ◌>>=◌,
}
use rpmz.Workflow.Values.{
  Value, null, boolean, items, mapping, Fields, end, has_key, keys, value_eq,
}
use rpmz.Workflow.Steps.{
  Problem, changed, in_job, Checked, expect, expect_all, str, dict, list, platforms, get_or, get,
  is_in, action_step, step_has, matrix,
}

unfoldable pub read_permissions : Value
read_permissions = mapping (dict (("contents", str "read") ∷ ("attestations", str "read") ∷ []))

unfoldable pub write_permissions : Value
write_permissions = mapping (
    dict
      (("contents", str "write") ∷ ("id-token", str "write") ∷ ("attestations", str "write") ∷ []))

-- What is asked of the root: its keys, the name, the trigger and the default permissions.
unfoldable pub root_checks : Fields → List (Bool × Problem)
unfolding set_eq keys get_or value_eq read_permissions
root_checks document =
    (
      set_eq (keys document) (texts ("name" ∷ "on" ∷ "permissions" ∷ "jobs" ∷ [])),
      changed "release workflow root key allowlist changed",
    )
    ∷ (
      value_eq (get_or null (codes "name") document) (str "Release"),
      changed "release workflow name must be Release",
    )
    ∷ (
      value_eq (get_or null (codes "on") document) (
          mapping
            (dict (("push", mapping (dict (("tags", items (list (str "v*" ∷ []))) ∷ []))) ∷ []))),
      changed "release workflow must trigger only on pushed v* tags",
    )
    ∷ (
      value_eq (get_or null (codes "permissions") document) read_permissions,
      changed "release workflow default permissions must be read-only",
    )
    ∷ []

unfoldable pub audit_root : Fields → List Problem
unfolding expect_all root_checks
audit_root document = expect_all (root_checks document)

unfoldable pub expected_jobs : List Text
expected_jobs = texts ("build" ∷ "source" ∷ "release" ∷ "post-release-smoke" ∷ [])

unfoldable pub audit_job_set : Fields → List Problem
unfolding expect set_eq keys expected_jobs
audit_job_set jobs =
    expect (set_eq (keys jobs) expected_jobs) (changed "release workflow job set changed")

-- `jobs.get(name, {})`
unfoldable pub job_of : Fields → Text → Value
unfolding get_or
job_of jobs name = get_or (mapping end) name jobs

-- `checkout is not None and "with" not in checkout`
unfoldable pub keeps_read_token : Option Fields → Bool
unfolding has_key
keeps_read_token none = false
keeps_read_token (some step) = not (has_key (codes "with") step)

unfoldable pub reading_jobs : List Text
reading_jobs = texts ("build" ∷ "source" ∷ "post-release-smoke" ∷ [])

-- A job that has only the permissions of the workflow.
unfoldable pub audit_reading_job : Fields → Text → Checked
unfolding expect job_of is_in keeps_read_token action_step
audit_reading_job jobs name = do
  given ← is_in (codes "permissions") (job_of jobs name)
  ok (
      expect (not given) (in_job name "must inherit read-only workflow permissions")
      ++ expect (keeps_read_token (action_step (job_of jobs name) (codes "actions/checkout@")))
          (in_job name "checkout must retain only the read-scoped token"))

-- What is asked of the job that writes, given its permissions and what it needs.
unfoldable pub release_checks : Value → Value → Value → List (Bool × Problem)
unfolding value_eq write_permissions action_step step_has
release_checks release permissions needs =
    (
      value_eq permissions write_permissions,
      changed "release job must have the only write/OIDC/attestation permissions",
    )
    ∷ (
      value_eq needs (items (list (str "build" ∷ str "source" ∷ []))),
      changed "release job must need build and source",
    )
    ∷ (
      step_has (action_step release (codes "actions/checkout@")) (codes "with")
          (mapping (dict (("persist-credentials", boolean false) ∷ []))),
      changed "release checkout must not retain its write-scoped token",
    )
    ∷ []

unfoldable pub audit_release_job : Fields → Checked
unfolding expect_all release_checks job_of get
audit_release_job jobs = do
  permissions ← get (codes "permissions") (job_of jobs (codes "release"))
  needs ← get (codes "needs") (job_of jobs (codes "release"))
  ok (expect_all (release_checks (job_of jobs (codes "release")) permissions needs))

-- The machines that build and those that try the release.
unfoldable pub audit_platforms : Fields → Checked
unfolding expect job_of get value_eq matrix platforms
audit_platforms jobs = do
  build_on ← get (codes "runs-on") (job_of jobs (codes "build"))
  smoke_on ← get (codes "runs-on") (job_of jobs (codes "post-release-smoke"))
  needs ← get (codes "needs") (job_of jobs (codes "post-release-smoke"))
  ok (
      expect (value_eq build_on (str "${{ matrix.os }}"))
        (changed "build must run on its matrix OS")
      ++ expect (value_eq (matrix (job_of jobs (codes "build"))) platforms)
          (changed "build platform matrix changed")
      ++ expect (value_eq smoke_on (str "${{ matrix.os }}"))
          (changed "smoke must run on its matrix OS")
      ++ expect (value_eq (matrix (job_of jobs (codes "post-release-smoke"))) platforms)
          (changed "smoke platform matrix changed")
      ++ expect (value_eq needs (str "release")) (changed "post-release smoke must need release"))
