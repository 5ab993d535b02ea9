-- ===== src/Workflow/Release/Table.antt =====
-- The steps of each job and the keys of each step that `audit_release_workflow` of
-- scripts/release-audit.py allows.
use rpmz.Base.{
  String, Bool, true, false, not, ◌&&◌, ◌||◌, none, some, List, [], ◌∷◌, ◌++◌, map, if◌then◌else◌,
  Text, codes, texts, text_eq, starts_with, set_eq, Outcome, ok, raise, ◌>>=◌,
}
use rpmz.Workflow.Values.{Value, null, text, mapping, Fields, lookup, keys, value_eq}
use rpmz.Workflow.Steps.{
  Crash, wrong_type, Problem, in_job, in_step, Checked, expect, expect_all, each_of, str,
  ghr_install_action, get_or, is_in, elements, same_set, job_steps, step_identities,
}
use rpmz.Workflow.Release.Jobs.{job_of}

-- What the source says of a job: its name, the steps it has and its keys.
pub data JobPlan : Type 0 where
  plan : Text → List (Text × Value) → List Text → JobPlan

abbrev pub use_of : String → Text × Value
use_of action = (codes "uses", str action)

abbrev pub name_of : String → Text × Value
name_of title = (codes "name", str title)

unfoldable pub build_plan : JobPlan
unfolding ghr_install_action
build_plan =
    plan (codes "build")
      (use_of "actions/checkout@11bd71901bbe5b1630ceea73d27597364c9af683"
        ∷ (codes "uses", text ghr_install_action)
        ∷ use_of "./.github/actions/zig-cache"
        ∷ name_of "Get version"
        ∷ name_of "Build normal install layout"
        ∷ name_of "Package binary archive, checksum, and SBOM"
        ∷ use_of "actions/upload-artifact@ea165f8d65b6e75b540449e92b4886f43607fa02"
        ∷ [])
      (texts ("name" ∷ "runs-on" ∷ "strategy" ∷ "steps" ∷ []))

unfoldable pub source_plan : JobPlan
source_plan =
    plan (codes "source")
      (use_of "actions/checkout@11bd71901bbe5b1630ceea73d27597364c9af683"
        ∷ name_of "Get version"
        ∷ name_of "Package source archive and checksum"
        ∷ use_of "actions/upload-artifact@ea165f8d65b6e75b540449e92b4886f43607fa02"
        ∷ [])
      (texts ("name" ∷ "runs-on" ∷ "steps" ∷ []))

unfoldable pub release_plan : JobPlan
release_plan =
    plan (codes "release")
      (use_of "actions/checkout@11bd71901bbe5b1630ceea73d27597364c9af683"
        ∷ use_of "actions/download-artifact@d3f86a106a0bac45b974a628896c90dbdf5c8093"
        ∷ name_of "Get version"
        ∷ use_of "actions/attest-build-provenance@c074443f1aee8d4aeeae555aebba3282517141b2"
        ∷ use_of "softprops/action-gh-release@da05d552573ad5aba039eaac05058a918a7bf631"
        ∷ [])
      (texts ("name" ∷ "needs" ∷ "runs-on" ∷ "permissions" ∷ "steps" ∷ []))

unfoldable pub smoke_plan : JobPlan
smoke_plan =
    plan (codes "post-release-smoke")
      (use_of "actions/checkout@11bd71901bbe5b1630ceea73d27597364c9af683"
        ∷ name_of "Install pinned ghr"
        ∷ name_of "Get version"
        ∷ name_of "Install and audit published release"
        ∷ [])
      (texts ("name" ∷ "needs" ∷ "runs-on" ∷ "strategy" ∷ "steps" ∷ []))

unfoldable pub plans : List JobPlan
unfolding build_plan source_plan release_plan smoke_plan
plans = build_plan ∷ source_plan ∷ release_plan ∷ smoke_plan ∷ []

unfoldable pub identities_eq : List (Text × Value) → List (Text × Value) → Bool
unfolding text_eq value_eq
identities_eq [] [] = true
identities_eq ((kind, v) ∷ xs) ((kind', w) ∷ ys) =
    text_eq kind kind' && value_eq v w && identities_eq xs ys
identities_eq _ _ = false

-- The keys of a step that uses an action.
unfoldable pub action_keys : Text → Text → List Text
unfolding starts_with text_eq ghr_install_action
action_keys name action =
    if starts_with action (codes "actions/checkout@")
    then (if text_eq name (codes "release")
        then texts ("uses" ∷ "with" ∷ [])
        else texts ("uses" ∷ []))
    else if text_eq action ghr_install_action
    then texts ("name" ∷ "uses" ∷ "env" ∷ "with" ∷ [])
    else if text_eq action (codes "./.github/actions/zig-cache")
    then texts ("uses" ∷ [])
    else if starts_with action (codes "actions/attest-build-provenance@")
        || starts_with action (codes "softprops/action-gh-release@")
    then texts ("name" ∷ "uses" ∷ "with" ∷ [])
    else texts ("uses" ∷ "with" ∷ [])

-- The keys of a step that runs a command; `title` is its name.
unfoldable pub command_keys : Text → Value → List Text
unfolding text_eq value_eq
command_keys name title =
    if value_eq title (str "Get version")
    then texts ("name" ∷ "id" ∷ "run" ∷ [])
    else if text_eq name (codes "post-release-smoke")
        && value_eq title (str "Install and audit published release")
    then texts ("name" ∷ "env" ∷ "run" ∷ [])
    else texts ("name" ∷ "run" ∷ [])

-- `expected_keys` of a step
unfoldable pub step_keys : Text → Fields → Outcome Crash (List Text)
unfolding lookup get_or action_keys command_keys
step_keys name step = elim (lookup (codes "uses") step) [
  | some (text action) ↦ ok (action_keys name action)
  | some other ↦ raise wrong_type
  | none ↦ ok (command_keys name (get_or null (codes "name") step))
]

-- `step.get('name', step.get('uses'))`
unfoldable pub title_of : Fields → Value
unfolding get_or
title_of step = get_or (get_or null (codes "uses") step) (codes "name") step

-- A step that is no dict has no `get`, whatever `"uses" in step` says of it.
unfoldable pub audit_step_keys : Text → Value → Checked
unfolding step_keys expect set_eq keys title_of
audit_step_keys name (mapping step) = do
  expected_keys ← step_keys name step
  ok (
      expect (set_eq (keys step) expected_keys)
        (in_step name (title_of step) "step key allowlist changed"))
audit_step_keys name _ = raise wrong_type

-- What is asked of one job: its steps, its keys and that it has no environment.
unfoldable pub plan_checks : JobPlan → Value → List Value → Bool → List (Bool × Problem)
unfolding identities_eq step_identities same_set
plan_checks (plan name identities job_keys) job job_has env =
    (identities_eq (step_identities job) identities, in_job name "step/action allowlist changed")
    ∷ (same_set job_has job_keys, in_job name "job key allowlist changed")
    ∷ (not env, in_job name "must not define job-level environment variables")
    ∷ []

abbrev pub plan_name : JobPlan → Text
plan_name (plan name identities job_keys) = name

-- One round of the loop over the jobs, the loop over the steps included.
unfoldable pub audit_plan : Fields → JobPlan → Checked
unfolding expect_all plan_checks job_of elements is_in each_of audit_step_keys job_steps
audit_plan jobs p = do
  job_has ← elements (job_of jobs (plan_name p))
  env ← is_in (codes "env") (job_of jobs (plan_name p))
  in_steps ← each_of (map (audit_step_keys (plan_name p)) (job_steps (job_of jobs (plan_name p))))
  ok (expect_all (plan_checks p (job_of jobs (plan_name p)) job_has env) ++ in_steps)
