-- ===== src/Workflow/Ci/Sound.antt =====
-- What a silent `audit_ci_workflow` says of the installation of Zig.
use rpmz.Base.{ℕ, ◌<◌, ◌≡◌, true, some, List, get_elem?, codes}
use rpmz.Workflow.Values.{Value, mapping, Fields, value_eq}
use rpmz.Workflow.Steps.{Crash, job_steps, action_step}
use rpmz.Workflow.Values.{value_eq}
use rpmz.Workflow.Steps.{Crash}
use rpmz.Workflow.Steps.{zig_install_step}

-- A value that is equal stands at the position.
abbrev pub StandsAt : Value → List Value → ℕ → Type 0
StandsAt v ws n = (w : Value) × (get_elem? ws n ≡ some w) × (value_eq w v ≡ true)

-- The two steps of a job, the second behind the first.
unfoldable pub IsConfigured : Value → Type 0
IsConfigured job =
    (install : Fields) × (cache : Fields) × (i : ℕ) × (j : ℕ) × (action_step job
        (codes "cataggar/ghr/actions/install@")
      ≡ some install)
    × (value_eq (mapping install) zig_install_step ≡ true)
    × (action_step job (codes "./.github/actions/zig-cache") ≡ some cache)
    × StandsAt (mapping install) (job_steps job) i
    × StandsAt (mapping cache) (job_steps job) j
    × (i < j)
