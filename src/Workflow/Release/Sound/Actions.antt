-- ===== src/Workflow/Release/Sound/Actions.antt =====
-- Which actions the steps use.
use rpmz.Base.{
  ◌≡◌, refl, ap, ◌∙◌, ◌⊎◌, inl, inr, Bool, true, false, ◌&&◌, ◌||◌, Option, none, some, List, [],
  ◌∷◌, ◌++◌, map, and-true, or-true, All, In, here, there, In-cons, not-In-nil, Text, codes, texts,
  text_eq, text_eq_iff, mem, Outcome, ok, raise, ◌>>=◌,
}
use rpmz.Workflow.Values.{
  Value, null, boolean, text, items, mapping, tuple, other_literal, Fields, end, lookup, value_eq,
}
use rpmz.Workflow.Steps.{
  Crash, Checked, expect_all, each_of, ghr_install_action, get_or, is_in, elements, job_steps,
  step_identities,
}
use rpmz.Workflow.Steps.Sound.{append-nothing, each_of-nothing, ok-nothing, expect_all-nothing}
use rpmz.Workflow.Release.{audit_jobs, audit_release_workflow}
use rpmz.Workflow.Release.Jobs.{audit_job_set, job_of, expected_jobs}
use rpmz.Workflow.Release.Table.{JobPlan, plan, plans, audit_plan, identities_eq}
use rpmz.Workflow.Release.Table.{plan_checks, audit_step_keys, plan_name}
use rpmz.Workflow.Steps.{step_identity}
use rpmz.Workflow.Release.Sound.{get_or-lookup, jobs_sections}
use rpmz.Workflow.Release.Sound.Permissions.{job_names}

-- The actions of the workflow: each is fixed by a commit, or stands in the repository.
unfoldable pub pinned_actions : List Text
unfolding ghr_install_action
pinned_actions =
    ghr_install_action
    ∷ texts (
        "./.github/actions/zig-cache" ∷ "actions/checkout@11bd71901bbe5b1630ceea73d27597364c9af683"
        ∷ "actions/upload-artifact@ea165f8d65b6e75b540449e92b4886f43607fa02"
        ∷ "actions/download-artifact@d3f86a106a0bac45b974a628896c90dbdf5c8093"
        ∷ "actions/attest-build-provenance@c074443f1aee8d4aeeae555aebba3282517141b2"
        ∷ "softprops/action-gh-release@da05d552573ad5aba039eaac05058a918a7bf631" ∷ [])

-- A step that uses one of them, or has a name.
unfoldable is_allowed : Text × Value → Bool
unfolding text_eq mem pinned_actions
is_allowed (kind, text t) =
    text_eq kind (codes "name") || (text_eq kind (codes "uses") && mem t pinned_actions)
is_allowed (kind, _) = false

value_eq-text : (v : Value) (t : Text) → value_eq v (text t) ≡ true → v ≡ text t
unfolding value_eq
value_eq-text (text s) t h = ap text ((text_eq_iff s t).0 h)
value_eq-text null t h = cc
value_eq-text (boolean true) t h = cc
value_eq-text (boolean false) t h = cc
value_eq-text (items vs) t h = cc
value_eq-text (mapping fs) t h = cc
value_eq-text (tuple vs) t h = cc
value_eq-text (other_literal true n) t h = cc
value_eq-text (other_literal false n) t h = cc

same_identity :
    (kind kind' : Text) (v w : Value)
    → text_eq kind kind' ≡ true
    → value_eq v w ≡ true
    → is_allowed (kind', w) ≡ true
    → is_allowed (kind, v) ≡ true
unfolding is_allowed
same_identity kind kind' v (text t) e f h = cc (value_eq-text v t f, (text_eq_iff kind kind').0 e)
same_identity kind kind' v null e f h = cc
same_identity kind kind' v (boolean b) e f h = cc
same_identity kind kind' v (items vs) e f h = cc
same_identity kind kind' v (mapping fs) e f h = cc
same_identity kind kind' v (tuple vs) e f h = cc
same_identity kind kind' v (other_literal b n) e f h = cc

identities_eq-In :
    (xs ys : List (Text × Value)) (x : Text × Value)
    → identities_eq xs ys ≡ true
    → All (λ y. is_allowed y ≡ true) ys
    → In x xs
    → is_allowed x ≡ true
unfolding identities_eq
identities_eq-In [] ys x h all i = absurd (not-In-nil i)
identities_eq-In ((kind, v) ∷ xs) [] x h all i = cc
identities_eq-In ((kind, v) ∷ xs) ((kind', w) ∷ ys) x h all i =
    let both = and-true (text_eq kind kind' && value_eq v w) (identities_eq xs ys) h in
    let head = and-true (text_eq kind kind') (value_eq v w) both.0 in
    elim (In-cons i) [
      | inl e ↦ ap is_allowed e ∙ same_identity kind kind' v w head.0 head.1 all.0
      | inr j ↦ identities_eq-In xs ys x both.1 all.1 j
    ]

abbrev AllowsOnly : JobPlan → Type 0
AllowsOnly (plan name identities job_keys) = All (λ y. is_allowed y ≡ true) identities

-- A silent plan: its steps are those it names.
audit_plan_lem :
    (jobs : Fields) (p : JobPlan) (job : Value) (x : Text × Value)
    → lookup (plan_name p) jobs ≡ some job
    → AllowsOnly p
    → audit_plan jobs p ≡ ok []
    → In x (step_identities job)
    → is_allowed x ≡ true
unfolding audit_plan job_of plan_checks
audit_plan_lem jobs (plan name identities job_keys) job x h allowed silent i =
    identities_eq-In (step_identities job) identities x
      (go (elements job) (is_in (codes "env") job)
        (each_of (map (audit_step_keys name) (job_steps job)))
        (rw (get_or-lookup (mapping end) job name jobs h) at silent))
      allowed i
  where
    go :
        (a : Outcome Crash (List Value)) (b : Outcome Crash Bool) (c : Checked)
        → (a >>= λ job_has. b >>= λ env. c >>= λ in_steps.
            ok (
              expect_all (plan_checks (plan name identities job_keys) job job_has env) ++ in_steps))
          ≡ ok []
        → identities_eq (step_identities job) identities ≡ true
    go (ok job_has) (ok env) (ok in_steps) e =
        let checks = plan_checks (plan name identities job_keys) job job_has env in
        (expect_all-nothing checks
          (append-nothing (expect_all checks) in_steps
            (ok-nothing (expect_all checks ++ in_steps) e)).0).0
    go (raise a) b c e = cc
    go (ok job_has) (raise b) c e = cc
    go (ok job_has) (ok env) (raise c) e = cc

-- The steps of a planned job.
plans-In :
    (jobs : Fields) (ps : List JobPlan) (name : Text) (job : Value) (x : Text × Value)
    → mem name (map plan_name ps) ≡ true
    → lookup name jobs ≡ some job
    → All AllowsOnly ps
    → All (λ check. check ≡ ok []) (map (audit_plan jobs) ps)
    → In x (step_identities job)
    → is_allowed x ≡ true
unfolding mem
plans-In jobs [] name job x m h allowed silent i = cc
plans-In jobs (p ∷ ps) name job x m h allowed silent i =
    elim (or-true (text_eq name (plan_name p)) (mem name (map plan_name ps)) m) [
      | inl e ↦
          audit_plan_lem jobs p job x (cc ((text_eq_iff name (plan_name p)).0 e)) allowed.0 silent.0
            i
      | inr e ↦ plans-In jobs ps name job x e h allowed.1 silent.1 i
    ]

plans-AllowsOnly : All AllowsOnly plans
unfolding plans is_allowed
plans-AllowsOnly = (
  (refl, (refl, (refl, (refl, (refl, (refl, (refl, tt))))))),
  (
    (refl, (refl, (refl, (refl, tt)))),
    ((refl, (refl, (refl, (refl, (refl, tt))))), ((refl, (refl, (refl, (refl, tt)))), tt)),
  ),
)

In-map {ℓ κ} :
    {A : Type ℓ} {B : Type κ} (f : A → B) (a : A) (xs : List A) → In a xs → In (f a) (map f xs)
In-map f a [] i = absurd (not-In-nil i)
In-map f a (x ∷ xs) i = elim (In-cons i) [ inl e ↦ here (ap f e) | inr j ↦ there (In-map f a xs j) ]

-- What an allowed identity says of its step.
identity-step :
    (step : Value)
    → is_allowed (step_identity step) ≡ true
    → (fields : Fields) × (step ≡ mapping fields)
      × ((lookup (codes "uses") fields ≡ none)
          ⊎ ((action : Text) × (lookup (codes "uses") fields ≡ some (text action))
              × (mem action pinned_actions ≡ true)))
unfolding is_allowed step_identity
identity-step (mapping fields) h = (fields, refl, go (lookup (codes "uses") fields) h)
  where
    go :
        (o : Option Value)
        → is_allowed (elim o [
          | some action ↦ (codes "uses", action)
          | none ↦ (codes "name", get_or null (codes "name") fields)
        ])
          ≡ true
        → (o ≡ none)
          ⊎ ((action : Text) × (o ≡ some (text action)) × (mem action pinned_actions ≡ true))
    go none e = inl refl
    go (some (text t)) e = inr (t, refl, e)
    go (some null) e = cc
    go (some (boolean b)) e = cc
    go (some (items vs)) e = cc
    go (some (mapping fs)) e = cc
    go (some (tuple vs)) e = cc
    go (some (other_literal b n)) e = cc
identity-step null h = cc
identity-step (boolean b) h = cc
identity-step (text t) h = cc
identity-step (items vs) h = cc
identity-step (tuple vs) h = cc
identity-step (other_literal b n) h = cc

-- In a release workflow without messages each step of each job is a dict that uses no action or one of
-- seven that are fixed by a commit or stand in the repository.
pub audit_release_workflow-actions :
    (document jobs : Fields) (name : Text) (job step : Value)
    → audit_release_workflow document ≡ ok []
    → lookup (codes "jobs") document ≡ some (mapping jobs)
    → lookup name jobs ≡ some job
    → In step (job_steps job)
    → (fields : Fields) × (step ≡ mapping fields)
      × ((lookup (codes "uses") fields ≡ none)
          ⊎ ((action : Text) × (lookup (codes "uses") fields ≡ some (text action))
              × (mem action pinned_actions ≡ true)))
unfolding step_identities expected_jobs plans audit_jobs
audit_release_workflow-actions document jobs name job step silent is_jobs is_job i =
    let parts = jobs_sections document jobs silent is_jobs in
    identity-step step (
      plans-In jobs plans name job (step_identity step)
        (job_names jobs name job (ok-nothing (audit_job_set jobs) parts.1.0) is_job) is_job
        plans-AllowsOnly (each_of-nothing (map (audit_plan jobs) plans) parts.1.1.1.1.1.0)
        (In-map step_identity step (job_steps job) i))
