-- ===== src/Scripts/Audit.antt =====
-- `audit` of scripts/release-audit.py: the two workflows, the manifest and the three scripts together. What
-- parses a script (`ast.parse`) is a parameter.
use rpmz.Base.{
  ◌≡◌, refl, ap, ◌∙◌, Option, none, some, List, [], ◌∷◌, ◌++◌, Text, texts, Outcome, ok, raise,
  ◌>>=◌,
}
use rpmz.Workflow.Values.{Value, Fields}
use rpmz.Workflow.Lines.{YamlError}
use rpmz.Workflow.Steps.{Crash, Problem}
use rpmz.Workflow.Steps.Sound.{append-nothing}
use rpmz.Workflow.Ci.{Verdict, unreadable, problems, audit_workflows}
use rpmz.Scripts.Syntax.{Tree}
use rpmz.Scripts.Imports.{ScriptProblem, audit_script_signing, audit_imports}
use rpmz.Scripts.Process.{audit_process_execution}
use rpmz.Scripts.Packager.{audit_packager}
use rpmz.Scripts.SmokeSource.{SmokeCrash, audit_smoke_source}

-- What leaves the audit as an exception.
pub data AuditCrash : Type 0 where
  in_workflow : Crash → AuditCrash
  in_smoke : SmokeCrash → AuditCrash
  syntax_error : AuditCrash

-- What the audit gives: that a workflow cannot be read, or the messages about the workflows and the scripts.
pub data Report : Type 0 where
  unread : YamlError → Report
  found : List Problem → List ScriptProblem → Report

-- The six texts and values that are audited.
pub record Sources : Type 0 where
  pub release_source : Text
  pub ci_source : Text
  pub manifest : Fields
  pub packager : Text
  pub smoke_source : Text
  pub common_source : Text

unfoldable pub audit_common : Tree → List ScriptProblem
unfolding audit_script_signing audit_imports audit_process_execution
audit_common script =
    audit_script_signing script
    ++ audit_imports script (texts ("re" ∷ [])) []
    ++ audit_process_execution script []

unfoldable pub parsed : (Text → Option Tree) → Text → Outcome AuditCrash Tree
parsed parse source = elim (parse source) [ none ↦ raise syntax_error | some script ↦ ok script ]

abbrev pub renamed {ℓ κ μ} :
    {E : Type ℓ} {F : Type κ} {A : Type μ} → (E → F) → Outcome E A → Outcome F A
renamed f (ok a) = ok a
renamed f (raise e) = raise (f e)

-- The scripts, behind the workflows.
unfoldable pub audit_scripts :
    (Text → Option Tree) → Sources → Outcome AuditCrash (List ScriptProblem)
unfolding parsed audit_packager audit_smoke_source audit_common
audit_scripts parse s = do
  packager_tree ← parsed parse s.packager
  of_smoke ← renamed in_smoke (audit_smoke_source (parse s.smoke_source))
  common_tree ← parsed parse s.common_source
  ok (audit_packager s.manifest packager_tree ++ of_smoke ++ audit_common common_tree)

unfoldable pub audit :
    (Text → Outcome YamlError Value) → (Text → Option Tree) → Sources → Outcome AuditCrash Report
unfolding audit_workflows audit_scripts
audit literal parse s =
    renamed in_workflow (audit_workflows literal s.release_source s.ci_source) >>= λ verdict.
    elim verdict [
      | unreadable error ↦ ok (unread error)
      | problems of_workflows ↦
          audit_scripts parse s >>= λ of_scripts. ok (found of_workflows of_scripts)
    ]

-- Nothing is found in the scripts.
unfoldable pub IsSilent : (Text → Option Tree) → Sources → Type 0
IsSilent parse s =
    (packager_tree : Tree) × (common_tree : Tree) × (parse s.packager ≡ some packager_tree)
    × (parse s.common_source ≡ some common_tree)
    × (audit_packager s.manifest packager_tree ≡ [])
    × (audit_smoke_source (parse s.smoke_source) ≡ ok [])
    × (audit_common common_tree ≡ [])

audit_scripts-IsSilent :
    (parse : Text → Option Tree) (s : Sources) → audit_scripts parse s ≡ ok [] → IsSilent parse s
unfolding audit_scripts parsed IsSilent
audit_scripts-IsSilent parse s h =
    go (parse s.packager) refl (audit_smoke_source (parse s.smoke_source)) refl
      (parse s.common_source) refl h
  where
    nothing :
        (ps : List ScriptProblem)
        → ◌≡◌ {A = Outcome AuditCrash (List ScriptProblem)} (ok ps) (ok [])
        → ps ≡ []
    nothing ps e = cc

    read : Option Tree → Outcome AuditCrash Tree
    read o = elim o [ none ↦ raise syntax_error | some script ↦ ok script ]

    go :
        (p : Option Tree)
        → parse s.packager ≡ p
        → (o : Outcome SmokeCrash (List ScriptProblem))
        → audit_smoke_source (parse s.smoke_source) ≡ o
        → (c : Option Tree) → parse s.common_source ≡ c
        → (read p >>= λ packager_tree. renamed in_smoke o >>= λ of_smoke. read c >>= λ common_tree.
            ok (audit_packager s.manifest packager_tree ++ of_smoke ++ audit_common common_tree))
          ≡ ok []
        → IsSilent parse s
    go none e o f c g k = cc
    go (some p) e (raise crash) f c g k = cc
    go (some p) e (ok ps) f none g k = cc
    go (some p) e (ok ps) f (some c) g k =
        let both =
          append-nothing (audit_packager s.manifest p ++ ps) (audit_common c) (nothing _ k) in
        let front = append-nothing (audit_packager s.manifest p) ps both.0 in
        (p, c, e, g, front.0, f ∙ ap ok front.1, both.1)

-- The audit as a whole finds nothing only if each of its parts finds nothing: the two workflows are read and
-- give no message, and the packager and the common helper are parsed and give none, nor does the script that
-- tries a release.
pub audit-IsSilent :
    (literal : Text → Outcome YamlError Value) (parse : Text → Option Tree) (s : Sources)
    → audit literal parse s ≡ ok (found [] [])
    → (audit_workflows literal s.release_source s.ci_source ≡ ok (problems [])) × IsSilent parse s
unfolding audit
audit-IsSilent literal parse s h =
    go (audit_workflows literal s.release_source s.ci_source) (audit_scripts parse s)
      (audit_scripts-IsSilent parse s) h
  where
    go :
        (v : Outcome Crash Verdict) (o : Outcome AuditCrash (List ScriptProblem))
        → (o ≡ ok [] → IsSilent parse s)
        → (renamed in_workflow v >>= λ verdict. elim verdict [
          | unreadable error ↦ ok (unread error)
          | problems of_workflows ↦ o >>= λ of_scripts. ok (found of_workflows of_scripts)
        ])
          ≡ ok (found [] [])
        → (v ≡ ok (problems [])) × IsSilent parse s
    go (raise e) o f k = cc
    go (ok (unreadable e)) o f k = cc
    go (ok (problems ps)) (raise e) f k = cc
    go (ok (problems ps)) (ok qs) f k =
        (ap (λ xs. ok (problems xs)) (first k), f (ap ok (second k)))
      where
        first : ◌≡◌ {A = Outcome AuditCrash Report} (ok (found ps qs)) (ok (found [] [])) → ps ≡ []
        first e = cc

        second : ◌≡◌ {A = Outcome AuditCrash Report} (ok (found ps qs)) (ok (found [] [])) → qs ≡ []
        second e = cc
