-- ===== src/Workflow/Ci/Verdicts.antt =====
-- What the two workflows give together: each verdict rests on what was read.
use rpmz.Base.{◌≡◌, refl, subst, List, ◌++◌, Text, Outcome, ok, raise, ◌>>=◌, >>=-eq-ok}
use rpmz.Workflow.Values.{Value, Fields}
use rpmz.Workflow.Distinct.{IsDistinct, KeysDistinct}
use rpmz.Workflow.Lines.{YamlError}
use rpmz.Workflow.Scalars.Ends.{IsReported, Ends}
use rpmz.Workflow.Parser.{parse_workflow}
use rpmz.Workflow.Parser.Ends.{parse_workflow-Ends}
use rpmz.Workflow.Steps.{Crash, Problem}
use rpmz.Workflow.Release.{audit_release_workflow}
use rpmz.Workflow.Ci.{audit_ci_workflow, Verdict, unreadable, problems, read_both, audit_workflows}

-- An exception of the parser itself, or the messages about two documents that were read.
unfoldable pub IsJustified : (Text → Outcome YamlError Value) → Text → Text → Verdict → Type 0
IsJustified literal release_source ci_source (unreadable error) = IsReported error
IsJustified literal release_source ci_source (problems found) =
    (release : Fields) × (ci : Fields) × (of_release : List Problem) × (of_ci : List Problem)
    × (parse_workflow literal release_source ≡ ok release)
    × (parse_workflow literal ci_source ≡ ok ci)
    × KeysDistinct release
    × KeysDistinct ci
    × (audit_release_workflow release ≡ ok of_release)
    × (audit_ci_workflow ci ≡ ok of_ci)
    × (found ≡ of_release ++ of_ci)

-- Two documents with distinct keys, or an exception of the parser.
BothRead :
    (Text → Outcome YamlError Value) → Text → Text → Outcome YamlError (Fields × Fields) → Type 0
BothRead literal release_source ci_source (ok (release, ci)) =
    (parse_workflow literal release_source ≡ ok release)
    × (parse_workflow literal ci_source ≡ ok ci)
    × KeysDistinct release
    × KeysDistinct ci
BothRead literal release_source ci_source (raise error) = IsReported error

module _ (literal : Text → Outcome YamlError Value)
    (known : (t : Text) → Ends IsDistinct (literal t)) where
  read_both-BothRead :
      (release_source ci_source : Text)
      → BothRead literal release_source ci_source (read_both literal release_source ci_source)
  unfolding read_both BothRead
  read_both-BothRead release_source ci_source =
      go (parse_workflow literal release_source) refl (parse_workflow literal ci_source) refl
        (parse_workflow-Ends literal known release_source)
        (parse_workflow-Ends literal known ci_source)
    where
      go :
          (a : Outcome YamlError Fields)
          → parse_workflow literal release_source ≡ a
          → (b : Outcome YamlError Fields) → parse_workflow literal ci_source ≡ b
          → Ends KeysDistinct a
          → Ends KeysDistinct b
          → BothRead literal release_source ci_source
              (a >>= λ release. b >>= λ ci. ok (release, ci))
      go (ok release) p (ok ci) q d e = (p, q, d, e)
      go (raise error) p b q d e = d
      go (ok release) p (raise error) q d e = e

  verdict-IsJustified :
      (release_source ci_source : Text) (verdict : Verdict)
      → audit_workflows literal release_source ci_source ≡ ok verdict
      → IsJustified literal release_source ci_source verdict
  unfolding audit_workflows IsJustified BothRead
  verdict-IsJustified release_source ci_source verdict h =
      go (read_both literal release_source ci_source) (read_both-BothRead release_source ci_source)
        h
    where
      same :
          (v : Verdict)
          → IsJustified literal release_source ci_source v
          → ◌≡◌ {A = Outcome Crash Verdict} (ok v) (ok verdict)
          → IsJustified literal release_source ci_source verdict
      same v j e = subst (IsJustified literal release_source ci_source) (unwrapped e) j
        where
          unwrapped : ◌≡◌ {A = Outcome Crash Verdict} (ok v) (ok verdict) → v ≡ verdict
          unwrapped q = cc

      go :
          (o : Outcome YamlError (Fields × Fields))
          → BothRead literal release_source ci_source o
          → (elim o [
            | raise error ↦ ok (unreadable error)
            | ok (release, ci) ↦ do
              of_release ← audit_release_workflow release
              of_ci ← audit_ci_workflow ci
              ok (problems (of_release ++ of_ci))
          ])
            ≡ ok verdict
          → IsJustified literal release_source ci_source verdict
      go (raise error) r k = same (unreadable error) r k
      go (ok (release, ci)) (p, q, d, e) k =
          let (of_release, f, k') = >>=-eq-ok (audit_release_workflow release) _ k in
          let (of_ci, g, k'') = >>=-eq-ok (audit_ci_workflow ci) _ k' in
          same (problems (of_release ++ of_ci))
            (release, ci, of_release, of_ci, p, q, d, e, f, g, refl) k''

-- If what reads a quoted text ends with a value whose dicts have distinct keys or with an exception of the
-- parser, then what the audit says of two workflow files is an exception of the parser, or the messages of
-- the two audits about the two documents that were read, in which no key stands twice.
pub audit_workflows-IsJustified :
    (literal : Text → Outcome YamlError Value)
    → ((t : Text) → Ends IsDistinct (literal t))
    → (release_source ci_source : Text) (verdict : Verdict)
    → audit_workflows literal release_source ci_source ≡ ok verdict
    → IsJustified literal release_source ci_source verdict
audit_workflows-IsJustified literal known release_source ci_source verdict h =
    verdict-IsJustified literal known release_source ci_source verdict h
