-- ===== src/Workflow/Release/Commands.antt =====
-- The commands and the inputs of actions that `audit_release_workflow` of scripts/release-audit.py asks for.
use rpmz.Base.{
  Bool, true, false, ◌&&◌, Option, none, some, List, [], ◌∷◌, ◌++◌, Text, codes, texts, set_eq,
  Outcome, ok, raise, ◌>>=◌,
}
use rpmz.Workflow.Values.{Value, null, boolean, mapping, Fields, end, keys, value_eq}
use rpmz.Workflow.Steps.{
  Crash, wrong_type, Problem, changed, in_job, Checked, expect, str, dict, get_or, get, named_step,
  action_step, step_has, audit_zig_install, step_runs,
}
use rpmz.Workflow.Release.Jobs.{job_of}

unfoldable pub all_jobs : List Text
all_jobs = texts ("build" ∷ "source" ∷ "release" ∷ "post-release-smoke" ∷ [])

-- The parser of the tag, in one job.
unfoldable pub audit_version : Fields → Text → List Problem
unfolding expect named_step job_of step_has step_runs
audit_version jobs name =
    let step = named_step (job_of jobs name) (codes "Get version") in
    expect
      (step_has step (codes "id") (str "version")
        && step_runs step (
            "python3 scripts/release.py version --tag \"$GITHUB_REF_NAME\" \\"
            ∷ ">> \"$GITHUB_OUTPUT\"" ∷ []))
      (in_job name "must use the shared tag version parser")

-- The commands of the job `build`.
unfoldable pub audit_build : Value → List Problem
unfolding expect named_step step_runs audit_zig_install
audit_build build =
    expect
      (step_runs (named_step build (codes "Package binary archive, checksum, and SBOM")) (
        "python3 scripts/release.py binary \\" ∷ "--prefix ./release-install \\"
        ∷ "--output ./release-assets \\" ∷ "--version \"${{ steps.version.outputs.version }}\" \\"
        ∷ "--platform \"${{ matrix.platform }}\"" ∷ []))
      (changed "build must package binaries with scripts/release.py")
    ++ expect
        (step_runs (named_step build (codes "Build normal install layout")) (
          "zig build -j2 -Doptimize=safe \\"
          ∷ "\"-Dversion=${{ steps.version.outputs.version }}\" \\"
          ∷ "install --prefix ./release-install" ∷ []))
        (changed "release build command changed")
    ++ (audit_zig_install build (codes "release build")).0

-- The command of the job `source`.
unfoldable pub audit_source_job : Value → List Problem
unfolding expect named_step step_runs
audit_source_job source =
    expect
      (step_runs (named_step source (codes "Package source archive and checksum")) (
        "python3 scripts/release.py source \\" ∷ "--output ./release-assets \\"
        ∷ "--version \"${{ steps.version.outputs.version }}\"" ∷ []))
      (changed "source must package with scripts/release.py")

-- What is handed from job to job.
unfoldable pub audit_artifacts : Value → Value → Value → List Problem
unfolding expect action_step step_has
audit_artifacts build source release =
    expect
      (step_has (action_step build (codes "actions/upload-artifact@")) (codes "with") (
        mapping
          (dict (("name", str "${{ matrix.platform }}") ∷ ("path", str "release-assets/") ∷ []))))
      (changed "build artifact upload layout changed")
    ++ expect
        (step_has (action_step source (codes "actions/upload-artifact@")) (codes "with")
          (mapping (dict (("name", str "source") ∷ ("path", str "release-assets/") ∷ []))))
        (changed "source artifact upload layout changed")
    ++ expect
        (step_has (action_step release (codes "actions/download-artifact@")) (codes "with")
          (mapping (dict (("path", str "release-assets") ∷ ("merge-multiple", boolean true) ∷ []))))
        (changed "release artifact download layout changed")

-- The provenance of the archives.
unfoldable pub audit_attestation : Value → List Problem
unfolding action_step expect step_has
audit_attestation release = elim (action_step release (codes "actions/attest-build-provenance@")) [
  | none ↦ expect false (changed "release must contain one provenance attestation action")
  | some attestation ↦
      expect
        (step_has (some attestation) (codes "with") (
          mapping (
            dict (
              ("subject-path", str "release-assets/rpmz-*.tar.gz\nrelease-assets/rpmz-*.tar.xz\n")
              ∷ []))))
        (changed "attestation subjects must be binary and source archives")
]

unfoldable pub expected_body : Value
expected_body =
    str
      "**Install:**\n\n```sh\nghr install cataggar/rpmz@v${{ steps.version.outputs.version }}\n```\n\nBinary archives expose one public executable: `bin/rpmz`. Use\n`rpmz tdnf [options] COMMAND` for dnf/yum-compatible operations,\n`rpmz repo-config` for repository configuration, and `rpmz auto`\nfor scheduled updates. The archives also contain `lib/`,\n`libexec/`, and `etc/`, plus COPYING and README.md. SHA-256\nsidecars, SPDX SBOMs, and GitHub provenance attestations are\npublished with the archives.\n"

unfoldable pub expected_files : Value
expected_files =
    str
      "release-assets/rpmz-*.tar.gz\nrelease-assets/rpmz-*.tar.xz\nrelease-assets/rpmz-*.sha256\nrelease-assets/rpmz-*.sbom.spdx.json\n"

-- The inputs of the action that makes the release.
unfoldable pub audit_inputs : Value → Checked
unfolding expect set_eq keys get_or value_eq expected_body expected_files
audit_inputs (mapping inputs) = ok (
    expect (set_eq (keys inputs) (texts ("name" ∷ "body" ∷ "files" ∷ "prerelease" ∷ [])))
      (changed "release action inputs must use the exact allowlist")
    ++ expect
        (value_eq (get_or null (codes "name") inputs)
          (str "rpmz ${{ steps.version.outputs.version }}"))
        (changed "release name must be derived from the parsed version")
    ++ expect (value_eq (get_or null (codes "body") inputs) expected_body)
        (changed "release body changed")
    ++ expect (value_eq (get_or null (codes "files") inputs) expected_files)
        (changed "release asset patterns changed")
    ++ expect
        (value_eq (get_or null (codes "prerelease") inputs)
          (str "${{ steps.version.outputs.prerelease }}"))
        (changed "release prerelease input must use parsed SemVer output"))
audit_inputs _ = raise wrong_type

unfoldable pub audit_create : Value → Checked
unfolding action_step expect audit_inputs get_or
audit_create release = elim (action_step release (codes "softprops/action-gh-release@")) [
  | none ↦ ok (expect false (changed "release must contain one GitHub release action"))
  | some create ↦ audit_inputs (get_or (mapping end) (codes "with") create)
]

-- `smoke_run is not None and smoke_run.get("env", {}).get("GH_TOKEN") == ...`
unfoldable pub has_token : Option Fields → Outcome Crash Bool
unfolding get get_or value_eq
has_token none = ok false
has_token (some step) = do
  token ← get (codes "GH_TOKEN") (get_or (mapping end) (codes "env") step)
  ok (value_eq token (str "${{ secrets.GITHUB_TOKEN }}"))

-- The commands of the job that tries the release.
unfoldable pub audit_smoke : Value → Checked
unfolding expect named_step step_runs has_token
audit_smoke smoke = do
  token ← has_token (named_step smoke (codes "Install and audit published release"))
  ok (
      expect
        (step_runs (named_step smoke (codes "Install pinned ghr"))
          ("pipx install ghr-bin==0.9.1" ∷ []))
        (changed "smoke must install exactly ghr-bin 0.9.1")
      ++ expect
          (step_runs (named_step smoke (codes "Install and audit published release")) (
            "python3 scripts/release-smoke.py \\" ∷ "--repo cataggar/rpmz \\"
            ∷ "--tag \"$GITHUB_REF_NAME\" \\"
            ∷ "--version \"${{ steps.version.outputs.version }}\" \\"
            ∷ "--platform \"${{ matrix.platform }}\" \\"
            ∷ "--prefix \"$RUNNER_TEMP/rpmz-ghr-smoke\"" ∷ []))
          (changed "smoke workflow step must invoke only the audited smoke script")
      ++ expect token (changed "smoke may use only the read-scoped GitHub token"))
