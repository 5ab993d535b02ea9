-- ===== src/Release/Smoke.antt =====
-- `validate_arguments` of scripts/release-smoke.py.
use rpmz.Base.{
  ◌≡◌, refl, ap, ◌∙◌, Bool, true, ◌++◌, Text, codes, text_eq, text_eq_iff, starts_with, mem,
  Outcome, ok, raise, ◌>>◌, guard, guard-eq-ok, then-eq-ok, >>-eq-ok,
}
use rpmz.Release.Version.{VersionError, parse_semver, emit_version}
use rpmz.Release.Assets.{Manifest}

pub record Arguments : Type 0 where
  pub repo : Text
  pub tag : Text
  pub version : Text
  pub platform : Text

pub data ArgumentError : Type 0 where
  unexpected_repository unsupported_platform : Text → ArgumentError
  version_error : VersionError → ArgumentError
  tag_mismatch : Text → Text → ArgumentError

-- `try: parse_semver(...) except ValueError`
unfoldable pub check_version : Text → Outcome ArgumentError (Unit {0})
unfolding parse_semver
check_version version = elim (parse_semver version) [
  | ok _ ↦ ok tt
  | raise e ↦ raise (version_error e)
]

unfoldable pub validate_arguments : Arguments → Manifest → Outcome ArgumentError (Unit {0})
unfolding text_eq check_version mem
validate_arguments args m = do
  guard (text_eq args.repo m.repository) (unexpected_repository args.repo)
  check_version args.version
  guard (text_eq args.tag (codes "v" ++ args.version)) (tag_mismatch args.tag args.version)
  guard (mem args.platform m.platforms) (unsupported_platform args.platform)

check_version-ok :
    (version : Text)
    → check_version version ≡ ok tt
    → (p : Text × Bool) × (parse_semver version ≡ ok p)
unfolding check_version
check_version-ok version h = go (parse_semver version) refl h
  where
    go :
        (o : Outcome VersionError (Text × Bool))
        → parse_semver version ≡ o
        → ◌≡◌ {A = Outcome ArgumentError (Unit {0})}
            (elim o [ ok _ ↦ ok tt | raise e ↦ raise (version_error e) ])
            (ok tt)
        → (p : Text × Bool) × (parse_semver version ≡ ok p)
    go (ok p) e h = (p, e)
    go (raise f) e h = cc

-- The arguments that the smoke test accepts belong together: the repository and the platform are those
-- of the manifest, and `emit_version` of the release script accepts the tag, with what `parse_semver`
-- gives of the version.
pub validate_arguments-emit_version :
    (args : Arguments) (m : Manifest)
    → validate_arguments args m ≡ ok tt
    → (args.repo ≡ m.repository)
      × (mem args.platform m.platforms ≡ true)
      × (args.tag ≡ codes "v" ++ args.version)
      × ((p : Text × Bool) × (parse_semver args.version ≡ ok p) × (emit_version args.tag ≡ ok p))
unfolding validate_arguments
validate_arguments-emit_version args m h =
    let (a, h1) =
      then-eq-ok (text_eq args.repo m.repository) (unexpected_repository args.repo) _ h in
    let (b, h2) = >>-eq-ok (check_version args.version) _ h1 in
    let (c, h3) =
      then-eq-ok (text_eq args.tag (codes "v" ++ args.version)) (tag_mismatch args.tag args.version)
        _ h2 in
    let d = guard-eq-ok (mem args.platform m.platforms) (unsupported_platform args.platform) h3 in
    let (p, e) = check_version-ok args.version b in
    let tag = (text_eq_iff args.tag (codes "v" ++ args.version)).0 c in
    ((text_eq_iff args.repo m.repository).0 a, d, tag, (p, e, ap emit_version tag ∙ emitted p e))
  where
    emitted :
        (p : Text × Bool)
        → parse_semver args.version ≡ ok p
        → emit_version (codes "v" ++ args.version) ≡ ok p
    emitted p e = unfold emit_version starts_with in e
