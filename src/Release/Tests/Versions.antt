-- ===== src/Release/Tests/Versions.antt =====
-- Runs of the checks of versions, of the arguments of the smoke test and of checksum files.
use rpmz.Base.{
  ◌≡◌, refl, ◌↔◌, Bool, true, some, [], ◌∷◌, ◌++◌, Text, codes, texts, text_eq, is_space, is_some,
  mem, ok, raise,
}
use rpmz.Release.Version.{Semver, invalid_version, bad_tag, is_semver, parse_semver, emit_version}
use rpmz.Release.Version.Grammar.{render, parse_semver-is_semver}
use rpmz.Release.Version.Complete.{parse_semver-render}
use rpmz.Release.Smoke.{
  Arguments, validate_arguments, validate_arguments-emit_version, tag_mismatch,
}
use rpmz.Release.Sidecar.{write_checksum, verify_checksum, verify_checksum-write_checksum}
use rpmz.Release.Tests.{manifest}

abbrev candidate : Semver
candidate = record {
  major = codes "1";
  minor = codes "20";
  patch = codes "0";
  prerelease = some (texts ("rc-1" ∷ "0" ∷ []));
  build = some (texts ("007" ∷ []));
}

rendered_candidate : render candidate ≡ codes "1.20.0-rc-1.0+007"
unfolding render
rendered_candidate = refl

refused_versions :
    (parse_semver (codes "1.02.3") ≡ raise (invalid_version (codes "1.02.3")))
    × (parse_semver (codes "1.2") ≡ raise (invalid_version (codes "1.2")))
    × (parse_semver (codes "1.2.3-") ≡ raise (invalid_version (codes "1.2.3-")))
    × (emit_version (codes "1.2.3") ≡ raise (bad_tag (codes "1.2.3")))
    × (emit_version (codes "v1.2.3-a") ≡ ok (codes "1.2.3-a", true))
unfolding parse_semver emit_version text_eq
refused_versions = (refl, refl, refl, refl, refl)

parse_semver-render_example : parse_semver (render candidate) ≡ ok (render candidate, true)
parse_semver-render_example =
    parse_semver-render candidate (unfold is_semver text_eq in refl) (λ e. cc) (λ e. cc)

accepted_version : parse_semver (codes "1.2.3-a") ≡ ok (codes "1.2.3-a", true)
unfolding parse_semver text_eq
accepted_version = refl

parse_semver-is_semver_example :
    (codes "1.2.3-a" ≡ codes "1.2.3-a")
    × ((v : Semver) × (is_semver v ≡ true)
        × (render v ≡ codes "1.2.3-a")
        × (true ≡ is_some v.prerelease))
parse_semver-is_semver_example =
    parse_semver-is_semver (codes "1.2.3-a") (codes "1.2.3-a") true accepted_version

abbrev arguments : Arguments
arguments = record {
  repo = codes "cataggar/rpmz";
  tag = codes "v1.2.3";
  version = codes "1.2.3";
  platform = codes "linux-arm64";
}

accepted_arguments : validate_arguments arguments manifest ≡ ok tt
unfolding validate_arguments text_eq
accepted_arguments = refl

refused_tag :
    validate_arguments
      (record {
        repo = arguments.repo;
        tag = codes "1.2.3";
        version = arguments.version;
        platform = arguments.platform;
      })
      manifest
    ≡ raise (tag_mismatch (codes "1.2.3") (codes "1.2.3"))
unfolding validate_arguments text_eq
refused_tag = refl

validate_arguments-emit_version_example :
    (arguments.repo ≡ manifest.repository)
    × (mem arguments.platform manifest.platforms ≡ true)
    × (arguments.tag ≡ codes "v" ++ arguments.version)
    × ((p : Text × Bool) × (parse_semver arguments.version ≡ ok p)
        × (emit_version arguments.tag ≡ ok p))
validate_arguments-emit_version_example =
    validate_arguments-emit_version arguments manifest accepted_arguments

verify_checksum-write_checksum_example :
    (verify_checksum
        (write_checksum (codes "0af") (codes "a.tar.gz"))
        (codes "0ae")
        (codes "a.tar.gz")
      ≡ ok tt)
    ↔ ((codes "0af" ≡ codes "0ae") × (codes "a.tar.gz" ≡ codes "a.tar.gz"))
verify_checksum-write_checksum_example =
    verify_checksum-write_checksum (codes "0af") (codes "a.tar.gz") (codes "0ae") (codes "a.tar.gz")
      (unfold is_space in refl) (unfold is_space in refl) (λ e. cc) (λ e. cc)
