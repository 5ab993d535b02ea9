-- ===== src/Release/Tests/Verified.antt =====
-- A run of `verify_assets` on a directory with one platform.
use rpmz.Base.{
  ◌≡◌, refl, Bool, true, false, none, List, [], ◌∷◌, if◌then◌else◌, All, Text, codes, texts,
  text_eq, is_space, split, set_eq, ok, raise,
}
use rpmz.Release.Paths.Below.{walk, IsBelow}
use rpmz.Release.Assets.{Manifest, names}
use rpmz.Release.Archive.{Member}
use rpmz.Release.Sidecar.{write_checksum}
use rpmz.Release.Sbom.{write_sbom}
use rpmz.Release.Verify.{
  Directory, assets_differ, actual_assets, verified_platforms, verify_assets, HasChecksum,
  IsVerified, verify_assets-IsVerified,
}
use rpmz.Release.Tests.{manifest, members}

abbrev small_manifest : Manifest
small_manifest = record {
  repository = manifest.repository;
  platforms = texts ("x" ∷ []);
  source_archive = manifest.source_archive;
  binary_archive = manifest.binary_archive;
  sbom = manifest.sbom;
}

abbrev archive_name : Text
archive_name = codes "rpmz-1-x.tar.gz"

abbrev source_name : Text
source_name = codes "rpmz-1.tar.xz"

abbrev directory_of : List (Text × Bool) → Directory
directory_of entries = record {
  entries = entries;
  members = λ name. if text_eq name archive_name then members else [];
  text = λ name.
      write_checksum (codes "0af")
        (if text_eq name (codes "rpmz-1-x.tar.gz.sha256") then archive_name else source_name);
  digest = λ name. codes "0af";
  document = λ name. write_sbom (codes "rpmz-1-x") (
      (codes "bin/rpmz", [])
      ∷ (codes "COPYING", [])
      ∷ (codes "README.md", [])
      ∷ (codes "etc/rpmz.conf", [])
      ∷ (codes "libexec/helper", [])
      ∷ []);
}

abbrev release_directory : Directory
release_directory = directory_of (
    (codes "notes", true)
    ∷ (archive_name, true)
    ∷ (codes "rpmz-1-x.tar.gz.sha256", true)
    ∷ (codes "rpmz-1-x.sbom.spdx.json", true)
    ∷ (source_name, true)
    ∷ (codes "rpmz-1.tar.xz.sha256", true)
    ∷ (codes "rpmz-1-old", false)
    ∷ [])

verified_release : verify_assets release_directory small_manifest (codes "1") none ≡ ok tt
unfolding verify_assets write_sbom write_checksum text_eq is_space
verified_release = refl

missing_asset :
    verify_assets (directory_of ((archive_name, true) ∷ [])) small_manifest (codes "1") none
    ≡ raise assets_differ
unfolding verify_assets text_eq
missing_asset = refl

verify_assets-IsVerified_example :
    (set_eq
        (actual_assets (codes "1") release_directory.entries)
        (names small_manifest (codes "1") none)
      ≡ true)
    × All
        (IsVerified release_directory small_manifest (codes "1") (codes "opt" ∷ []))
        (verified_platforms small_manifest none)
    × HasChecksum release_directory source_name
    × All
        (λ (x : Member). IsBelow (codes "opt" ∷ []) (walk (codes "opt" ∷ []) (split b'/' x.name)))
        (release_directory.members source_name)
verify_assets-IsVerified_example =
    verify_assets-IsVerified release_directory small_manifest (codes "1") none verified_release
      (codes "opt" ∷ [])
