-- ===== src/Release/Verify.antt =====
-- `verify_assets` of scripts/release.py: a directory of release assets against the manifest.
use rpmz.Base.{
  ◌≡◌, refl, Bool, true, ◌&&◌, Option, none, some, List, [], ◌∷◌, ◌++◌, arith, if◌then◌else◌, All,
  All-imp, Text, codes, text_eq_iff, starts_with, strip, split, set_eq, Outcome, ok, raise, ◌>>◌,
  guard, guard-eq-ok, for_each, then-eq-ok, >>-eq-ok, for_each-All, for_each-guard,
}
use rpmz.Release.Paths.{safe_relative, same_parts}
use rpmz.Release.Paths.Below.{walk, IsBelow, safe_relative-IsBelow}
use rpmz.Release.Assets.{Manifest, names, checksum_of}
use rpmz.Release.Archive.{Member, ReleaseError, unsafe_member, verify_archive}
use rpmz.Release.Archive.Accepted.{IsAccepted, verify_archive-IsAccepted}
use rpmz.Release.Sidecar.{ChecksumError, invalid_checksum, fields_from, verify_checksum}
use rpmz.Release.Sbom.{Document, SbomError, files_of, verify_sbom}
use rpmz.Release.Sbom.Covers.{HasEntry, verify_sbom-HasEntry}

-- The directory: its entries, each with `is_file()`, and what is read of a file under its name.
pub record Directory : Type 0 where
  pub entries : List (Text × Bool)
  pub members : Text → List Member
  pub text : Text → Text
  pub digest : Text → Text
  pub document : Text → Document

pub data AssetError : Type 0 where
  assets_differ : AssetError
  archive_error : ReleaseError → AssetError
  checksum_error : ChecksumError → AssetError
  sbom_error : SbomError → AssetError

abbrev lift {ℓ κ} :
    {E : Type ℓ} {F : Type κ} → (E → F) → Outcome E (Unit {0}) → Outcome F (Unit {0})
lift f (ok u) = ok u
lift f (raise e) = raise (f e)

-- `actual`
unfoldable pub actual_assets : Text → List (Text × Bool) → List Text
unfolding starts_with
actual_assets version [] = []
actual_assets version ((name, is_file) ∷ es) =
    let rest = actual_assets version es in
    if is_file && starts_with name (codes "rpmz-" ++ version) then name ∷ rest else rest

unfoldable pub verify_file_checksum : Directory → Text → Outcome AssetError (Unit {0})
unfolding verify_checksum
verify_file_checksum d name =
    lift checksum_error (verify_checksum (d.text (checksum_of name)) (d.digest name) name)

-- The body of the loop over the platforms.
unfoldable pub verify_platform : Directory → Manifest → Text → Text → Outcome AssetError (Unit {0})
unfolding verify_archive verify_file_checksum verify_sbom
verify_platform d m version current =
    let archive = m.binary_archive version current in
    lift archive_error (verify_archive (d.members archive) version current)
    >> (verify_file_checksum d archive
        >> lift sbom_error (verify_sbom (d.members archive) (d.document (m.sbom version current))))

abbrev pub verified_platforms : Manifest → Option Text → List Text
verified_platforms m none = m.platforms
verified_platforms m (some p) = p ∷ []

unfoldable pub verify_platforms :
    Directory → Manifest → Text → List Text → Outcome AssetError (Unit {0})
unfolding verify_platform
verify_platforms d m version platforms = for_each (verify_platform d m version) platforms

unfoldable pub verify_source : Directory → Text → Outcome AssetError (Unit {0})
unfolding verify_file_checksum safe_relative
verify_source d source =
    verify_file_checksum d source
    >> for_each
        (λ (x : Member). guard (safe_relative x.name) (archive_error (unsafe_member x.name)))
        (d.members source)

unfoldable pub verify_assets :
    Directory → Manifest → Text → Option Text → Outcome AssetError (Unit {0})
unfolding set_eq actual_assets names verify_platforms verify_source
verify_assets d m version platform_name =
    guard (set_eq (actual_assets version d.entries) (names m version platform_name)) assets_differ
    >> (verify_platforms d m version (verified_platforms m platform_name)
        >> verify_source d (m.source_archive version))

lift-eq_ok {ℓ κ} :
    {E : Type ℓ} {F : Type κ} (f : E → F) (o : Outcome E (Unit {0})) → lift f o ≡ ok tt → o ≡ ok tt
lift-eq_ok f (ok tt) h = refl
lift-eq_ok f (raise e) h = cc

same_parts_iff : (xs ys : List Text) → same_parts xs ys ≡ true → xs ≡ ys
unfolding same_parts
same_parts_iff [] [] h = refl
same_parts_iff [] (y ∷ ys) h = cc
same_parts_iff (x ∷ xs) [] h = cc
same_parts_iff (x ∷ xs) (y ∷ ys) h = ground (arith, text_eq_iff x y, same_parts_iff xs ys)

-- The checksum file of the archive has its digest and its name, and nothing else.
abbrev pub HasChecksum : Directory → Text → Type 0
HasChecksum d name = fields_from [] (strip (d.text (checksum_of name))) ≡ d.digest name ∷ name ∷ []

verify_file_checksum-HasChecksum :
    (d : Directory) (name : Text) → verify_file_checksum d name ≡ ok tt → HasChecksum d name
unfolding verify_file_checksum verify_checksum
verify_file_checksum-HasChecksum d name h =
    same_parts_iff _ (d.digest name ∷ name ∷ [])
      (guard-eq-ok _ invalid_checksum (lift-eq_ok checksum_error _ h))

-- What a verified platform has: its archive would be accepted wherever it is unpacked, the checksum is
-- right, and the document has each file of the archive with its digest.
pub record IsVerified (d : Directory) (m : Manifest) (version : Text) (dir : List Text)
    (current : Text) : Type 0 where
  pub accepted :
      IsAccepted
        (codes "rpmz-" ++ (version ++ (codes "-" ++ current)))
        (d.members (m.binary_archive version current))
        dir
  pub checksum : HasChecksum d (m.binary_archive version current)
  pub covered :
      All
        (HasEntry (d.document (m.sbom version current)).files)
        (files_of (d.members (m.binary_archive version current)))

verify_platform-IsVerified :
    (d : Directory) (m : Manifest) (version : Text) (dir : List Text) (current : Text)
    → verify_platform d m version current ≡ ok tt
    → IsVerified d m version dir current
unfolding verify_platform
verify_platform-IsVerified d m version dir current h =
    let archive = m.binary_archive version current in
    let (a, h1) =
      >>-eq-ok (lift archive_error (verify_archive (d.members archive) version current)) _ h in
    let (b, c) = >>-eq-ok (verify_file_checksum d archive) _ h1 in
    record {
      accepted =
          verify_archive-IsAccepted (d.members archive) version current
            (lift-eq_ok archive_error _ a) dir;
      checksum = verify_file_checksum-HasChecksum d archive b;
      covered =
          (verify_sbom-HasEntry (d.members archive) (d.document (m.sbom version current))
            (lift-eq_ok sbom_error _ c)).0;
    }

-- What `verify_assets` accepts is a complete release: the files of this version in the directory are,
-- as a set, the names of the manifest; for each platform that is verified the archive keeps inside any
-- directory that it is unpacked in and holds what a package has to hold, its checksum file is right and
-- its SBOM has each file with its digest; the checksum file of the source archive is right, and its
-- members keep inside as well.
pub verify_assets-IsVerified :
    (d : Directory) (m : Manifest) (version : Text) (platform_name : Option Text)
    → verify_assets d m version platform_name ≡ ok tt
    → (dir : List Text)
    → (set_eq (actual_assets version d.entries) (names m version platform_name) ≡ true)
      × All (IsVerified d m version dir) (verified_platforms m platform_name)
      × HasChecksum d (m.source_archive version)
      × All (λ x. IsBelow dir (walk dir (split b'/' x.name))) (d.members (m.source_archive version))
unfolding verify_assets verify_platforms verify_source
verify_assets-IsVerified d m version platform_name h dir =
    let source = m.source_archive version in
    let (a, h1) =
      then-eq-ok (set_eq (actual_assets version d.entries) (names m version platform_name))
        assets_differ _ h in
    let (b, h2) =
      >>-eq-ok (verify_platforms d m version (verified_platforms m platform_name)) _ h1 in
    let (c, e) = >>-eq-ok (verify_file_checksum d source) _ h2 in
    (
      a,
      All-imp (λ p. verify_platform d m version p ≡ ok tt) (IsVerified d m version dir)
          (verify_platform-IsVerified d m version dir) (verified_platforms m platform_name)
          (for_each-All (verify_platform d m version) (verified_platforms m platform_name) b),
      verify_file_checksum-HasChecksum d source c,
      All-imp (λ (x : Member). safe_relative x.name ≡ true)
          (λ x. IsBelow dir (walk dir (split b'/' x.name)))
          (λ x k. safe_relative-IsBelow x.name k dir) (d.members source)
          (for_each-guard (λ (x : Member). safe_relative x.name)
            (λ x. archive_error (unsafe_member x.name)) (d.members source) e),
    )
