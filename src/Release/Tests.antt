-- ===== src/Release/Tests.antt =====
-- Runs of the release checks on a small manifest and a small archive.
use rpmz.Base.{
  ℕ, ◌≡◌, refl, sym, ap, ◌∙◌, ◌↔◌, inl, inr, Bool, true, false, ◌&&◌, ◌||◌, none, some, List, [],
  ◌∷◌, ◌++◌, arith, drop, All, In, In-cons, not-In-nil, Text, codes, texts, text_eq, is_space,
  is_some, split, mem, set_eq, ok, raise,
}
mod Versions
mod Verified
mod Trials
use rpmz.Release.Paths.{safe_relative}
use rpmz.Release.Paths.Below.{walk, IsBelow, safe_relative-IsBelow}
use rpmz.Release.Assets.{
  Manifest, names, expected_assets, names-expected_assets, mem-names, checksum_of, assets_of,
}
use rpmz.Release.Archive.{Member, file, directory, symlink, hardlink, unsafe_link, verify_archive}
use rpmz.Release.Sbom.{Entry, write_sbom, verify_sbom, files_of, first_of, file_sets_differ}
use rpmz.Release.Sbom.Covers.{HasEntry, verify_sbom-HasEntry}
use rpmz.Release.Sbom.RoundTrip.{packaged, IsFunctional, verify_sbom-write_sbom}
use rpmz.Release.Archive.Accepted.{IsAccepted, verify_archive-IsAccepted}

abbrev manifest : Manifest
manifest = record {
  repository = codes "cataggar/rpmz";
  platforms = texts ("linux-x64" ∷ "linux-arm64" ∷ []);
  source_archive = λ v. codes "rpmz-" ++ (v ++ codes ".tar.xz");
  binary_archive = λ v p. codes "rpmz-" ++ (v ++ (codes "-" ++ (p ++ codes ".tar.gz")));
  sbom = λ v p. codes "rpmz-" ++ (v ++ (codes "-" ++ (p ++ codes ".sbom.spdx.json")));
}

one_platform_names :
    names manifest (codes "1.2.3") (some (codes "linux-x64"))
    ≡ texts (
        "rpmz-1.2.3.tar.xz" ∷ "rpmz-1.2.3-linux-x64.tar.gz" ∷ "rpmz-1.2.3-linux-x64.tar.gz.sha256"
        ∷ "rpmz-1.2.3-linux-x64.sbom.spdx.json" ∷ "rpmz-1.2.3.tar.xz.sha256" ∷ [])
unfolding names text_eq
one_platform_names = refl

names-expected_assets_example :
    set_eq (names manifest (codes "1.2.3") none) (expected_assets manifest (codes "1.2.3")) ≡ true
names-expected_assets_example = names-expected_assets manifest (codes "1.2.3")

mem-names_example : mem (codes "a") (names manifest (codes "1.2.3") (some (codes "linux-x64"))) ≡ (
    mem (codes "a") (
      manifest.source_archive (codes "1.2.3")
      ∷ checksum_of (manifest.source_archive (codes "1.2.3"))
      ∷ [])
    || (mem (codes "linux-x64") manifest.platforms
        && mem (codes "a") (assets_of manifest (codes "1.2.3") (codes "linux-x64"))))
mem-names_example = mem-names manifest (codes "1.2.3") (codes "linux-x64") (codes "a")

refused_paths :
    (safe_relative (codes "/etc") ≡ false)
    × (safe_relative (codes "a/../b") ≡ false)
    × (safe_relative (codes "./") ≡ false)
    × (safe_relative (codes "./a//b") ≡ true)
unfolding safe_relative text_eq
refused_paths = (refl, refl, refl, refl)

safe_relative-IsBelow_example :
    IsBelow (codes "tmp" ∷ []) (walk (codes "tmp" ∷ []) (split b'/' (codes "./a//b")))
safe_relative-IsBelow_example =
    safe_relative-IsBelow (codes "./a//b") (unfold safe_relative text_eq in refl) (codes "tmp" ∷ [])

abbrev plain_file : Text → ℕ → Member
plain_file n mode = record {
  name = codes "rpmz-1-x/" ++ n;
  kind = file;
  linkname = [];
  mode = mode;
  digest = [];
}

abbrev link_to : Text → Member
link_to t = record {
  name = codes "rpmz-1-x/lib/a";
  kind = symlink;
  linkname = t;
  mode = 511;
  digest = [];
}

abbrev members : List Member
members =
    record { name = codes "rpmz-1-x/"; kind = directory; linkname = []; mode = 493; digest = [] }
    ∷ plain_file (codes "bin/rpmz") 493
    ∷ plain_file (codes "COPYING") 420
    ∷ plain_file (codes "README.md") 420
    ∷ link_to (codes "librpmz.so")
    ∷ record (link_to (codes "rpmz-1-x/bin/rpmz")) {
      name = codes "rpmz-1-x/libexec/rpmz";
      kind = hardlink;
    }
    ∷ plain_file (codes "libexec/helper") 420
    ∷ plain_file (codes "etc/rpmz.conf") 420
    ∷ []

accepted_archive : verify_archive members (codes "1") (codes "x") ≡ ok tt
unfolding verify_archive text_eq
accepted_archive = refl

refused_link :
    verify_archive (link_to (codes "../../../etc") ∷ members) (codes "1") (codes "x")
    ≡ raise (unsafe_link (codes "rpmz-1-x/lib/a"))
unfolding verify_archive text_eq
refused_link = refl

verify_archive-IsAccepted_example : IsAccepted (codes "rpmz-1-x") members (codes "opt" ∷ [])
verify_archive-IsAccepted_example =
    verify_archive-IsAccepted members (codes "1") (codes "x") accepted_archive (codes "opt" ∷ [])

abbrev staged : List (Text × Text)
staged = (codes "bin/rpmz", codes "d1") ∷ []

abbrev packed : List Member
packed =
    record {
      name = codes "p/bin/rpmz";
      kind = file;
      linkname = [];
      mode = 493;
      digest = codes "d1";
    }
    ∷ []

sbom_differs : verify_sbom [] (write_sbom (codes "p") staged) ≡ raise file_sets_differ
unfolding verify_sbom write_sbom text_eq
sbom_differs = refl

staged-IsFunctional : IsFunctional (packaged (codes "p") staged)
unfolding packaged
staged-IsFunctional name d e m n = digest_is d m ∙ sym (digest_is e n)
  where
    digest_is :
        (x : Text)
        → In {A = Text × Text} (name, x) ((codes "p/bin/rpmz", codes "d1") ∷ [])
        → x ≡ codes "d1"
    digest_is x m = elim (In-cons m) [
      | inl i ↦ ap (λ (p : Text × Text). p.1) i
      | inr r ↦ absurd (not-In-nil r)
    ]

same_files :
    (name digest : Text)
    → In (name, digest) (files_of packed) ↔ In (name, digest) (packaged (codes "p") staged)
unfolding files_of packaged
same_files name digest = (λ m. m, λ m. m)

verify_sbom-write_sbom_example : verify_sbom packed (write_sbom (codes "p") staged) ≡ ok tt
verify_sbom-write_sbom_example =
    verify_sbom-write_sbom packed (codes "p") staged (omega arith) staged-IsFunctional same_files

sbom_accepted : verify_sbom packed (write_sbom (codes "p") staged) ≡ ok tt
unfolding verify_sbom write_sbom text_eq
sbom_accepted = refl

verify_sbom-HasEntry_example :
    All (HasEntry (write_sbom (codes "p") staged).files) (files_of packed)
    × All
        (λ (e : Entry). mem (drop 2 e.path) (first_of (files_of packed)) ≡ true)
        (write_sbom (codes "p") staged).files
verify_sbom-HasEntry_example =
    verify_sbom-HasEntry packed (write_sbom (codes "p") staged) sbom_accepted
