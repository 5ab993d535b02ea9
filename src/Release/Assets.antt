-- ===== src/Release/Assets.antt =====
-- `names` of scripts/release.py, and `expected_assets` of scripts/release-smoke.py, which is written apart
-- from it and has to agree.
use rpmz.Base.{
  ◌≡◌, refl, ap, ◌∙◌, inl, inr, Bool, true, false, not, ◌&&◌, ◌||◌, Option, none, some, List, [],
  ◌∷◌, ◌++◌, arith, if◌then◌else◌, Bool-cases, Text, codes, texts, text_eq, text_eq_iff, lower, mem,
  set_eq, mem_self, mem-append, set_eq_iff,
}

-- .github/release-assets.json; a format string is the function of the version, or of the version and
-- the platform, that it stands for.
pub record Manifest : Type 0 where
  pub repository : Text
  pub platforms : List Text
  pub source_archive : Text → Text
  pub binary_archive : Text → Text → Text
  pub sbom : Text → Text → Text

abbrev pub checksum_of : Text → Text
checksum_of name = name ++ codes ".sha256"

abbrev pub assets_of : Manifest → Text → Text → List Text
assets_of m version current =
    m.binary_archive version current
    ∷ checksum_of (m.binary_archive version current)
    ∷ m.sbom version current
    ∷ []

-- `platform_name is not None and current != platform_name`
unfoldable pub passes_over : Option Text → Text → Bool
unfolding text_eq
passes_over none current = false
passes_over (some p) current = not (text_eq current p)

-- The loop over the platforms.
unfoldable pub platform_names : Manifest → Text → Option Text → List Text → List Text
unfolding passes_over
platform_names m version platform_name [] = []
platform_names m version platform_name (current ∷ platforms) =
    let rest = platform_names m version platform_name platforms in
    if passes_over platform_name current then rest else assets_of m version current ++ rest

unfoldable pub names : Manifest → Text → Option Text → List Text
unfolding platform_names
names m version platform_name =
    m.source_archive version
    ∷ (platform_names m version platform_name m.platforms
        ++ (checksum_of (m.source_archive version) ∷ []))

unfoldable pub platform_assets : Manifest → Text → List Text → List Text
platform_assets m version [] = []
platform_assets m version (current ∷ platforms) =
    assets_of m version current ++ platform_assets m version platforms

unfoldable pub expected_assets : Manifest → Text → List Text
unfolding platform_assets
expected_assets m version =
    m.source_archive version
    ∷ checksum_of (m.source_archive version)
    ∷ platform_assets m version m.platforms

-- `host_platform`, on `platform.machine()`
unfoldable pub host_platform : Text → Option Text
unfolding mem lower
host_platform machine =
    let name = lower machine in
    if mem name (texts ("x86_64" ∷ "amd64" ∷ []))
    then some (codes "linux-x64")
    else if mem name (texts ("aarch64" ∷ "arm64" ∷ []))
    then some (codes "linux-arm64")
    else none

all_platforms :
    (m : Manifest) (version : Text) (ps : List Text)
    → platform_names m version none ps ≡ platform_assets m version ps
unfolding platform_names platform_assets
all_platforms m version [] = refl
all_platforms m version (p ∷ ps) = ap (λ r. assets_of m version p ++ r) (all_platforms m version ps)

-- The names that the release script writes and verifies are, as a set, the assets that the smoke test
-- expects of the published release, for every manifest and version.
pub names-expected_assets :
    (m : Manifest) (version : Text)
    → set_eq (names m version none) (expected_assets m version) ≡ true
unfolding names expected_assets
names-expected_assets m version =
    (set_eq_iff (names m version none) (expected_assets m version)).1 (λ x.
      unfold mem in
      rw
        (
          mem-append x (platform_names m version none m.platforms)
              (checksum_of (m.source_archive version) ∷ []),
          all_platforms m version m.platforms,
        )
        (ground arith))

one_platform :
    (m : Manifest) (version p x : Text) (ps : List Text)
    → mem x (platform_names m version (some p) ps) ≡ (mem p ps && mem x (assets_of m version p))
unfolding platform_names passes_over
one_platform m version p x [] = unfold mem in refl
one_platform m version p x (q ∷ ps) = elim (Bool-cases (text_eq q p)) [
  | inl e ↦
      let same = (text_eq_iff q p).0 e in
      rw (e, platform_names)
        (rw same (
          mem-append x (assets_of m version p) (platform_names m version (some p) ps)
          ∙ rw (one_platform m version p x ps, mem_self p ps) (ground arith)))
  | inr e ↦ rw (e, platform_names) (one_platform m version p x ps ∙ rw (other e) refl)
]
  where
    other : text_eq q p ≡ false → mem p (q ∷ ps) ≡ mem p ps
    other e = unfold mem in ground (arith, text_eq_iff p q, text_eq_iff q p)

-- With a platform given, the names are the source archive with its checksum, and the archive, checksum
-- and SBOM of that platform if the manifest lists it; no asset of another platform is among them.
pub mem-names :
    (m : Manifest) (version p x : Text)
    → mem x (names m version (some p)) ≡ (
        mem x (m.source_archive version ∷ checksum_of (m.source_archive version) ∷ [])
        || (mem p m.platforms && mem x (assets_of m version p)))
unfolding names mem
mem-names m version p x =
    rw
      (
        mem-append x (platform_names m version (some p) m.platforms)
            (checksum_of (m.source_archive version) ∷ []),
        one_platform m version p x m.platforms,
      )
      (ground arith)
