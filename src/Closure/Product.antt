-- ===== src/Closure/Product.antt =====
-- `extract_dependency_closure` of scripts/product-no-libsolv-fetch-audit.py: the packages the product
-- build is given, taken from a cache of directories and archives.
use rpmz.Base.{
  ℕ, ◌+◌, ◌<◌, ◌≡◌, refl, ◌≢◌, ◌↔◌, ◌⊎◌, inl, inr, Bool, true, false, ◌||◌, Option, none, some,
  List, [], arith, if◌then◌else◌, length, Text, codes, starts_with, mem, Outcome, ok,
}
use rpmz.Closure.Worklist.{
  Fault, libsolv_requested, missing_package, Visit, takes, fails, push, length-push, loop,
}
use rpmz.Closure.Worklist.Reach.{Reaches, AddsPins, loop-Reaches}
use rpmz.Closure.Worklist.Ends.{pins_left, loop-ends}
use rpmz.Closure.Pins.{pins_in}

-- The package cache: which hashes are a directory of it, which an archive, and the `build.zig.zon` of a
-- package once it is copied or unpacked, where it has one.
pub record Cache : Type 0 where
  pub is_dir : Text → Bool
  pub is_archive : Text → Bool
  pub manifest : Text → Option Text

unfoldable pub requests_libsolv : Text → Bool
unfolding starts_with
requests_libsolv h = starts_with h (codes "libsolv-")

-- The body of the loop for one hash that is not extracted yet.
unfoldable pub visit : Cache → Text → Visit
unfolding requests_libsolv
visit c h =
    if requests_libsolv h
    then fails libsolv_requested
    else if c.is_dir h || c.is_archive h
    then takes
    else fails (missing_package h)

-- The hashes that go on the list for a package that is extracted.
unfoldable pub manifest_pins : Cache → Text → List Text
unfolding pins_in
manifest_pins c h = elim (c.manifest h) [ none ↦ [] | some text ↦ pins_in text ]

unfoldable pub extract_dependency_closure :
    Cache → ℕ → List Text → Option (Outcome Fault (List Text))
unfolding push loop visit manifest_pins
extract_dependency_closure c fuel initial_hashes =
    loop (visit c) (λ _. manifest_pins c) fuel (push initial_hashes []) []

adds : (c : Cache) → AddsPins (manifest_pins c) (λ _. manifest_pins c)
adds c = record { only = λ p g h m. m; all = λ p g h m. inl m; no_more = λ p g. omega arith }

takes-available :
    (c : Cache) (h : Text)
    → visit c h ≡ takes
    → (requests_libsolv h ≡ false) × (c.is_dir h || c.is_archive h ≡ true)
unfolding visit
takes-available c h e = go (requests_libsolv h) (c.is_dir h || c.is_archive h) e
  where
    go :
        (a b : Bool)
        → (if a then fails libsolv_requested else if b then takes else fails (missing_package h))
          ≡ takes
        → (a ≡ false) × (b ≡ true)
    go true b e = cc
    go false true e = (refl, refl)
    go false false e = cc

never-skips : (c : Cache) (h : Text) → (visit c h ≡ takes) ⊎ ((e : Fault) × (visit c h ≡ fails e))
unfolding visit
never-skips c h = go (requests_libsolv h) (c.is_dir h || c.is_archive h)
  where
    go :
        (a b : Bool)
        → let v =
            if a then fails libsolv_requested else if b then takes else fails (missing_package h) in
          (v ≡ takes) ⊎ ((e : Fault) × (v ≡ fails e))
    go true b = inr (libsolv_requested, refl)
    go false true = inl refl
    go false false = inr (missing_package h, refl)

-- A hash that the product's manifests reach from the first ones.
abbrev pub Pinned : Cache → List Text → Text → Type 0
Pinned c initial_hashes = Reaches (visit c) (manifest_pins c) (push initial_hashes [])

-- Where the extraction of the closure ends without an exception, the packages it has extracted are
-- exactly the hashes that are reachable from the first ones through the manifests of extracted
-- packages; and each of them was a directory or an archive of the cache and is no libsolv package.
pub extract_dependency_closure-ok :
    (c : Cache) (fuel : ℕ) (initial_hashes out : List Text)
    → extract_dependency_closure c fuel initial_hashes ≡ some (ok out)
    → (h : Text)
    → ((mem h out ≡ true) ↔ Pinned c initial_hashes h)
      × ((mem h out ≡ true) ↔ (
          Pinned c initial_hashes h
          × (c.is_dir h || c.is_archive h ≡ true)
          × (requests_libsolv h ≡ false)))
unfolding extract_dependency_closure
extract_dependency_closure-ok c fuel initial_hashes out k h = (
  (λ m. ((same h).0 m).0, λ r. (same h).1 (r, taken h r)),
  (
    λ m. let (r, t) = (same h).0 m in (r, (takes-available c h t).1, (takes-available c h t).0),
    λ (r, a, b). (same h).1 (r, taken h r),
  ),
)
  where
    same : (h : Text) → (mem h out ≡ true) ↔ (Pinned c initial_hashes h × (visit c h ≡ takes))
    same =
        (loop-Reaches (visit c) (manifest_pins c) (λ _. manifest_pins c) (adds c)
          (push initial_hashes []) fuel out k).0

    unfailing : (h : Text) (e : Fault) → Pinned c initial_hashes h → visit c h ≢ fails e
    unfailing =
        (loop-Reaches (visit c) (manifest_pins c) (λ _. manifest_pins c) (adds c)
          (push initial_hashes []) fuel out k).1

    taken : (h : Text) → Pinned c initial_hashes h → visit c h ≡ takes
    taken h r = elim (never-skips c h) [ inl t ↦ t | inr (e, f) ↦ absurd (unfailing h e r f) ]

-- If the hashes that the cache has stand in a list of packages, then as much fuel as there are first
-- hashes and pins of the packages in the list, and one, is enough: the extraction ends, with the
-- packages or with an exception.
pub extract_dependency_closure-ends :
    (c : Cache) (packages : List Text)
    → ((h : Text) → c.is_dir h || c.is_archive h ≡ true → mem h packages ≡ true)
    → (initial_hashes : List Text) (fuel : ℕ)
    → length initial_hashes + pins_left (manifest_pins c) packages [] < fuel
    → (r : Outcome Fault (List Text)) × (extract_dependency_closure c fuel initial_hashes ≡ some r)
unfolding extract_dependency_closure
extract_dependency_closure-ends c packages known initial_hashes fuel enough =
    loop-ends (visit c) (manifest_pins c) (λ _. manifest_pins c) (adds c) packages
      (λ h e. known h (takes-available c h e).1) fuel (push initial_hashes []) []
      (omega (arith, length-push initial_hashes [], enough))
