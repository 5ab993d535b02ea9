-- ===== src/Closure/Tests.antt =====
-- Runs of the two closures on a small cache and a small checkout.
use rpmz.Base.{
  ◌+◌, ◌≡◌, refl, ◌↔◌, Bool, true, false, ◌||◌, Option, none, some, List, [], ◌∷◌, arith,
  if◌then◌else◌, length, drop, All, Text, codes, texts, text_eq, starts_with, is_space, mem,
  Outcome, ok, raise,
}
use rpmz.Closure.Worklist.{Fault, libsolv_requested, missing_hash, missing_requirement}
use rpmz.Closure.Worklist.Ends.{pins_left}
use rpmz.Closure.Pins.{pins_in, match_dependency, dependency_hashes}
use rpmz.Closure.Product.{
  Cache, manifest_pins, Pinned, requests_libsolv, extract_dependency_closure,
  extract_dependency_closure-ok, extract_dependency_closure-ends,
}
use rpmz.Closure.PublicApi.{
  Checkout, pinned_hashes, pins_of, is_provided, required_dependency_names, provide_system_packages,
}
use rpmz.Closure.PublicApi.Provides.{
  Pinned as ProvidedPinned, provide_system_packages-ok, provide_system_packages-ends,
}

abbrev manifest : Text
manifest =
    codes
      ".deps = .{ .tls = .{ .url = \"u\", .hash = \"tls-1\" }, .sqlite = .{ .hash=\"sqlite-2\" } }"

read_pins : pins_in manifest ≡ codes "tls-1" ∷ codes "sqlite-2" ∷ []
unfolding pins_in is_space
read_pins = refl

find_dependency : match_dependency (codes "tls") (drop 11 manifest) ≡ some (codes "tls-1")
unfolding match_dependency is_space
find_dependency = refl

missing_dependency :
    dependency_hashes manifest (codes "tls" ∷ codes "zlua" ∷ [])
    ≡ raise (missing_hash (codes "zlua"))
unfolding dependency_hashes is_space
missing_dependency = refl

abbrev has : List Text → Text → Bool
has [] h = false
has (x ∷ xs) h = text_eq h x || has xs h

abbrev manifest_of : Text → Option Text
manifest_of h =
    if text_eq h (codes "a")
    then some (codes ".hash=\"b\" .hash=\"c\"")
    else if text_eq h (codes "b")
    then some (codes ".hash=\"a\"")
    else none

abbrev cache : Cache
cache = record {
  is_dir = has (texts ("a" ∷ "c" ∷ []));
  is_archive = has (texts ("b" ∷ []));
  manifest = manifest_of;
}

abbrev packages : List Text
packages = texts ("a" ∷ "b" ∷ "c" ∷ [])

extract_cycle :
    extract_dependency_closure cache 10 (codes "a" ∷ []) ≡ some (ok (texts ("b" ∷ "c" ∷ "a" ∷ [])))
unfolding extract_dependency_closure is_space text_eq
extract_cycle = refl

extract_libsolv :
    extract_dependency_closure cache 10 (codes "libsolv-1" ∷ []) ≡ some (raise libsolv_requested)
unfolding extract_dependency_closure is_space
extract_libsolv = refl

abbrev extracted : List Text
extracted = texts ("b" ∷ "c" ∷ "a" ∷ [])

extract_dependency_closure-ok_example :
    ((mem (codes "b") extracted ≡ true) ↔ Pinned cache (codes "a" ∷ []) (codes "b"))
    × ((mem (codes "b") extracted ≡ true) ↔ (
        Pinned cache (codes "a" ∷ []) (codes "b")
        × (cache.is_dir (codes "b") || cache.is_archive (codes "b") ≡ true)
        × (requests_libsolv (codes "b") ≡ false)))
extract_dependency_closure-ok_example =
    extract_dependency_closure-ok cache 10 (codes "a" ∷ []) extracted extract_cycle (codes "b")

cache_known : (h : Text) → cache.is_dir h || cache.is_archive h ≡ true → mem h packages ≡ true
unfolding mem
cache_known h e = ground arith

cache_pins : length (codes "a" ∷ []) + pins_left (manifest_pins cache) packages [] ≡ 4
unfolding pins_left manifest_pins is_space text_eq mem
cache_pins = refl

extract_dependency_closure-ends_example :
    (r : Outcome Fault (List Text)) × (extract_dependency_closure cache 10 (codes "a" ∷ [])
      ≡ some r)
extract_dependency_closure-ends_example =
    extract_dependency_closure-ends cache packages cache_known (codes "a" ∷ []) 10
      (rw cache_pins (omega arith))

abbrev checkout : Checkout
checkout = record {
  has_zig_pkg = true;
  root_manifest = some (codes ".hash=\"tls-1\" .hash=\"zlua-1\" .hash=\"libsolv-1\"");
  is_dir = has (texts ("sqlite-1" ∷ "tls-1" ∷ "zlua-1" ∷ []));
  package_manifest = λ h.
      if text_eq h (codes "zlua-1")
      then some (codes ".hash=\"sqlite-1\" .hash=\"zlua-1\"")
      else none;
}

abbrev provided : List Text
provided = texts ("tls-1" ∷ "sqlite-1" ∷ "zlua-1" ∷ [])

provide_run : provide_system_packages checkout 10 ≡ some (ok provided)
unfolding provide_system_packages is_space text_eq
provide_run = refl

provide_missing :
    provide_system_packages
      (record {
        has_zig_pkg = true;
        root_manifest = none;
        is_dir = has [];
        package_manifest = λ h. none;
      })
      10
    ≡ some (raise (missing_requirement (codes "sqlite")))
unfolding provide_system_packages is_space
provide_missing = refl

provide_system_packages-ok_example :
    (checkout.has_zig_pkg ≡ true)
    × ((mem (codes "tls-1") provided ≡ true)
        ↔ (ProvidedPinned checkout (codes "tls-1") × (checkout.is_dir (codes "tls-1") ≡ true)))
    × (ProvidedPinned checkout (codes "tls-1") ↔ (
        ProvidedPinned checkout (codes "tls-1")
        × (checkout.is_dir (codes "tls-1") || starts_with (codes "tls-1") (codes "libsolv-")
            ≡ true)))
    × All (λ name. is_provided name provided ≡ true) required_dependency_names
provide_system_packages-ok_example =
    provide_system_packages-ok checkout 10 provided provide_run (codes "tls-1")

checkout_known : (h : Text) → checkout.is_dir h ≡ true → mem h provided ≡ true
unfolding mem
checkout_known h e = ground arith

checkout_pins :
    length (pinned_hashes checkout.root_manifest) + pins_left (pins_of checkout) provided [] ≡ 5
unfolding pins_left pinned_hashes pins_of is_space text_eq mem
checkout_pins = refl

provide_system_packages-ends_example :
    (r : Outcome Fault (List Text)) × (provide_system_packages checkout 10 ≡ some r)
provide_system_packages-ends_example =
    provide_system_packages-ends checkout provided checkout_known 10
      (rw checkout_pins (omega arith))
