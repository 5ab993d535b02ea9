-- ===== src/Release/Version.antt =====
-- `SEMVER` and `parse_semver` of scripts/release_common.py, and `emit_version` of scripts/release.py. The
-- groups of the pattern are found at the first `+`, the first `-` before it and the dots, which stand
-- in no group.
use rpmz.Base.{
  cut, ℕ, zero, suc, ◌+◌, ◌-◌, ◌*◌, ◌/◌, ◌%◌, ◌≤◌, ◌<◌, String, ◌≡◌, refl, sym, ap, ◌∙◌, subst, ◌≢◌,
  ◌↔◌, ◌⊎◌, inl, inr, Bool, true, false, not, ◌&&◌, ◌||◌, Option, none, some, List, [], ◌∷◌, ◌++◌,
  map, append_assoc, append-nil, arith, ltb, leb, ◌==◌, if◌then◌else◌, ==_iff, ==_refl, Bool-cases,
  Option-cases, List-cases, and-true, or-true, not-true, length, get_elem?, take, drop, replicate,
  any, every, All, In, here, there, In-cons, not-In-nil, In-append_left, In-append_right,
  In-append_cases, length-append, length-drop, length-take_of_le, length-replicate,
  take-append-drop, if-cases, All-append, All-imp, every-All, length-map, Text, codes, texts,
  text_eq, text_eq_iff, text_eq_refl, starts_with, starts_with-append, starts_with-eq, ends_with,
  contains, is_space, lstrip, rstrip, strip, split, join, lower, mem, subset, set_eq, mem_self,
  mem-cons, mem-append, mem-subset, subset_intro, set_eq_iff, Outcome, ok, raise, ◌>>=◌, ◌>>◌,
  guard, >>=-eq-ok, guard-eq-ok, for_each, then-eq-ok, >>-eq-ok, for_each-In, for_each-All,
  for_each-guard, for_each_intro, is_digit, is_word, starts_name, is_hex, drop_while, take_while,
  take_while-append-drop_while, after, word_ends, search, find_all, is_some, match_word, expand,
}
pub mod Grammar
pub mod Complete

abbrev pub is_id_char : ℕ → Bool
is_id_char c =
    is_digit c || ((leb b'a' c && leb c b'z') || ((leb b'A' c && leb c b'Z') || c == b'-'))

-- `0|[1-9][0-9]*`
unfoldable pub is_numeric : Text → Bool
unfolding text_eq
is_numeric [] = false
is_numeric (c ∷ s) = is_digit c && (every is_digit s && (not (c == b'0') || text_eq s []))

-- `0|[1-9][0-9]*|[0-9A-Za-z-]*[A-Za-z-][0-9A-Za-z-]*`
unfoldable pub is_prerelease_id : Text → Bool
unfolding is_numeric
is_prerelease_id t = is_numeric t || (every is_id_char t && any (λ c. not (is_digit c)) t)

-- `[0-9A-Za-z-]+`
unfoldable pub is_build_id : Text → Bool
unfolding text_eq
is_build_id t = every is_id_char t && not (text_eq t [])

-- The groups of the pattern; the identifiers of the last two between the dots.
pub record Semver : Type 0 where
  pub major : Text
  pub minor : Text
  pub patch : Text
  pub prerelease : Option (List Text)
  pub build : Option (List Text)

abbrev pub dotted : Option Text → Option (List Text)
dotted none = none
dotted (some t) = some (split b'.' t)

unfoldable pub with_core : List Text → Option (List Text) → Option (List Text) → Option Semver
with_core (a ∷ b ∷ c ∷ []) prerelease build =
    some (record { major = a; minor = b; patch = c; prerelease = prerelease; build = build })
with_core _ _ _ = none

unfoldable pub groups : Text → Option Semver
unfolding cut with_core split
groups t =
    let (front, build) = cut b'+' t in
    let (core, prerelease) = cut b'-' front in
    with_core (split b'.' core) (dotted prerelease) (dotted build)

abbrev pub each_id : (Text → Bool) → Option (List Text) → Bool
each_id test none = true
each_id test (some ids) = every test ids

unfoldable pub is_semver : Semver → Bool
unfolding is_numeric is_prerelease_id is_build_id
is_semver v =
    is_numeric v.major
    && (is_numeric v.minor
        && (is_numeric v.patch
            && (each_id is_prerelease_id v.prerelease && each_id is_build_id v.build)))

pub data VersionError : Type 0 where
  invalid_version bad_tag : Text → VersionError

-- The version and whether it is a prerelease.
unfoldable pub parse_semver : Text → Outcome VersionError (Text × Bool)
unfolding groups is_semver
parse_semver value = elim (groups value) [
  | none ↦ raise (invalid_version value)
  | some v ↦ guard (is_semver v) (invalid_version value) >> ok (value, is_some v.prerelease)
]

-- `validated_version`
unfoldable pub validated_version : Text → Outcome VersionError Text
unfolding parse_semver
validated_version value = parse_semver value >>= λ (version, _). ok version

-- `emit_version`: the two values that are printed.
unfoldable pub emit_version : Text → Outcome VersionError (Text × Bool)
unfolding parse_semver starts_with
emit_version tag = guard (starts_with tag (codes "v")) (bad_tag tag) >> parse_semver (drop 1 tag)
