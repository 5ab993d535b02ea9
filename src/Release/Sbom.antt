-- ===== src/Release/Sbom.antt =====
-- The SPDX document of a release archive: what `write_sbom` of scripts/release.py writes of the files, and
-- how `verify_assets` compares it with the archive.
use rpmz.Base.{
  ℕ, zero, suc, ◌+◌, ◌-◌, ◌*◌, ◌/◌, ◌%◌, ◌≤◌, ◌<◌, String, ◌≡◌, refl, sym, ap, ◌∙◌, subst, ◌≢◌, ◌↔◌,
  ◌⊎◌, inl, inr, Bool, true, false, not, ◌&&◌, ◌||◌, Option, none, some, List, [], ◌∷◌, ◌++◌, map,
  append_assoc, append-nil, arith, ltb, leb, ◌==◌, if◌then◌else◌, ==_iff, ==_refl, Bool-cases,
  Option-cases, List-cases, and-true, or-true, not-true, length, get_elem?, take, drop, replicate,
  any, every, All, In, here, there, In-cons, not-In-nil, In-append_left, In-append_right,
  In-append_cases, length-append, length-drop, length-take_of_le, length-replicate,
  take-append-drop, if-cases, All-append, All-imp, every-All, length-map, Text, codes, texts,
  text_eq, text_eq_iff, text_eq_refl, starts_with, starts_with-append, starts_with-eq, ends_with,
  contains, is_space, lstrip, rstrip, strip, split, join, lower, mem, subset, set_eq, mem_self,
  mem-cons, mem-append, mem-subset, subset_intro, set_eq_iff, Outcome, ok, raise, ◌>>=◌, ◌>>◌,
  guard, >>=-eq-ok, guard-eq-ok, for_each, then-eq-ok, >>-eq-ok, for_each-In, for_each-All,
  for_each-guard, is_digit, is_word, starts_name, is_hex, drop_while, take_while,
  take_while-append-drop_while, after, word_ends, search, find_all, is_some, match_word, expand,
}
pub mod Lookup
pub mod Covers
pub mod RoundTrip
use rpmz.Release.Archive.{Member, Kind, file, directory, symlink, hardlink}

pub record Checksum : Type 0 where
  pub algorithm : Option Text
  pub value : Option Text

-- An entry of `files`; the path is empty where `fileName` is missing.
pub record Entry : Type 0 where
  pub path : Text
  pub checksums : List Checksum

-- What `verify_assets` reads of the document: `sbom.get(...)` of each key.
pub record Document : Type 0 where
  pub spdx_version : Option Text
  pub spdx_id : Option Text
  pub has_packages : Bool
  pub files : List Entry

pub data SbomError : Type 0 where
  invalid_document file_sets_differ : SbomError
  invalid_path : Text → SbomError
  missing_sha256 : SbomError
  checksum_mismatch : Text → SbomError

-- `sbom_checksums`: the newest entry stands first.
abbrev pub Table : Type 0
Table = List (Text × Option Text)

unfoldable pub is_text : Option Text → Text → Bool
unfolding text_eq
is_text none t = false
is_text (some s) t = text_eq s t

unfoldable pub sha256_of : List Checksum → Outcome SbomError (Option Text)
unfolding is_text
sha256_of [] = raise missing_sha256
sha256_of (c ∷ []) = guard (is_text c.algorithm (codes "SHA256")) missing_sha256 >> ok c.value
sha256_of (c ∷ d ∷ cs) = raise missing_sha256

-- The loop over `sbom["files"]`.
unfoldable pub collect : Table → List Entry → Outcome SbomError Table
unfolding starts_with sha256_of
collect table [] = ok table
collect table (e ∷ es) =
    guard (starts_with e.path (codes "./")) (invalid_path e.path)
    >> (sha256_of e.checksums >>= λ value. collect ((drop 2 e.path, value) ∷ table) es)

unfoldable pub keys : Table → List Text
keys [] = []
keys ((name, value) ∷ table) = name ∷ keys table

unfoldable pub lookup : Text → Table → Option (Option Text)
unfolding text_eq
lookup name [] = none
lookup name ((n, value) ∷ table) =
    let rest = lookup name table in if text_eq name n then some value else rest

abbrev pub is_file : Member → Bool
is_file m = elim m.kind [ file ↦ true | directory ↦ false | symlink ↦ false | hardlink ↦ false ]

-- The members for which `isfile()` holds, with their digests.
unfoldable pub files_of : List Member → List (Text × Text)
files_of [] = []
files_of (m ∷ ms) = let rest = files_of ms in if is_file m then (m.name, m.digest) ∷ rest else rest

unfoldable pub first_of : List (Text × Text) → List Text
first_of [] = []
first_of ((name, digest) ∷ fs) = name ∷ first_of fs

unfoldable pub has_digest : Table → Text × Text → Bool
unfolding lookup is_text
has_digest table (name, digest) = elim (lookup name table) [
  | none ↦ false
  | some value ↦ is_text value digest
]

unfoldable pub compare_digests : Table → List (Text × Text) → Outcome SbomError (Unit {0})
unfolding has_digest
compare_digests table fs = for_each (λ f. guard (has_digest table f) (checksum_mismatch f.0)) fs

unfoldable pub is_document : Document → Bool
unfolding is_text
is_document d =
    is_text d.spdx_version (codes "SPDX-2.3")
    && (is_text d.spdx_id (codes "SPDXRef-DOCUMENT")
        && (d.has_packages && elim d.files [ [] ↦ false | _ ∷ _ ↦ true ]))

-- The comparison of the document with the files of the archive.
unfoldable pub verify_sbom : List Member → Document → Outcome SbomError (Unit {0})
unfolding is_document collect set_eq keys first_of files_of compare_digests
verify_sbom members d =
    guard (is_document d) invalid_document
    >> (collect [] d.files >>= λ table.
        guard (set_eq (first_of (files_of members)) (keys table)) file_sets_differ
        >> compare_digests table (files_of members))

-- `write_sbom`, on the files of the staging directory with their digests: the path of each under the
-- name of the package. The document has the fields that `verify_assets` reads.
abbrev pub packaged_path : Text → Text → Text
packaged_path package_name relative = package_name ++ (codes "/" ++ relative)

unfoldable pub entries_of : Text → List (Text × Text) → List Entry
entries_of package_name [] = []
entries_of package_name ((relative, digest) ∷ fs) =
    record {
      path = codes "./" ++ packaged_path package_name relative;
      checksums = record { algorithm = some (codes "SHA256"); value = some digest } ∷ [];
    }
    ∷ entries_of package_name fs

unfoldable pub write_sbom : Text → List (Text × Text) → Document
unfolding entries_of
write_sbom package_name staged = record {
  spdx_version = some (codes "SPDX-2.3");
  spdx_id = some (codes "SPDXRef-DOCUMENT");
  has_packages = true;
  files = entries_of package_name staged;
}
