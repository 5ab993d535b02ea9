-- ===== src/Release/Sbom/RoundTrip.antt =====
-- `verify_assets` accepts what `write_sbom` has written.
use rpmz.Base.{
  ◌<◌, ◌≡◌, refl, ap, ◌↔◌, ◌⊎◌, inl, inr, true, Option, some, List, [], ◌∷◌, arith, length, In,
  here, there, In-cons, not-In-nil, Text, text_eq, text_eq_refl, set_eq, subset_intro, ok,
  for_each_intro, for_each_intro,
}
use rpmz.Release.Archive.{Member}
use rpmz.Release.Sbom.Lookup.{
  lookup-In, lookup_of_mem, mem-keys, keys-In, mem-first_of, first_of-In,
}
use rpmz.Release.Sbom.{
  checksum_mismatch, Table, is_text, collect, keys, files_of, first_of, has_digest, compare_digests,
  is_document, verify_sbom, packaged_path, entries_of, write_sbom,
}

-- The files as the archive of the package has them.
unfoldable pub packaged : Text → List (Text × Text) → List (Text × Text)
packaged package_name [] = []
packaged package_name ((relative, digest) ∷ fs) =
    (packaged_path package_name relative, digest) ∷ packaged package_name fs

-- What the loop over the entries puts in front of the table.
abbrev table_of : Text → List (Text × Text) → Table → Table
table_of package_name [] table = table
table_of package_name ((relative, digest) ∷ fs) table =
    table_of package_name fs ((packaged_path package_name relative, some digest) ∷ table)

collect-entries_of :
    (package_name : Text) (fs : List (Text × Text)) (table : Table)
    → collect table (entries_of package_name fs) ≡ ok (table_of package_name fs table)
unfolding collect entries_of
collect-entries_of package_name [] table = refl
collect-entries_of package_name ((relative, digest) ∷ fs) table =
    collect-entries_of package_name fs ((packaged_path package_name relative, some digest) ∷ table)

In-table_of :
    (package_name name : Text) (v : Option Text) (fs : List (Text × Text)) (table : Table)
    → In (name, v) (table_of package_name fs table)
    → In (name, v) table
      ⊎ ((digest : Text) × (v ≡ some digest) × In (name, digest) (packaged package_name fs))
unfolding packaged
In-table_of package_name name v [] table m = inl m
In-table_of package_name name v ((relative, digest) ∷ fs) table m =
    elim (In-table_of package_name name v fs
      ((packaged_path package_name relative, some digest) ∷ table) m) [
        | inr (d, e, i) ↦ inr (d, e, there i)
        | inl i ↦ elim (In-cons i) [
          | inr r ↦ inl r
          | inl e ↦ inr (
            digest,
            ap (λ (p : Text × Option Text). p.1) e,
            here (ap (λ (p : Text × Option Text). (p.0, digest)) e),
          )
        ]
      ]

table_of-In_right :
    (package_name name : Text) (v : Option Text) (fs : List (Text × Text)) (table : Table)
    → In (name, v) table
    → In (name, v) (table_of package_name fs table)
table_of-In_right package_name name v [] table m = m
table_of-In_right package_name name v ((relative, digest) ∷ fs) table m =
    table_of-In_right package_name name v fs
      ((packaged_path package_name relative, some digest) ∷ table) (there m)

table_of-In :
    (package_name name digest : Text) (fs : List (Text × Text)) (table : Table)
    → In (name, digest) (packaged package_name fs)
    → In (name, some digest) (table_of package_name fs table)
unfolding packaged
table_of-In package_name name digest [] table m = absurd (not-In-nil m)
table_of-In package_name name digest ((relative, d) ∷ fs) table m = elim (In-cons m) [
  | inl e ↦
      table_of-In_right package_name name (some digest) fs
        ((packaged_path package_name relative, some d) ∷ table)
        (here (ap (λ (p : Text × Text). (p.0, some p.1)) e))
  | inr r ↦
      table_of-In package_name name digest fs
        ((packaged_path package_name relative, some d) ∷ table) r
]

-- No path has two digests.
abbrev pub IsFunctional : List (Text × Text) → Type 0
IsFunctional fs = (name d e : Text) → In (name, d) fs → In (name, e) fs → d ≡ e

module _ (members : List Member) (package_name : Text) (staged : List (Text × Text))
    (functional : IsFunctional (packaged package_name staged))
    (same : (name digest : Text)
      → In (name, digest) (files_of members)
        ↔ In (name, digest) (packaged package_name staged)) where
  abbrev table : Table
  table = table_of package_name staged []

  from_table :
      (name : Text) (v : Option Text)
      → In (name, v) table
      → (digest : Text) × (v ≡ some digest) × In (name, digest) (packaged package_name staged)
  from_table name v m = elim (In-table_of package_name name v staged [] m) [
    | inl i ↦ absurd (not-In-nil i)
    | inr r ↦ r
  ]

  same_names : set_eq (first_of (files_of members)) (keys table) ≡ true
  unfolding set_eq
  same_names =
      let a = subset_intro (first_of (files_of members)) (keys table) (λ name m.
        let (d, i) = first_of-In name (files_of members) m in
        mem-keys name (some d) table
          (table_of-In package_name name d staged [] ((same name d).0 i))) in
      let b = subset_intro (keys table) (first_of (files_of members)) (λ name m.
        let (v, i) = keys-In name table m in
        let (d, e, j) = from_table name v i in
        mem-first_of name d (files_of members) ((same name d).1 j)) in
      ground (arith, a, b)

  digest_found : (f : Text × Text) → In f (files_of members) → has_digest table f ≡ true
  unfolding has_digest
  digest_found (name, digest) m =
      let i = (same name digest).0 m in
      let (v, e) =
        lookup_of_mem name table
          (mem-keys name (some digest) table (table_of-In package_name name digest staged [] i)) in
      let (d, p, j) = from_table name v (lookup-In name table v e) in
      rw (e, has_digest)
        (rw p (unfold is_text in rw (functional name d digest j i) (text_eq_refl digest)))

  accepts :
      is_document (write_sbom package_name staged) ≡ true
      → verify_sbom members (write_sbom package_name staged) ≡ ok tt
  unfolding verify_sbom compare_digests write_sbom
  accepts d = rw d (
      rw (collect-entries_of package_name staged []) (
        rw same_names (
          for_each_intro (has_digest table) (λ f. checksum_mismatch f.0) (files_of members)
            digest_found)))

is_document-write_sbom :
    (package_name : Text) (staged : List (Text × Text))
    → 0 < length staged
    → is_document (write_sbom package_name staged) ≡ true
unfolding is_document write_sbom
is_document-write_sbom package_name [] h = absurd (omega arith)
is_document-write_sbom package_name (f ∷ fs) h = unfold text_eq in refl

-- If there are staged files, no path among them has two digests, and the files of the archive are the
-- staged ones under the name of the package, in any order, then the check of the archive against the
-- document passes for the document that `write_sbom` writes of the staged files.
pub verify_sbom-write_sbom :
    (members : List Member) (package_name : Text) (staged : List (Text × Text))
    → 0 < length staged
    → IsFunctional (packaged package_name staged)
    → ((name digest : Text)
        → In (name, digest) (files_of members) ↔ In (name, digest) (packaged package_name staged))
    → verify_sbom members (write_sbom package_name staged) ≡ ok tt
verify_sbom-write_sbom members package_name staged h functional same =
    accepts members package_name staged functional same
      (is_document-write_sbom package_name staged h)
