-- ===== src/Release/Sbom/Covers.antt =====
-- What a document that `verify_assets` accepts says of the archive.
use rpmz.Base.{
  ◌≡◌, refl, sym, ap, ◌∙◌, subst, ◌⊎◌, inl, inr, true, false, Option, none, some, List, [], ◌∷◌,
  ◌++◌, drop, All, In, here, there, In-cons, not-In-nil, All-imp, Text, codes, text_eq_iff,
  starts_with, starts_with-eq, mem, set_eq, mem_self, mem-cons, set_eq_iff, Outcome, ok, >>=-eq-ok,
  then-eq-ok, for_each-guard,
}
use rpmz.Release.Archive.{Member}
use rpmz.Release.Sbom.Lookup.{lookup-In}
use rpmz.Release.Sbom.{
  Document, Entry, Checksum, SbomError, invalid_document, file_sets_differ, invalid_path,
  missing_sha256, checksum_mismatch, Table, is_text, sha256_of, collect, keys, lookup, files_of,
  first_of, has_digest, compare_digests, is_document, verify_sbom,
}

-- The document has an entry for the file with its SHA-256 digest and no other checksum.
abbrev pub HasEntry : List Entry → Text × Text → Type 0
HasEntry es f =
    (e : Entry) × In e es
    × (e.path ≡ codes "./" ++ f.0)
    × (e.checksums ≡ record { algorithm = some (codes "SHA256"); value = some f.1 } ∷ [])

-- The value comes from an entry of that path.
abbrev FromEntry : List Entry → Text → Option Text → Type 0
FromEntry es name v =
    (e : Entry) × In e es
    × (e.path ≡ codes "./" ++ name)
    × (e.checksums ≡ record { algorithm = some (codes "SHA256"); value = v } ∷ [])

is_text_iff : (o : Option Text) (t : Text) → is_text o t ≡ true → o ≡ some t
unfolding is_text
is_text_iff none t h = cc
is_text_iff (some s) t h = ap some ((text_eq_iff s t).0 h)

sha256_of-eq_ok :
    (cs : List Checksum) (v : Option Text)
    → sha256_of cs ≡ ok v
    → cs ≡ record { algorithm = some (codes "SHA256"); value = v } ∷ []
unfolding sha256_of
sha256_of-eq_ok [] v h = cc
sha256_of-eq_ok (c ∷ []) v h =
    let (a, b) = then-eq-ok (is_text c.algorithm (codes "SHA256")) missing_sha256 (ok c.value) h in
    whole (is_text_iff c.algorithm (codes "SHA256") a) (value b)
  where
    value : ◌≡◌ {A = Outcome SbomError (Option Text)} (ok c.value) (ok v) → c.value ≡ v
    value b = cc

    whole :
        c.algorithm ≡ some (codes "SHA256")
        → c.value ≡ v
        → c ∷ [] ≡ record { algorithm = some (codes "SHA256"); value = v } ∷ []
    whole p q i = record { algorithm = p i; value = q i } ∷ []
sha256_of-eq_ok (c ∷ d ∷ cs) v h = cc

collect-FromEntry :
    (es : List Entry) (table t : Table)
    → collect table es ≡ ok t
    → ((name : Text) (v : Option Text) → In (name, v) t → In (name, v) table ⊎ FromEntry es name v)
      × ((name : Text) → mem name (keys table) ≡ true → mem name (keys t) ≡ true)
      × All (λ e. mem (drop 2 e.path) (keys t) ≡ true) es
unfolding collect
collect-FromEntry [] table t h = (
  λ name v m. inl (subst (In (name, v)) (sym same) m),
  λ name m. subst (λ x. mem name (keys x) ≡ true) same m,
  tt,
)
  where
    same : table ≡ t
    same = cc
collect-FromEntry (e ∷ es) table t h =
    let (a, h1) = then-eq-ok (starts_with e.path (codes "./")) (invalid_path e.path) _ h in
    let (v, p, h2) =
      >>=-eq-ok (sha256_of e.checksums) (λ v. collect ((drop 2 e.path, v) ∷ table) es) h1 in
    let (x, y, z) = collect-FromEntry es ((drop 2 e.path, v) ∷ table) t h2 in
    (
      λ name w m. elim (x name w m) [
        | inr (f, i, q, r) ↦ inr (f, there i, q, r)
        | inl i ↦ elim (In-cons i) [
          | inr j ↦ inl j
          | inl k ↦ inr (
            e,
            here refl,
            starts_with-eq e.path (codes "./") a
                ∙ ap (λ (u : Text × Option Text). codes "./" ++ u.0) (sym k),
            sha256_of-eq_ok e.checksums w (p ∙ ap (λ (u : Text × Option Text). ok u.1) (sym k)),
          )
        ]
      ],
      λ name m. y name (unfold keys in mem-cons name (drop 2 e.path) (keys table) m),
      (y (drop 2 e.path) (unfold keys in mem_self (drop 2 e.path) (keys table)), z),
    )

has_digest-In :
    (table : Table) (name digest : Text)
    → has_digest table (name, digest) ≡ true
    → In (name, some digest) table
unfolding has_digest
has_digest-In table name digest h = go (lookup name table) refl h
  where
    go :
        (o : Option (Option Text))
        → lookup name table ≡ o
        → elim o [ none ↦ false | some value ↦ is_text value digest ] ≡ true
        → In (name, some digest) table
    go none e h = cc
    go (some v) e h = lookup-In name table (some digest) (e ∙ ap some (is_text_iff v digest h))

-- A document that the check accepts covers the archive: each of its files has an entry of the document
-- under its path, whose only checksum is its SHA-256 digest, and the path of each entry is that of a
-- file of the archive.
pub verify_sbom-HasEntry :
    (members : List Member) (d : Document)
    → verify_sbom members d ≡ ok tt
    → All (HasEntry d.files) (files_of members)
      × All (λ e. mem (drop 2 e.path) (first_of (files_of members)) ≡ true) d.files
unfolding verify_sbom compare_digests
verify_sbom-HasEntry members d h =
    let (a, h1) = then-eq-ok (is_document d) invalid_document _ h in
    let (table, b, h2) = >>=-eq-ok (collect [] d.files) _ h1 in
    let (c, h3) =
      then-eq-ok (set_eq (first_of (files_of members)) (keys table)) file_sets_differ
        (compare_digests table (files_of members)) h2 in
    let (x, y, z) = collect-FromEntry d.files [] table b in
    (
      All-imp (λ f. has_digest table f ≡ true) (HasEntry d.files)
          (λ (name, digest) k. elim (x name (some digest) (has_digest-In table name digest k)) [
            | inl i ↦ absurd (not-In-nil i)
            | inr r ↦ r
          ])
          (files_of members)
          (for_each-guard (has_digest table) (λ f. checksum_mismatch f.0) (files_of members) h3),
      All-imp (λ (e : Entry). mem (drop 2 e.path) (keys table) ≡ true)
          (λ e. mem (drop 2 e.path) (first_of (files_of members)) ≡ true)
          (λ e k. (set_eq_iff (first_of (files_of members)) (keys table)).0 c (drop 2 e.path) ∙ k)
          d.files z,
    )
