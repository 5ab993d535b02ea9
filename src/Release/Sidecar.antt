-- ===== src/Release/Sidecar.antt =====
-- `write_checksum` and `verify_checksum` of scripts/release.py, on the text of the `.sha256` file; the smoke
-- test has the same `verify_checksum`.
use rpmz.Base.{
  ℕ, ◌≡◌, refl, sym, ap, ◌∙◌, ◌≢◌, ◌↔◌, inl, inr, Bool, true, false, not, List, [], ◌∷◌, ◌++◌,
  append_assoc, append-nil, arith, if◌then◌else◌, Bool-cases, every, Text, codes, text_eq_iff,
  text_eq_refl, is_space, lstrip, rstrip, strip, Outcome, ok, guard, guard-eq-ok,
}
use rpmz.Release.Paths.{same_parts}

-- `text.split()`: the words between blanks, with the word read so far.
unfoldable pub fields_from : Text → Text → List Text
fields_from [] [] = []
fields_from (x ∷ word) [] = (x ∷ word) ∷ []
fields_from word (c ∷ s) =
    let behind = fields_from [] s in
    let longer = fields_from (word ++ (c ∷ [])) s in
    elim (is_space c) [
      | false ↦ longer
      | true ↦ elim word [ [] ↦ behind | x ∷ w ↦ (x ∷ w) ∷ behind ]
    ]

-- `write_checksum`: the text that is written. The source encodes it as ASCII: for a name with other characters
-- it raises `UnicodeEncodeError` instead, which is not
-- modelled.
unfoldable pub write_checksum : Text → Text → Text
write_checksum digest name = digest ++ (codes "  " ++ (name ++ codes "\n"))

pub data ChecksumError : Type 0 where
  invalid_checksum : ChecksumError

-- `verify_checksum`, on the text of the file, the digest of the archive and its name.
unfoldable pub verify_checksum : Text → Text → Text → Outcome ChecksumError (Unit {0})
unfolding strip fields_from same_parts
verify_checksum sidecar digest name =
    guard (same_parts (fields_from [] (strip sidecar)) (digest ∷ name ∷ [])) invalid_checksum

fields_from-lstrip : (s : Text) → fields_from [] (lstrip s) ≡ fields_from [] s
unfolding fields_from lstrip
fields_from-lstrip [] = refl
fields_from-lstrip (c ∷ s) = elim (Bool-cases (is_space c)) [
  | inl e ↦ rw (e, lstrip, fields_from) (fields_from-lstrip s)
  | inr e ↦ rw (e, lstrip) refl
]

fields_from-rstrip : (word s : Text) → fields_from word (rstrip s) ≡ fields_from word s
unfolding fields_from rstrip
fields_from-rstrip word [] = refl
fields_from-rstrip word (c ∷ s) =
    go (is_space c) refl (rstrip s) word (fields_from-rstrip [] s)
      (fields_from-rstrip (word ++ (c ∷ [])) s)
  where
    go :
        (b : Bool)
        → is_space c ≡ b
        → (r word' : Text) → fields_from [] r ≡ fields_from [] s
        → fields_from (word' ++ (c ∷ [])) r ≡ fields_from (word' ++ (c ∷ [])) s
        → fields_from word' (elim r [ [] ↦ if b then [] else c ∷ [] | d ∷ r' ↦ c ∷ d ∷ r' ])
          ≡ fields_from word' (c ∷ s)
    go true e [] [] h k = rw (e, fields_from) h
    go true e [] (x ∷ w) h k = rw (e, fields_from) (ap (◌∷◌ (x ∷ w)) h)
    go true e (d ∷ r) [] h k = rw (e, fields_from) h
    go true e (d ∷ r) (x ∷ w) h k = rw (e, fields_from) (ap (◌∷◌ (x ∷ w)) h)
    go false e [] w h k = rw (e, fields_from) k
    go false e (d ∷ r) w h k = rw (e, fields_from) k

abbrev pub IsWord : Text → Type 0
IsWord t = every (λ c. not (is_space c)) t ≡ true

fields_from-word :
    (word t s : Text) → IsWord t → fields_from word (t ++ s) ≡ fields_from (word ++ t) s
unfolding fields_from
fields_from-word word [] s h = rw (append-nil word) refl
fields_from-word word (c ∷ t) s h =
    let e : is_space c ≡ false = ground arith in
    rw (e, fields_from)
      (fields_from-word (word ++ (c ∷ [])) t s (ground arith)
        ∙ ap (λ w. fields_from w s) (append_assoc word (c ∷ []) t))

fields_from-blank :
    (c : ℕ) (word s : Text)
    → is_space c ≡ true
    → word ≢ []
    → fields_from word (c ∷ s) ≡ word ∷ fields_from [] s
unfolding fields_from
fields_from-blank c [] s e n = absurd (n refl)
fields_from-blank c (x ∷ word) s e n = rw (e, fields_from) refl

fields_from-write_checksum :
    (digest name : Text)
    → IsWord digest
    → IsWord name
    → digest ≢ []
    → name ≢ []
    → fields_from [] (strip (write_checksum digest name)) ≡ digest ∷ name ∷ []
unfolding strip write_checksum fields_from
fields_from-write_checksum digest name h k n m =
    fields_from-rstrip [] (lstrip (write_checksum digest name))
    ∙ (fields_from-lstrip (write_checksum digest name)
        ∙ (fields_from-word [] digest (codes "  " ++ (name ++ codes "\n")) h
            ∙ (fields_from-blank b' ' digest (b' ' ∷ (name ++ codes "\n")) (unfold is_space in refl)
                  n
                ∙ ap (◌∷◌ digest) (
                    skip
                    ∙ (fields_from-word [] name (codes "\n") k
                        ∙ fields_from-blank b'\n' name [] (unfold is_space in refl) m)))))
  where
    skip : fields_from [] (b' ' ∷ (name ++ codes "\n")) ≡ fields_from [] (name ++ codes "\n")
    skip = unfold fields_from is_space in refl

-- The `.sha256` file that `write_checksum` writes for a digest and a file name, both without blanks and
-- not empty, is accepted by `verify_checksum` for a digest and a name exactly if they are those two.
pub verify_checksum-write_checksum :
    (digest name digest' name' : Text)
    → IsWord digest
    → IsWord name
    → digest ≢ []
    → name ≢ []
    → (verify_checksum (write_checksum digest name) digest' name' ≡ ok tt)
      ↔ ((digest ≡ digest') × (name ≡ name'))
unfolding verify_checksum write_checksum
verify_checksum-write_checksum digest name digest' name' h k n m =
    rw (fields_from-write_checksum digest name h k n m) (
      λ e.
          both (
            guard-eq-ok (same_parts (digest ∷ name ∷ []) (digest' ∷ name' ∷ [])) invalid_checksum
              e),
      λ (p, q). rw (sym p, sym q) (rw (same_parts_refl) refl),
    )
  where
    both :
        same_parts (digest ∷ name ∷ []) (digest' ∷ name' ∷ []) ≡ true
        → (digest ≡ digest') × (name ≡ name')
    both e =
        unfold same_parts in ground (arith, e, text_eq_iff digest digest', text_eq_iff name name')

    same_parts_refl : same_parts (digest ∷ name ∷ []) (digest ∷ name ∷ []) ≡ true
    same_parts_refl = unfold same_parts in ground (arith, text_eq_refl digest, text_eq_refl name)
