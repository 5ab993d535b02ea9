-- ===== src/Release/Version/Grammar.antt =====
-- The versions that `parse_semver` accepts are the texts of the grammar of semantic versions.
use rpmz.Base.{
  cut, ℕ, ◌≡◌, refl, sym, ap, ◌∙◌, subst, ◌≢◌, inl, inr, Bool, true, false, Option, none, some,
  List, [], ◌∷◌, ◌++◌, ◌==◌, ==_iff, Bool-cases, Text, codes, split, join, Outcome, ok, raise, ◌>>◌,
  guard, then-eq-ok, is_some,
}
use rpmz.Release.Version.{
  Semver, dotted, with_core, groups, is_semver, VersionError, invalid_version, parse_semver,
}

abbrev pub part : ℕ → Option (List Text) → Text
part c none = []
part c (some ids) = c ∷ join (codes ".") ids

-- The text of a version.
unfoldable pub render : Semver → Text
unfolding join
render v =
    (join (codes ".") (v.major ∷ v.minor ∷ v.patch ∷ []) ++ part b'-' v.prerelease)
    ++ part b'+' v.build

abbrev pub tail_of : ℕ → Option Text → Text
tail_of c none = []
tail_of c (some t) = c ∷ t

cut-append : (c : ℕ) (t : Text) → (cut c t).0 ++ tail_of c (cut c t).1 ≡ t
unfolding cut
cut-append c [] = refl
cut-append c (x ∷ s) = elim (Bool-cases (x == c)) [
  | inl e ↦ rw (e, cut) (ap (λ y. y ∷ s) (sym ((==_iff x c).0 e)))
  | inr e ↦ rw (e, cut) (ap (◌∷◌ x) (cut-append c s))
]

split-ne_nil : (c : ℕ) (t : Text) → split c t ≢ []
unfolding split
split-ne_nil c [] h = cc
split-ne_nil c (x ∷ s) h = go (x == c) (split c s) h
  where
    go :
        (b : Bool) (r : List Text)
        → ◌≡◌ {A = List Text}
            (elim b [
              | true ↦ [] ∷ r
              | false ↦ elim r [ [] ↦ (x ∷ []) ∷ [] | p ∷ ps ↦ (x ∷ p) ∷ ps ]
            ])
            []
        → ⊥
    go true r h = cc
    go false [] h = cc
    go false (p ∷ ps) h = cc

join-split : (t : Text) → join (codes ".") (split b'.' t) ≡ t
unfolding split join
join-split [] = refl
join-split (x ∷ s) = go (x == b'.') refl (split b'.' s) (split-ne_nil b'.' s) (join-split s)
  where
    go :
        (b : Bool)
        → (x == b'.') ≡ b
        → (r : List Text) → r ≢ []
        → join (codes ".") r ≡ s
        → join (codes ".") (elim b [
          | true ↦ [] ∷ r
          | false ↦ elim r [ [] ↦ (x ∷ []) ∷ [] | p ∷ ps ↦ (x ∷ p) ∷ ps ]
        ])
          ≡ x ∷ s
    go b e [] n h = absurd (n refl)
    go true e (p ∷ ps) n h = ap (◌∷◌ b'.') h ∙ ap (λ y. y ∷ s) (sym ((==_iff x b'.').0 e))
    go false e (p ∷ []) n h = ap (◌∷◌ x) h
    go false e (p ∷ q ∷ ps) n h = ap (◌∷◌ x) h

part-dotted : (c : ℕ) (o : Option Text) → part c (dotted o) ≡ tail_of c o
part-dotted c none = refl
part-dotted c (some t) = ap (◌∷◌ c) (join-split t)

render-with_core :
    (ps : List Text) (prerelease build : Option (List Text)) (v : Semver)
    → with_core ps prerelease build ≡ some v
    → (render v ≡ (join (codes ".") ps ++ part b'-' prerelease) ++ part b'+' build)
      × (v.prerelease ≡ prerelease)
unfolding with_core render
render-with_core [] prerelease build v h = cc
render-with_core (a ∷ []) prerelease build v h = cc
render-with_core (a ∷ b ∷ []) prerelease build v h = cc
render-with_core (a ∷ b ∷ c ∷ []) prerelease build v h =
    let same : record { major = a; minor = b; patch = c; prerelease = prerelease; build = build }
        ≡ v =
      some_inj h in
    subst
      (λ (w : Semver).
        (render w ≡ (join (codes ".") (a ∷ b ∷ c ∷ []) ++ part b'-' prerelease) ++ part b'+' build)
        × (w.prerelease ≡ prerelease))
      same (refl, refl)
  where
    some_inj : {v w : Semver} → ◌≡◌ {A = Option Semver} (some v) (some w) → v ≡ w
    some_inj h = cc
render-with_core (a ∷ b ∷ c ∷ d ∷ ps) prerelease build v h = cc

render-groups : (t : Text) (v : Semver) → groups t ≡ some v → render v ≡ t
unfolding groups
render-groups t v h =
    let front = (cut b'+' t).0 in
    let p =
      (render-with_core (split b'.' (cut b'-' front).0) (dotted (cut b'-' front).1)
        (dotted (cut b'+' t).1) v h).0 in
    p
    ∙ (rw
        (
          join-split (cut b'-' front).0,
          part-dotted b'-' (cut b'-' front).1,
          part-dotted b'+' (cut b'+' t).1,
        )
        (rw (cut-append b'-' front) (cut-append b'+' t)))

-- A text that `parse_semver` accepts is returned unchanged, it is the text of a version whose numbers
-- and identifiers are as the grammar wants them, and it counts as a prerelease exactly if that version
-- has a prerelease part.
pub parse_semver-is_semver :
    (t u : Text) (is_prerelease : Bool)
    → parse_semver t ≡ ok (u, is_prerelease)
    → (u ≡ t)
      × ((v : Semver) × (is_semver v ≡ true)
          × (render v ≡ t)
          × (is_prerelease ≡ is_some v.prerelease))
unfolding parse_semver
parse_semver-is_semver t u is_prerelease h = go (groups t) refl h
  where
    Result : Type 0
    Result =
        (u ≡ t)
        × ((v : Semver) × (is_semver v ≡ true)
            × (render v ≡ t)
            × (is_prerelease ≡ is_some v.prerelease))

    go :
        (o : Option Semver)
        → groups t ≡ o
        → ◌≡◌ {A = Outcome VersionError (Text × Bool)}
            (elim o [
              | none ↦ raise (invalid_version t)
              | some v ↦ guard (is_semver v) (invalid_version t) >> ok (t, is_some v.prerelease)
            ])
            (ok (u, is_prerelease))
        → Result
    go none e h = cc
    go (some v) e h =
        let (a, b) =
          then-eq-ok (is_semver v) (invalid_version t) (ok (t, is_some v.prerelease)) h in
        let pair = ok_inj b in
        (
          sym (ap (λ (p : Text × Bool). p.0) pair),
          (v, a, render-groups t v e, sym (ap (λ (p : Text × Bool). p.1) pair)),
        )
      where
        ok_inj :
            {p q : Text × Bool} → ◌≡◌ {A = Outcome VersionError (Text × Bool)} (ok p) (ok q) → p ≡ q
        ok_inj h = cc
