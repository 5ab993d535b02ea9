-- ===== src/Release/Version/Complete.antt =====
-- `parse_semver` accepts every text of the grammar of semantic versions.
use rpmz.Base.{
  cut, ℕ, ◌≡◌, refl, ap, ◌≢◌, ◌⊎◌, inl, inr, Bool, true, false, not, ◌&&◌, Option, none, some, List,
  [], ◌∷◌, ◌++◌, arith, ◌==◌, ==_refl, or-true, any, every, Text, codes, join, ok, is_digit,
  is_some,
}
use rpmz.Base.Splits.{lacks, split-join}
use rpmz.Release.Version.{
  is_id_char, is_numeric, is_prerelease_id, is_build_id, each_id, Semver, dotted, with_core, groups,
  is_semver, parse_semver,
}
use rpmz.Release.Version.Grammar.{part, tail_of, render}

lacks-append : (c : ℕ) (s t : Text) → lacks c s ≡ true → lacks c t ≡ true → lacks c (s ++ t) ≡ true
lacks-append c [] t h k = k
lacks-append c (x ∷ s) t h k = ground (arith, lacks-append c s t)

lacks-join :
    (c : ℕ) (ids : List Text)
    → c ≢ b'.'
    → every (lacks c) ids ≡ true
    → lacks c (join (codes ".") ids) ≡ true
unfolding join
lacks-join c [] n h = refl
lacks-join c (p ∷ []) n h = ground arith
lacks-join c (p ∷ q ∷ ps) n h =
    lacks-append c p (b'.' ∷ join (codes ".") (q ∷ ps)) (ground arith)
      (ground (arith, lacks-join c (q ∷ ps) n, n))

cut-lacks :
    (c : ℕ) (t : Text) (o : Option Text) → lacks c t ≡ true → cut c (t ++ tail_of c o) ≡ (t, o)
unfolding cut
cut-lacks c [] none h = refl
cut-lacks c [] (some s) h = rw (==_refl c, cut) refl
cut-lacks c (x ∷ t) o h =
    let e : (x == c) ≡ false = ground arith in
    rw (e, cut) (ap (λ (r : Text × Option Text). (x ∷ r.0, r.1)) (cut-lacks c t o (ground arith)))

every-imp {ℓ} :
    {A : Type ℓ} (p q : A → Bool) (xs : List A)
    → ((x : A) → p x ≡ true → q x ≡ true)
    → every p xs ≡ true
    → every q xs ≡ true
every-imp p q [] f h = refl
every-imp p q (x ∷ xs) f h = ground (arith, f x, every-imp p q xs f)

id_char-lacks :
    (c : ℕ) (t : Text) → (c ≡ b'.') ⊎ (c ≡ b'+') → every is_id_char t ≡ true → lacks c t ≡ true
id_char-lacks c t k h = every-imp is_id_char (λ x. not (x == c)) t (λ x m. ground arith) h

digit-lacks :
    (c : ℕ) (t : Text)
    → (c ≡ b'.') ⊎ ((c ≡ b'+') ⊎ (c ≡ b'-'))
    → every is_digit t ≡ true
    → lacks c t ≡ true
digit-lacks c t k h = every-imp is_digit (λ x. not (x == c)) t (λ x m. ground arith) h

numeric-lacks :
    (c : ℕ) (t : Text)
    → (c ≡ b'.') ⊎ ((c ≡ b'+') ⊎ (c ≡ b'-'))
    → is_numeric t ≡ true
    → lacks c t ≡ true
unfolding is_numeric
numeric-lacks c [] k h = cc
numeric-lacks c (x ∷ s) k h = digit-lacks c (x ∷ s) k (ground arith)

prerelease_id-lacks :
    (c : ℕ) (t : Text) → (c ≡ b'.') ⊎ (c ≡ b'+') → is_prerelease_id t ≡ true → lacks c t ≡ true
unfolding is_prerelease_id
prerelease_id-lacks c t k h =
    elim (or-true (is_numeric t) (every is_id_char t && any (λ x. not (is_digit x)) t) h) [
      | inl a ↦ numeric-lacks c t (elim k [ inl e ↦ inl e | inr e ↦ inr (inl e) ]) a
      | inr a ↦ id_char-lacks c t k (ground arith)
    ]

build_id-lacks : (t : Text) → is_build_id t ≡ true → lacks b'.' t ≡ true
unfolding is_build_id
build_id-lacks t h = id_char-lacks b'.' t (inl refl) (ground arith)

abbrev joined_ids : Option (List Text) → Option Text
joined_ids none = none
joined_ids (some ids) = some (join (codes ".") ids)

part-joined_ids : (c : ℕ) (o : Option (List Text)) → part c o ≡ tail_of c (joined_ids o)
part-joined_ids c none = refl
part-joined_ids c (some ids) = refl

dotted-joined_ids :
    (test : Text → Bool) (o : Option (List Text))
    → ((t : Text) → test t ≡ true → lacks b'.' t ≡ true)
    → o ≢ some []
    → each_id test o ≡ true
    → dotted (joined_ids o) ≡ o
dotted-joined_ids test none f n h = refl
dotted-joined_ids test (some []) f n h = absurd (n refl)
dotted-joined_ids test (some (p ∷ ps)) f n h =
    ap some (split-join b'.' p ps (every-imp test (lacks b'.') (p ∷ ps) f h))

part-lacks :
    (o : Option (List Text)) → each_id is_prerelease_id o ≡ true → lacks b'+' (part b'-' o) ≡ true
part-lacks none h = refl
part-lacks (some ids) h =
    lacks-join b'+' ids (λ e. omega (arith, e))
      (every-imp is_prerelease_id (lacks b'+') ids (λ t k. prerelease_id-lacks b'+' t (inr refl) k)
        h)

module _ (v : Semver) (valid : is_semver v ≡ true) (pre_ids : v.prerelease ≢ some [])
    (build_ids : v.build ≢ some []) where
  abbrev numbers : List Text
  numbers = v.major ∷ v.minor ∷ v.patch ∷ []

  numbers-lacks : (c : ℕ) → (c ≡ b'.') ⊎ ((c ≡ b'+') ⊎ (c ≡ b'-')) → every (lacks c) numbers ≡ true
  unfolding is_semver
  numbers-lacks c k =
      let a = numeric-lacks c v.major k (ground arith) in
      let b = numeric-lacks c v.minor k (ground arith) in
      let d = numeric-lacks c v.patch k (ground arith) in ground arith

  valid_ids : (each_id is_prerelease_id v.prerelease ≡ true) × (each_id is_build_id v.build ≡ true)
  unfolding is_semver
  valid_ids = ground arith

  cut-front :
      cut b'+' (render v) ≡ (join (codes ".") numbers ++ part b'-' v.prerelease, joined_ids v.build)
  unfolding render
  cut-front = rw (part-joined_ids b'+' v.build) (
      cut-lacks b'+' (join (codes ".") numbers ++ part b'-' v.prerelease) (joined_ids v.build) (
        lacks-append b'+' (join (codes ".") numbers) (part b'-' v.prerelease)
          (lacks-join b'+' numbers (λ e. omega (arith, e)) (numbers-lacks b'+' (inr (inl refl))))
          (part-lacks v.prerelease valid_ids.0)))

  cut-core :
      cut b'-' (join (codes ".") numbers ++ part b'-' v.prerelease)
      ≡ (join (codes ".") numbers, joined_ids v.prerelease)
  cut-core = rw (part-joined_ids b'-' v.prerelease) (
      cut-lacks b'-' (join (codes ".") numbers) (joined_ids v.prerelease)
        (lacks-join b'-' numbers (λ e. omega (arith, e)) (numbers-lacks b'-' (inr (inr refl)))))

  groups-render : groups (render v) ≡ some v
  unfolding groups with_core
  groups-render =
      rw (cut-front, groups)
        (rw (cut-core, groups)
          (rw
            (
              split-join b'.' v.major (v.minor ∷ v.patch ∷ []) (numbers-lacks b'.' (inl refl)),
              dotted-joined_ids is_prerelease_id v.prerelease
                  (λ t k. prerelease_id-lacks b'.' t (inl refl) k) pre_ids valid_ids.0,
              dotted-joined_ids is_build_id v.build build_id-lacks build_ids valid_ids.1,
            )
            refl))

-- The text of a version whose numbers and identifiers are as the grammar wants them, with at least one
-- identifier in each part that it has, is accepted and returned unchanged, as a prerelease exactly if
-- it has a prerelease part.
pub parse_semver-render :
    (v : Semver)
    → is_semver v ≡ true
    → v.prerelease ≢ some []
    → v.build ≢ some []
    → parse_semver (render v) ≡ ok (render v, is_some v.prerelease)
unfolding parse_semver
parse_semver-render v valid p b = rw (groups-render v valid p b, parse_semver) (rw valid refl)
