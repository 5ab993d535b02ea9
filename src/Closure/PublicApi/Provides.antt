-- ===== src/Closure/PublicApi/Provides.antt =====
-- What `provide_system_packages` provides.
use rpmz.Base.{
  ℕ, ◌+◌, ◌≤◌, ◌<◌, ◌≡◌, refl, ap, ◌∙◌, subst, ◌≢◌, ◌↔◌, ◌⊎◌, inl, inr, Bool, true, false, not,
  ◌&&◌, ◌||◌, Option, none, some, List, [], ◌∷◌, arith, if◌then◌else◌, Bool-cases, length, All, In,
  here, there, Text, codes, text_eq_iff, starts_with, mem, Outcome, ok, raise, ◌>>◌, guard,
  guard-eq-ok, >>-eq-ok, for_each-In,
}
use rpmz.Closure.Worklist.{
  Fault, missing_package, missing_requirement, no_packages, takes, skips, fails, push, length-push,
  loop,
}
use rpmz.Closure.Worklist.Reach.{Reaches, AddsPins, loop-Reaches}
use rpmz.Closure.Worklist.Ends.{pins_left, loop-ends}
use rpmz.Closure.PublicApi.{
  Checkout, pinned_hashes, minus, visit_entry, pins_of, pins_to_add, required_dependency_names,
  is_provided, require_names, require_after, provide_system_packages,
}

mem-minus : (x : Text) (xs ys : List Text) → mem x (minus xs ys) ≡ (mem x xs && not (mem x ys))
unfolding mem minus
mem-minus x [] ys = refl
mem-minus x (z ∷ xs) ys = ground (arith, mem-minus x xs ys, text_eq_iff x z)

length-minus : (xs ys : List Text) → length (minus xs ys) ≤ length xs
unfolding minus
length-minus [] ys = omega arith
length-minus (x ∷ xs) ys = ground (arith, length-minus xs ys)

adds : (c : Checkout) → AddsPins (pins_of c) (pins_to_add c)
unfolding pins_to_add
adds c = record {
  only = λ p g h m. ground (arith, m, mem-minus h (pins_of c g) p);
  all = λ p g h m. ground (arith, m, mem-minus h (pins_of c g) p);
  no_more = λ p g. length-minus (pins_of c g) p;
}

visit-cases :
    (c : Checkout) (h : Text)
    → ((visit_entry c h ≡ takes) × (c.is_dir h ≡ true))
      ⊎ (((visit_entry c h ≡ skips)
            × (starts_with h (codes "libsolv-") ≡ true)
            × (c.is_dir h ≡ false))
          ⊎ ((e : Fault) × (visit_entry c h ≡ fails e) × (c.is_dir h ≡ false)))
unfolding visit_entry
visit-cases c h = go (c.is_dir h) (starts_with h (codes "libsolv-")) refl refl
  where
    go :
        (a b : Bool)
        → c.is_dir h ≡ a
        → starts_with h (codes "libsolv-") ≡ b
        → let v = if a then takes else if b then skips else fails (missing_package h) in
          ((v ≡ takes) × (c.is_dir h ≡ true))
          ⊎ (((v ≡ skips) × (starts_with h (codes "libsolv-") ≡ true) × (c.is_dir h ≡ false))
              ⊎ ((e : Fault) × (v ≡ fails e) × (c.is_dir h ≡ false)))
    go true b p q = inl (refl, p)
    go false true p q = inr (inl (refl, q, p))
    go false false p q = inr (inr (missing_package h, refl, p))

-- A hash that the manifests reach from the root manifest, through packages that are extracted.
abbrev pub Pinned : Checkout → Text → Type 0
Pinned c = Reaches (visit_entry c) (pins_of c) (push (pinned_hashes c.root_manifest) [])

takes_iff : (c : Checkout) (h : Text) → (visit_entry c h ≡ takes) ↔ (c.is_dir h ≡ true)
takes_iff c h = elim (visit-cases c h) [
  | inl (t, d) ↦ (λ _. d, λ _. t)
  | inr (inl (s, _, d)) ↦ (λ t. absurd (apart t s), λ e. cc)
  | inr (inr (e, f, d)) ↦ (λ t. absurd (unfailing e t f), λ e. cc)
]
  where
    apart : visit_entry c h ≡ takes → visit_entry c h ≡ skips → ⊥
    apart a b = cc

    unfailing : (e : Fault) → visit_entry c h ≡ takes → visit_entry c h ≡ fails e → ⊥
    unfailing e a b = cc

split-ok :
    (c : Checkout) (fuel : ℕ) (out : List Text)
    → provide_system_packages c fuel ≡ some (ok out)
    → (c.has_zig_pkg ≡ true)
      × (loop (visit_entry c) (pins_to_add c) fuel (push (pinned_hashes c.root_manifest) []) []
          ≡ some (ok out))
      × (require_names required_dependency_names out ≡ ok tt)
unfolding provide_system_packages require_after
split-ok c fuel out k =
    start c.has_zig_pkg refl
      (loop (visit_entry c) (pins_to_add c) fuel (push (pinned_hashes c.root_manifest) []) []) refl
      k
  where
    start :
        (b : Bool)
        → c.has_zig_pkg ≡ b
        → (r : Option (Outcome Fault (List Text)))
        → loop (visit_entry c) (pins_to_add c) fuel (push (pinned_hashes c.root_manifest) []) [] ≡ r
        → (if b then require_after r else some (raise no_packages)) ≡ some (ok out)
        → (c.has_zig_pkg ≡ true)
          × (loop (visit_entry c) (pins_to_add c) fuel (push (pinned_hashes c.root_manifest) []) []
              ≡ some (ok out))
          × (require_names required_dependency_names out ≡ ok tt)
    start false p r q e = cc
    start true p none q e = cc
    start true p (some (raise f)) q e = cc
    start true p (some (ok provided)) q e =
        let (u, v) =
          >>-eq-ok (require_names required_dependency_names provided) (ok provided) (some_inj e) in
        let same : provided ≡ out = ok_inj v in
        (
          p,
          q ∙ ap (λ x. some (ok x)) same,
          subst (λ x. require_names required_dependency_names x ≡ ok tt) same u,
        )
      where
        some_inj :
            {a b : Outcome Fault (List Text)}
            → ◌≡◌ {A = Option (Outcome Fault (List Text))} (some a) (some b)
            → a ≡ b
        some_inj h = cc

        ok_inj : {a b : List Text} → ◌≡◌ {A = Outcome Fault (List Text)} (ok a) (ok b) → a ≡ b
        ok_inj h = cc

In-All : (P : Text → Type 0) (xs : List Text) → ((x : Text) → In x xs → P x) → All P xs
In-All P [] f = tt
In-All P (x ∷ xs) f = (f x (here refl), In-All P xs (λ y m. f y (there m)))

required-In :
    (name : Text) (out : List Text)
    → require_names required_dependency_names out ≡ ok tt
    → In name required_dependency_names
    → is_provided name out ≡ true
unfolding require_names
required-In name out k m = guard-eq-ok (is_provided name out) (missing_requirement name) (
    for_each-In (λ x. guard (is_provided x out) (missing_requirement x)) required_dependency_names
      name k m)

-- Where `provide_system_packages` ends without an exception, `zig-pkg/` is there, the packages it has
-- provided are exactly the hashes that are reachable from the root manifest through the manifests of
-- provided packages and are a directory of `zig-pkg/`; a hash that is reachable is such a directory or
-- belongs to libsolv; and each of the required names is that of a provided package.
pub provide_system_packages-ok :
    (c : Checkout) (fuel : ℕ) (out : List Text)
    → provide_system_packages c fuel ≡ some (ok out)
    → (h : Text)
    → (c.has_zig_pkg ≡ true)
      × ((mem h out ≡ true) ↔ (Pinned c h × (c.is_dir h ≡ true)))
      × (Pinned c h ↔ (Pinned c h × (c.is_dir h || starts_with h (codes "libsolv-") ≡ true)))
      × All (λ name. is_provided name out ≡ true) required_dependency_names
provide_system_packages-ok c fuel out k h = (
  (split-ok c fuel out k).0,
  (
    λ m. (((same h).0 m).0, (takes_iff c h).0 ((same h).0 m).1),
    λ (r, d). (same h).1 (r, (takes_iff c h).1 d),
  ),
  (
    λ r. (
      r,
      elim (visit-cases c h) [
        | inl (_, d) ↦ rw d refl
        | inr (inl (_, l, d)) ↦ rw (d, l) refl
        | inr (inr (e, f, _)) ↦ absurd (unfailing h e r f)
      ],
    ),
    λ (r, _). r,
  ),
  In-All (λ name. is_provided name out ≡ true) required_dependency_names
      (λ name. required-In name out (split-ok c fuel out k).2),
)
  where
    same : (h : Text) → (mem h out ≡ true) ↔ (Pinned c h × (visit_entry c h ≡ takes))
    same =
        (loop-Reaches (visit_entry c) (pins_of c) (pins_to_add c) (adds c)
          (push (pinned_hashes c.root_manifest) []) fuel out (split-ok c fuel out k).1).0

    unfailing : (h : Text) (e : Fault) → Pinned c h → visit_entry c h ≢ fails e
    unfailing =
        (loop-Reaches (visit_entry c) (pins_of c) (pins_to_add c) (adds c)
          (push (pinned_hashes c.root_manifest) []) fuel out (split-ok c fuel out k).1).1

-- If the directories of `zig-pkg/` stand in a list of packages, then as much fuel as there are pins in
-- the root manifest and in those of the packages in the list, and one, is enough:
-- `provide_system_packages` ends, with the packages or with an exception.
pub provide_system_packages-ends :
    (c : Checkout) (packages : List Text)
    → ((h : Text) → c.is_dir h ≡ true → mem h packages ≡ true)
    → (fuel : ℕ) → length (pinned_hashes c.root_manifest) + pins_left (pins_of c) packages [] < fuel
    → (r : Outcome Fault (List Text)) × (provide_system_packages c fuel ≡ some r)
unfolding provide_system_packages require_after
provide_system_packages-ends c packages known fuel enough = elim (Bool-cases c.has_zig_pkg) [
  | inl e ↦ rw e (
      go _ (
        loop-ends (visit_entry c) (pins_of c) (pins_to_add c) (adds c) packages
          (λ h t. known h ((takes_iff c h).0 t)) fuel (push (pinned_hashes c.root_manifest) []) []
          (omega (arith, length-push (pinned_hashes c.root_manifest) [], enough))))
  | inr e ↦ rw e (raise no_packages, refl)
]
  where
    go :
        (o : Option (Outcome Fault (List Text)))
        → (r : Outcome Fault (List Text)) × (o ≡ some r)
        → (r : Outcome Fault (List Text)) × (require_after o ≡ some r)
    go none (r, e) = cc
    go (some (raise f)) e = (raise f, refl)
    go (some (ok provided)) e =
        (require_names required_dependency_names provided >> ok provided, refl)
