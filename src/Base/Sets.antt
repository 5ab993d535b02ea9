-- ===== src/Base/Sets.antt =====
-- Sets of texts as lists: membership, inclusion and equality as Python's `set` has them.
use mathlib.Core.Path.{◌≡◌, refl, sym, ◌∙◌}
use mathlib.Core.Logic.{◌↔◌}
use mathlib.Core.Bool.{Bool, true, false, ◌&&◌, ◌||◌}
use mathlib.Core.List.{List, [], ◌∷◌, ◌++◌}
use native.Mathlib.Omega.{arith}
use rpmz.Base.Strings.{Text, text_eq, text_eq_iff, text_eq_refl}

-- `x in xs`
unfoldable pub mem : Text → List Text → Bool
mem x [] = false
mem x (y ∷ ys) = text_eq x y || mem x ys

-- `xs <= ys`
unfoldable pub subset : List Text → List Text → Bool
unfolding mem
subset [] ys = true
subset (x ∷ xs) ys = mem x ys && subset xs ys

-- `set(xs) == set(ys)`
unfoldable pub set_eq : List Text → List Text → Bool
unfolding subset
set_eq xs ys = subset xs ys && subset ys xs

pub mem_self : (x : Text) (xs : List Text) → mem x (x ∷ xs) ≡ true
unfolding mem
mem_self x xs = ground (arith, text_eq_refl x)

pub mem-cons : (x y : Text) (ys : List Text) → mem x ys ≡ true → mem x (y ∷ ys) ≡ true
unfolding mem
mem-cons x y ys h = ground arith

pub mem-append : (x : Text) (xs ys : List Text) → mem x (xs ++ ys) ≡ (mem x xs || mem x ys)
unfolding mem
mem-append x [] ys = refl
mem-append x (z ∷ xs) ys = ground (arith, mem-append x xs ys)

pub mem-subset :
    (x : Text) (xs ys : List Text) → subset xs ys ≡ true → mem x xs ≡ true → mem x ys ≡ true
unfolding mem subset
mem-subset x [] ys h m = cc
mem-subset x (z ∷ xs) ys h m = ground (arith, text_eq_iff x z, mem-subset x xs ys)

pub subset_intro :
    (xs ys : List Text) → ((x : Text) → mem x xs ≡ true → mem x ys ≡ true) → subset xs ys ≡ true
unfolding subset
subset_intro [] ys h = refl
subset_intro (x ∷ xs) ys h =
    ground (arith, h x (mem_self x xs), subset_intro xs ys (λ z m. h z (mem-cons z x xs m)))

-- Equal as sets: the same members.
pub set_eq_iff : (xs ys : List Text) → (set_eq xs ys ≡ true) ↔ ((x : Text) → mem x xs ≡ mem x ys)
unfolding set_eq
set_eq_iff xs ys = (
  λ h x. same x (mem-subset x xs ys (ground arith)) (mem-subset x ys xs (ground arith)),
  λ e.
      ground
        (arith, subset_intro xs ys (λ x m. sym (e x) ∙ m), subset_intro ys xs (λ x m. e x ∙ m)),
)
  where
    same :
        (x : Text)
        → (mem x xs ≡ true → mem x ys ≡ true)
        → (mem x ys ≡ true → mem x xs ≡ true)
        → mem x xs ≡ mem x ys
    same x f g = ground arith
