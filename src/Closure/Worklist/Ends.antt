-- ===== src/Closure/Worklist/Ends.antt =====
-- The loop ends: the hashes put on the list are pins of packages that are taken, each once.
use rpmz.Base.{
  ℕ, zero, suc, ◌+◌, ◌≤◌, ◌<◌, ◌≡◌, refl, inl, inr, true, false, Option, some, List, [], ◌∷◌, arith,
  if◌then◌else◌, Bool-cases, length, Text, text_eq, text_eq_iff, mem, mem_self, Outcome, ok, raise,
}
use rpmz.Closure.Worklist.{Fault, Visit, takes, skips, fails, push, length-push, loop}
use rpmz.Closure.Worklist.Reach.{AddsPins}

-- The pins of the packages of a list that are not provided yet.
unfoldable pub pins_left : (Text → List Text) → List Text → List Text → ℕ
pins_left pins [] provided = 0
pins_left pins (u ∷ us) provided =
    (if mem u provided then 0 else length (pins u)) + pins_left pins us provided

pins_left-cons-le :
    (pins : Text → List Text) (us provided : List Text) (h : Text)
    → pins_left pins us (h ∷ provided) ≤ pins_left pins us provided
unfolding pins_left mem
pins_left-cons-le pins [] provided h = omega arith
pins_left-cons-le pins (u ∷ us) provided h = ground (arith, pins_left-cons-le pins us provided h)

-- Taking a package of the list takes its pins off.
pins_left-cons :
    (pins : Text → List Text) (us provided : List Text) (h : Text)
    → mem h us ≡ true
    → mem h provided ≡ false
    → pins_left pins us (h ∷ provided) + length (pins h) ≤ pins_left pins us provided
unfolding pins_left
pins_left-cons pins [] provided h m n = unfold mem in cc
pins_left-cons pins (u ∷ us) provided h m n = elim (Bool-cases (text_eq u h)) [
  | inl e ↦
      let same = (text_eq_iff u h).0 e in
      let gone : mem u (h ∷ provided) ≡ true = rw same (mem_self h provided) in
      let fresh : mem u provided ≡ false = rw same n in
      rw (gone, fresh) (rw same (omega (arith, pins_left-cons-le pins us provided h)))
  | inr e ↦ other e (pins_left-cons pins us provided h)
]
  where
    other :
        text_eq u h ≡ false
        → (mem h us ≡ true
            → mem h provided ≡ false
            → pins_left pins us (h ∷ provided) + length (pins h) ≤ pins_left pins us provided)
        → (if mem u (h ∷ provided) then 0 else length (pins u))
            + pins_left pins us (h ∷ provided)
            + length (pins h)
          ≤ (if mem u provided then 0 else length (pins u)) + pins_left pins us provided
    other e ih = unfold mem in ground (arith, text_eq_iff u h, text_eq_iff h u, ih, m, n)

-- If the packages that are taken stand in a list, then fuel above the first hashes and all their
-- pins is enough: the loop gives a result or an exception.
pub loop-ends :
    (visit : Text → Visit) (pins : Text → List Text) (added : List Text → Text → List Text)
    → AddsPins pins added
    → (packages : List Text) → ((h : Text) → visit h ≡ takes → mem h packages ≡ true)
    → (fuel : ℕ) (pending provided : List Text)
    → length pending + pins_left pins packages provided < fuel
    → (r : Outcome Fault (List Text)) × (loop visit added fuel pending provided ≡ some r)
unfolding loop
loop-ends visit pins added adds packages known zero pending provided h = absurd (omega arith)
loop-ends visit pins added adds packages known (suc fuel) [] provided h = (ok provided, refl)
loop-ends visit pins added adds packages known (suc fuel) (x ∷ pending) provided h =
    elim (Bool-cases (mem x provided)) [
      | inl m ↦
          rw (m, loop)
            (loop-ends visit pins added adds packages known fuel pending provided (omega arith))
      | inr m ↦
          rw (m, loop)
            (go (visit x) refl
              (loop-ends visit pins added adds packages known fuel pending provided (omega arith))
              (loop-ends visit pins added adds packages known fuel
                (push (added (x ∷ provided) x) pending) (x ∷ provided))
              m)
    ]
  where
    Ends : Option (Outcome Fault (List Text)) → Type 0
    Ends o = (r : Outcome Fault (List Text)) × (o ≡ some r)

    go :
        (v : Visit)
        → visit x ≡ v
        → Ends (loop visit added fuel pending provided)
        → (length (push (added (x ∷ provided) x) pending) + pins_left pins packages (x ∷ provided)
              < fuel
            → Ends (loop visit added fuel (push (added (x ∷ provided) x) pending) (x ∷ provided)))
        → mem x provided ≡ false
        → Ends (elim v [
          | skips ↦ loop visit added fuel pending provided
          | fails e ↦ some (raise e)
          | takes ↦ loop visit added fuel (push (added (x ∷ provided) x) pending) (x ∷ provided)
        ])
    go takes e a b m = b (
        omega (
          arith,
          length-push (added (x ∷ provided) x) pending,
          adds.no_more (x ∷ provided) x,
          pins_left-cons pins packages provided x (known x e) m,
          h,
        ))
    go skips e a b m = a
    go (fails f) e a b m = (raise f, refl)
