-- ===== src/Closure/Worklist/Reach.antt =====
-- What the loop provides: the packages that are reachable through pins, and no other.
use rpmz.Base.{
  ℕ, zero, suc, ◌≤◌, ◌≡◌, refl, sym, subst, ◌≢◌, ◌↔◌, ◌⊎◌, inl, inr, true, Option, some, List, [],
  ◌∷◌, arith, Bool-cases, or-true, length, Text, text_eq_iff, mem, mem_self, mem-cons, Outcome, ok,
  raise,
}
use rpmz.Closure.Worklist.{Fault, Visit, takes, skips, fails, push, mem-push, loop}

-- The hashes reachable from the first ones through the pins of packages that are taken.
pub data Reaches (visit : Text → Visit) (pins : Text → List Text) (initial : List Text)
    : Text → Type 0 where
  first : {h : Text} → mem h initial ≡ true → Reaches visit pins initial h
  pin :
      {g h : Text}
      → Reaches visit pins initial g
      → visit g ≡ takes
      → mem h (pins g) ≡ true
      → Reaches visit pins initial h

-- What is added for a package are its pins, but for some that are provided already.
pub record AddsPins (pins : Text → List Text) (added : List Text → Text → List Text) : Type 0 where
  pub only : (p : List Text) (g h : Text) → mem h (added p g) ≡ true → mem h (pins g) ≡ true
  pub all :
      (p : List Text) (g h : Text)
      → mem h (pins g) ≡ true
      → (mem h (added p g) ≡ true) ⊎ (mem h p ≡ true)
  pub no_more : (p : List Text) (g : Text) → length (added p g) ≤ length (pins g)

mem-cons_iff : (x y : Text) (ys : List Text) → mem x (y ∷ ys) ≡ true → (x ≡ y) ⊎ (mem x ys ≡ true)
unfolding mem
mem-cons_iff x y ys h = ground (arith, text_eq_iff x y)

module _ (visit : Text → Visit) (pins : Text → List Text) (added : List Text → Text → List Text)
    (adds : AddsPins pins added) (initial : List Text) where
  -- Provided, on the list, or passed over.
  abbrev pub Covered : List Text → List Text → Text → Type 0
  Covered pending provided h =
      (mem h provided ≡ true) ⊎ ((mem h pending ≡ true) ⊎ (visit h ≡ skips))

  pub record Inv (pending provided : List Text) : Type 0 where
    pub started : (h : Text) → mem h initial ≡ true → Covered pending provided h
    pub closed :
        (g h : Text) → mem g provided ≡ true → mem h (pins g) ≡ true → Covered pending provided h
    pub taken :
        (h : Text) → mem h provided ≡ true → Reaches visit pins initial h × (visit h ≡ takes)
    pub queued : (h : Text) → mem h pending ≡ true → Reaches visit pins initial h

  -- The head of the list may go if it is provided or passed over.
  Covered-drop :
      (h : Text) (pending provided : List Text)
      → (mem h provided ≡ true) ⊎ (visit h ≡ skips)
      → (x : Text) → Covered (h ∷ pending) provided x
      → Covered pending provided x
  Covered-drop h pending provided d x (inl a) = inl a
  Covered-drop h pending provided d x (inr (inr c)) = inr (inr c)
  Covered-drop h pending provided d x (inr (inl b)) = elim (mem-cons_iff x h pending b) [
    | inr r ↦ inr (inl r)
    | inl e ↦ elim d [ inl p ↦ inl (rw e p) | inr s ↦ inr (inr (rw e s)) ]
  ]

  Inv-drop :
      (h : Text) (pending provided : List Text)
      → (mem h provided ≡ true) ⊎ (visit h ≡ skips)
      → Inv (h ∷ pending) provided
      → Inv pending provided
  Inv-drop h pending provided d i = record {
    started = λ x m. Covered-drop h pending provided d x (i.started x m);
    closed = λ g x m n. Covered-drop h pending provided d x (i.closed g x m n);
    taken = i.taken;
    queued = λ x m. i.queued x (mem-cons x h pending m);
  }

  module _ (h : Text) (pending provided : List Text) where
    abbrev rest : List Text
    rest = push (added (h ∷ provided) h) pending

    mem-rest_right : (x : Text) → mem x pending ≡ true → mem x rest ≡ true
    mem-rest_right x m = rw mem-push (ground (arith, m))

    mem-rest_left : (x : Text) → mem x (added (h ∷ provided) h) ≡ true → mem x rest ≡ true
    mem-rest_left x m = rw mem-push (ground (arith, m))

    Covered-take : (x : Text) → Covered (h ∷ pending) provided x → Covered rest (h ∷ provided) x
    Covered-take x (inl a) = inl (mem-cons x h provided a)
    Covered-take x (inr (inr c)) = inr (inr c)
    Covered-take x (inr (inl b)) = elim (mem-cons_iff x h pending b) [
      | inl e ↦ inl (rw e (mem_self h provided))
      | inr r ↦ inr (inl (mem-rest_right x r))
    ]

    Covered-pin : (x : Text) → mem x (pins h) ≡ true → Covered rest (h ∷ provided) x
    Covered-pin x m = elim (adds.all (h ∷ provided) h x m) [
      | inl a ↦ inr (inl (mem-rest_left x a))
      | inr b ↦ inl b
    ]

    Inv-take : visit h ≡ takes → Inv (h ∷ pending) provided → Inv rest (h ∷ provided)
    Inv-take v i = record {
      started = λ x m. Covered-take x (i.started x m);
      closed = λ g x m n. elim (mem-cons_iff g h provided m) [
        | inl e ↦ Covered-pin x (subst (λ k. mem x (pins k) ≡ true) e n)
        | inr r ↦ Covered-take x (i.closed g x r n)
      ];
      taken = λ x m. elim (mem-cons_iff x h provided m) [
        | inl e ↦ (subst (Reaches visit pins initial) (sym e) here, rw e v)
        | inr r ↦ i.taken x r
      ];
      queued = λ x m.
          elim (or-true (mem x (added (h ∷ provided) h)) (mem x pending) (rw mem-push at m)) [
            | inl a ↦ pin here v (adds.only (h ∷ provided) h x a)
            | inr b ↦ i.queued x (mem-cons x h pending b)
          ];
    }
      where
        here : Reaches visit pins initial h
        here = i.queued h (mem_self h pending)

  Inv-start : Inv initial []
  unfolding mem
  Inv-start = record {
    started = λ h m. inr (inl m);
    closed = λ g h m n. cc;
    taken = λ h m. cc;
    queued = λ h m. first m;
  }

  -- The loop keeps the invariant, and ends with an empty list or at a reachable package that fails.
  pub loop-Inv :
      (fuel : ℕ) (pending provided : List Text) (r : Outcome Fault (List Text))
      → Inv pending provided
      → loop visit added fuel pending provided ≡ some r
      → ((out : List Text) × (r ≡ ok out) × Inv [] out)
        ⊎ ((e : Fault) × (h : Text) × (r ≡ raise e)
            × Reaches visit pins initial h
            × (visit h ≡ fails e))
  unfolding loop
  loop-Inv zero pending provided r i k = cc
  loop-Inv (suc fuel) [] provided r i k = inl (provided, cc, i)
  loop-Inv (suc fuel) (h ∷ pending) provided r i k = elim (Bool-cases (mem h provided)) [
    | inl m ↦
        loop-Inv fuel pending provided r (Inv-drop h pending provided (inl m) i) (rw (m, loop) at k)
    | inr m ↦
        go (visit h) refl (rw (m, loop) at k) (loop-Inv fuel pending provided r)
          (loop-Inv fuel (rest h pending provided) (h ∷ provided) r)
  ]
    where
      Result : Type 0
      Result =
          ((out : List Text) × (r ≡ ok out) × Inv [] out)
          ⊎ ((e : Fault) × (h : Text) × (r ≡ raise e)
              × Reaches visit pins initial h
              × (visit h ≡ fails e))

      go :
          (v : Visit)
          → visit h ≡ v
          → ◌≡◌ {A = Option (Outcome Fault (List Text))}
              (elim v [
                | skips ↦ loop visit added fuel pending provided
                | fails e ↦ some (raise e)
                | takes ↦
                    loop visit added fuel (push (added (h ∷ provided) h) pending) (h ∷ provided)
              ])
              (some r)
          → (Inv pending provided → loop visit added fuel pending provided ≡ some r → Result)
          → (Inv (rest h pending provided) (h ∷ provided)
              → loop visit added fuel (rest h pending provided) (h ∷ provided) ≡ some r
              → Result)
          → Result
      go takes e q drop_on take_on = take_on (Inv-take h pending provided e i) q
      go skips e q drop_on take_on = drop_on (Inv-drop h pending provided (inr e) i) q
      go (fails f) e q drop_on take_on = inr (f, h, cc, i.queued h (mem_self h pending), e)

  Covered-of_reach :
      (out : List Text) → Inv [] out → {h : Text} → Reaches visit pins initial h → Covered [] out h
  Covered-of_reach out i (first m) = i.started _ m
  Covered-of_reach out i (pin {g} {h} r t m) = elim (Covered-of_reach out i r) [
    | inl p ↦ i.closed g h p m
    | inr (inl q) ↦ absurd (not_pending g q)
    | inr (inr s) ↦ cc
  ]
    where
      not_pending : (x : Text) → mem x [] ≡ true → ⊥
      not_pending x q = unfold mem in cc

  no_pending : (x : Text) → mem x [] ≡ true → ⊥
  unfolding mem
  no_pending x q = cc

  -- Where the loop ends well, it has provided exactly the packages that are reachable and taken, and
  -- no reachable package fails; otherwise the exception is that of a reachable package.
  pub loop-Reaches :
      (fuel : ℕ) (out : List Text)
      → loop visit added fuel initial [] ≡ some (ok out)
      → ((h : Text) → (mem h out ≡ true) ↔ (Reaches visit pins initial h × (visit h ≡ takes)))
        × ((h : Text) (e : Fault) → Reaches visit pins initial h → visit h ≢ fails e)
  loop-Reaches fuel out k = elim (loop-Inv fuel initial [] (ok out) Inv-start k) [
    | inl (out', e, i) ↦ at_end out' i e
    | inr (e, h, c, _, _) ↦ cc
  ]
    where
      at_end :
          (out' : List Text)
          → Inv [] out'
          → ◌≡◌ {A = Outcome Fault (List Text)} (ok out) (ok out')
          → ((h : Text) → (mem h out ≡ true) ↔ (Reaches visit pins initial h × (visit h ≡ takes)))
            × ((h : Text) (e : Fault) → Reaches visit pins initial h → visit h ≢ fails e)
      at_end out' i e =
          let same : out ≡ out' = cc in
          rw same (
            λ h. (
              i.taken h,
              λ (r, t). elim (Covered-of_reach out' i r) [
                | inl p ↦ p
                | inr (inl q) ↦ absurd (no_pending h q)
                | inr (inr s) ↦ cc
              ],
            ),
            λ h f r v. elim (Covered-of_reach out' i r) [
              | inl p ↦ absurd (clash h f (i.taken h p).1 v)
              | inr (inl q) ↦ no_pending h q
              | inr (inr s) ↦ cc
            ],
          )
        where
          clash : (h : Text) (f : Fault) → visit h ≡ takes → visit h ≡ fails f → ⊥
          clash h f a b = cc
