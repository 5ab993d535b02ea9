-- ===== src/Errdefer/Strip/Laws.antt =====
-- Stripping a stripped line changes nothing.
use rpmz.Base.{
  ℕ, ◌≡◌, refl, ap, ◌∙◌, ◌⊎◌, inl, inr, false, [], ◌∷◌, arith, ◌==◌, ==_refl, Bool-cases, Text,
}
use rpmz.Errdefer.Strip.{Step, stops, quotes, copies, step, strip_noise, skip_literal}

pub Step-cases : (k : Step) → (k ≡ stops) ⊎ ((k ≡ quotes) ⊎ (k ≡ copies))
Step-cases stops = inl refl
Step-cases quotes = inr (inl refl)
Step-cases copies = inr (inr refl)

-- A quote is neither a slash nor a backslash, whatever stands behind it.
step-quotes : (c : ℕ) (s r : Text) → step c s ≡ quotes → step c r ≡ quotes
unfolding step
step-quotes c [] [] h = h
step-quotes c [] (_ ∷ _) h = ground arith
step-quotes c (_ ∷ _) [] h = ground arith
step-quotes c (_ ∷ _) (_ ∷ _) h = ground arith

quotes-ne_backslash : (c : ℕ) (s : Text) → step c s ≡ quotes → (c == b'\\') ≡ false
unfolding step
quotes-ne_backslash c [] h = ground arith
quotes-ne_backslash c (_ ∷ _) h = ground arith

step-nil : (c : ℕ) (s : Text) → step c s ≡ copies → step c [] ≡ copies
unfolding step
step-nil c [] h = h
step-nil c (_ ∷ _) h = ground arith

-- Only the next character matters.
step-cons : (c d : ℕ) (s r : Text) → step c (d ∷ s) ≡ copies → step c (d ∷ r) ≡ copies
unfolding step
step-cons c d s r h = h

-- A character that is copied stays one that is copied: a stripped rest begins as the rest does.
step-strip_noise : (c : ℕ) (s : Text) → step c s ≡ copies → step c (strip_noise s) ≡ copies
unfolding strip_noise
step-strip_noise c [] h = h
step-strip_noise c (d ∷ s) h = elim (Step-cases (step d s)) [
  | inl e ↦ rw (e, strip_noise) (step-nil c (d ∷ s) h)
  | inr (inl e) ↦ rw (e, strip_noise) (step-cons c d s _ h)
  | inr (inr e) ↦ rw (e, strip_noise) (step-cons c d s _ h)
]

pub skip_literal-close :
    (c : ℕ) (s : Text) → (c == b'\\') ≡ false → skip_literal c (c ∷ s) ≡ strip_noise s
unfolding strip_noise
skip_literal-close c [] h = refl
skip_literal-close c (d ∷ s) h = rw (h, skip_literal) (rw (==_refl c, skip_literal))

mutual
  unfolding strip_noise

  strip_noise_twice : (s : Text) → strip_noise (strip_noise s) ≡ strip_noise s
  strip_noise_twice [] = refl
  strip_noise_twice (c ∷ s) = elim (Step-cases (step c s)) [
    | inl e ↦ rw (e, strip_noise)
    | inr (inl e) ↦
        rw (e, strip_noise)
          (rw (step-quotes c s (c ∷ skip_literal c s) e, strip_noise)
            (ap (λ r. c ∷ c ∷ r)
              (skip_literal-close c (skip_literal c s) (quotes-ne_backslash c s e)
                ∙ skip_literal_twice c s)))
    | inr (inr e) ↦
        rw (e, strip_noise)
          (rw (step-strip_noise c s e, strip_noise) (ap (◌∷◌ c) (strip_noise_twice s)))
  ]

  skip_literal_twice : (q : ℕ) (s : Text) → strip_noise (skip_literal q s) ≡ skip_literal q s
  skip_literal_twice q [] = refl
  skip_literal_twice q (c ∷ []) = refl
  skip_literal_twice q (c ∷ d ∷ s) = elim (Bool-cases (c == b'\\')) [
    | inl e ↦ rw (e, skip_literal) (skip_literal_twice q s)
    | inr e ↦ elim (Bool-cases (c == q)) [
      | inl f ↦ rw (e, skip_literal) (rw (f, skip_literal) (strip_noise_twice (d ∷ s)))
      | inr f ↦ rw (e, skip_literal) (rw (f, skip_literal) (skip_literal_twice q (d ∷ s)))
    ]
  ]

-- `strip_noise(strip_noise(line)) == strip_noise(line)` for every line.
pub strip_noise_idem : (line : Text) → strip_noise (strip_noise line) ≡ strip_noise line
strip_noise_idem line = strip_noise_twice line
