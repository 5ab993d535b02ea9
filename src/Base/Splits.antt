-- ===== src/Base/Splits.antt =====
-- `str.split` undoes `str.join` on parts without the separator.
use rpmz.Base.{
  ℕ, ◌≡◌, refl, ap, ◌∙◌, Bool, true, false, not, List, [], ◌∷◌, ◌++◌, arith, ◌==◌, ==_refl, every,
  Text, split, join,
}

abbrev pub lacks : ℕ → Text → Bool
lacks c t = every (λ x. not (x == c)) t

split-lacks : (c : ℕ) (t : Text) → lacks c t ≡ true → split c t ≡ t ∷ []
unfolding split
split-lacks c [] h = refl
split-lacks c (x ∷ t) h =
    let e : (x == c) ≡ false = ground arith in
    rw (e, split) (rw (split-lacks c t (ground arith)) refl)

split-append : (c : ℕ) (t s : Text) → lacks c t ≡ true → split c (t ++ (c ∷ s)) ≡ t ∷ split c s
unfolding split
split-append c [] s h = rw (==_refl c, split) refl
split-append c (x ∷ t) s h =
    let e : (x == c) ≡ false = ground arith in
    rw (e, split) (rw (split-append c t s (ground arith)) refl)

pub split-join :
    (c : ℕ) (p : Text) (ps : List Text)
    → every (lacks c) (p ∷ ps) ≡ true
    → split c (join (c ∷ []) (p ∷ ps)) ≡ p ∷ ps
unfolding join
split-join c p [] h = split-lacks c p (ground arith)
split-join c p (q ∷ ps) h =
    split-append c p (join (c ∷ []) (q ∷ ps)) (ground arith)
    ∙ ap (◌∷◌ p) (split-join c q ps (ground arith))

-- The parts lack the separator.
pub lacks-split : (c : ℕ) (t : Text) → every (lacks c) (split c t) ≡ true
unfolding split
lacks-split c [] = refl
lacks-split c (x ∷ t) = go (x == c) refl (split c t) (lacks-split c t)
  where
    go :
        (b : Bool)
        → (x == c) ≡ b
        → (rest : List Text) → every (lacks c) rest ≡ true
        → every (lacks c) (elim b [
          | true ↦ [] ∷ rest
          | false ↦ elim rest [ [] ↦ (x ∷ []) ∷ [] | p ∷ ps ↦ (x ∷ p) ∷ ps ]
        ])
          ≡ true
    go true e rest h = h
    go false e [] h = ground arith
    go false e (p ∷ ps) h = ground arith
