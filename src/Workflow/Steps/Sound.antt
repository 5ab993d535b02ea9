-- ===== src/Workflow/Steps/Sound.antt =====
-- What it says that an audit has no message.
use rpmz.Base.{
  ◌≡◌, refl, ap, ◌∙◌, inl, inr, Bool, true, false, List, [], ◌∷◌, ◌++◌, map, or-true, All, In,
  In-cons, not-In-nil, Text, text_eq, text_eq_iff, mem, ok, raise, ◌>>=◌,
}
use rpmz.Workflow.Steps.{Problem, Checked, expect, expect_all, each_of}

pub append-nothing {ℓ} : {A : Type ℓ} (xs ys : List A) → xs ++ ys ≡ [] → (xs ≡ []) × (ys ≡ [])
append-nothing [] ys h = (refl, h)
append-nothing (x ∷ xs) ys h = cc

pub expect-nothing :
    (condition : Bool) (problem : Problem) → expect condition problem ≡ [] → condition ≡ true
unfolding expect
expect-nothing true problem h = refl
expect-nothing false problem h = cc

pub expect_all-nothing :
    (checks : List (Bool × Problem)) → expect_all checks ≡ [] → All (λ check. check.0 ≡ true) checks
unfolding expect_all
expect_all-nothing [] h = tt
expect_all-nothing ((condition, problem) ∷ checks) h =
    let parts = append-nothing (expect condition problem) (expect_all checks) h in
    (expect-nothing condition problem parts.0, expect_all-nothing checks parts.1)

pub each_of-nothing :
    (checks : List Checked) → each_of checks ≡ ok [] → All (λ check. check ≡ ok []) checks
unfolding each_of
each_of-nothing [] h = tt
each_of-nothing (raise e ∷ checks) h = cc
each_of-nothing (ok problems ∷ checks) h = go (each_of checks) refl (each_of-nothing checks) h
  where
    go :
        (rest : Checked)
        → each_of checks ≡ rest
        → (each_of checks ≡ ok [] → All (λ check. check ≡ ok []) checks)
        → (rest >>= λ more. ok (problems ++ more)) ≡ ok []
        → All (λ check. check ≡ ok []) (ok problems ∷ checks)
    go (raise e) q rec k = cc
    go (ok more) q rec k =
        let parts = append-nothing problems more cc in (ap ok parts.0, rec (q ∙ ap ok parts.1))

pub ok-nothing : (ps : List Problem) → ◌≡◌ {A = Checked} (ok ps) (ok []) → ps ≡ []
ok-nothing ps h = cc

-- The first test held, and nothing is said behind it.
pub expect-append-nothing :
    (condition : Bool) (problem : Problem) (more : List Problem)
    → expect condition problem ++ more ≡ []
    → (condition ≡ true) × (more ≡ [])
expect-append-nothing condition problem more h =
    let parts = append-nothing (expect condition problem) more h in
    (expect-nothing condition problem parts.0, parts.1)

-- What is silent for each name is silent for one of them.
pub named-nothing :
    (f : Text → Checked) (names : List Text) (name : Text)
    → mem name names ≡ true
    → All (λ check. check ≡ ok []) (map f names)
    → f name ≡ ok []
unfolding mem
named-nothing f [] name h all = cc
named-nothing f (n ∷ names) name h all = elim (or-true (text_eq name n) (mem name names) h) [
  | inl e ↦ ap f ((text_eq_iff name n).0 e) ∙ all.0
  | inr e ↦ named-nothing f names name e all.1
]

-- Of a list of steps, each is silent.
pub step-nothing {ℓ} :
    {A : Type ℓ} (f : A → Checked) (steps : List A) (step : A)
    → In step steps
    → All (λ check. check ≡ ok []) (map f steps)
    → f step ≡ ok []
step-nothing f [] step i all = absurd (not-In-nil i)
step-nothing f (s ∷ steps) step i all = elim (In-cons i) [
  | inl e ↦ ap f e ∙ all.0
  | inr j ↦ step-nothing f steps step j all.1
]
