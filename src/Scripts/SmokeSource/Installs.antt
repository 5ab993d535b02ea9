-- ===== src/Scripts/SmokeSource/Installs.antt =====
-- The call by which the script that tries a release installs it, and what stands above it.
use rpmz.Base.{
  String, ◌≡◌, ◌≢◌, Bool-cases, any, All, mem, refl, sym, ap, subst, inl, inr, Bool, true, false,
  Option, none, some, List, [], ◌∷◌, ◌++◌, map, if◌then◌else◌, In, here, there, In-cons, not-In-nil,
  In-append_cases, Text, codes, texts, text_eq, text_eq_iff, Outcome, ok, raise, ◌>>=◌,
}
use rpmz.Workflow.Steps.Sound.{append-nothing}
use rpmz.Scripts.Syntax.{other, Tree, node, Forest, called_attribute}
use rpmz.Scripts.Walk.{Located, walk}
use rpmz.Scripts.Walk.Reaches.{Descends, walk-Descends}
use rpmz.Scripts.Imports.{
  ScriptProblem, each_located, conditional_install, methods_changed, missing_run_smoke,
}
use rpmz.Scripts.Packager.{body_of, calls_of}
use rpmz.Scripts.SmokeSource.{
  SmokeCrash, function_named, runner_call, runner_methods, expected_methods, same_multiset,
  conditional_nodes, is_conditional, below_condition, calls_of_method, first_call, main_calls,
  main_problems, verification_problems, audit_run_smoke, smoke_nodes, audit_smoke_source,
}

calls_of_method-In :
    (m : Text) (calls : List (Text × Located)) (x : Located)
    → In x (calls_of_method m calls)
    → In (m, x) calls
unfolding calls_of_method
calls_of_method-In m [] x h = absurd (not-In-nil h)
calls_of_method-In m ((attr, y) ∷ rest) x h =
    go (text_eq attr m) (text_eq_iff attr m).0 h (calls_of_method-In m rest x)
  where
    go :
        (b : Bool)
        → (b ≡ true → attr ≡ m)
        → In x (if b then y ∷ calls_of_method m rest else calls_of_method m rest)
        → (In x (calls_of_method m rest) → In (m, x) rest)
        → In (m, x) ((attr, y) ∷ rest)
    go true same i rec = elim (In-cons i) [
      | inl e ↦ here (cc (e, same refl))
      | inr n ↦ there (rec n)
    ]
    go false same i rec = there (rec i)

each_located-In :
    (f : Located → List (Text × Located)) (xs : List Located) (c : Text × Located)
    → In c (each_located f xs)
    → (x : Located) × In x xs × In c (f x)
each_located-In f [] c h = absurd (not-In-nil h)
each_located-In f (x ∷ xs) c h = elim (In-append_cases (f x) h) [
  | inl i ↦ (x, here refl, i)
  | inr i ↦ let (y, k, l) = each_located-In f xs c i in (y, there k, l)
]

runner_call-In :
    (x : Located) (m : Text) (y : Located)
    → In (m, y) (runner_call x)
    → (y ≡ x) × (called_attribute x.0 ≡ some (codes "runner", m))
unfolding runner_call
runner_call-In (t, i, ancestors) m y h = go (called_attribute t) h
  where
    owned :
        (b : Bool) (owner attr : Text)
        → (b ≡ true → owner ≡ codes "runner")
        → In {A = Text × Located} (m, y) (if b then (attr, (t, i, ancestors)) ∷ [] else [])
        → (y ≡ (t, i, ancestors))
          × (◌≡◌ {A = Option (Text × Text)} (some (owner, attr)) (some (codes "runner", m)))
    owned false owner attr same k = absurd (not-In-nil k)
    owned true owner attr same k = elim (In-cons k) [
      | inl e ↦ (ap (λ z. z.1) e, cc (same refl, ap (λ z. z.0) e))
      | inr n ↦ absurd (not-In-nil n)
    ]

    go :
        (o : Option (Text × Text))
        → In {A = Text × Located}
            (m, y)
            (elim o [
              | none ↦ []
              | some (owner, attr) ↦
                  if text_eq owner (codes "runner") then (attr, (t, i, ancestors)) ∷ [] else []
            ])
        → (y ≡ (t, i, ancestors)) × (o ≡ some (codes "runner", m))
    go none k = absurd (not-In-nil k)
    go (some (owner, attr)) k =
        owned (text_eq owner (codes "runner")) owner attr (text_eq_iff owner (codes "runner")).0 k

first_call-In : (xs : List Located) (x : Located) → first_call xs ≡ ok x → In x xs
unfolding first_call
first_call-In [] x h = cc
first_call-In (y ∷ xs) x h = here (same h)
  where
    same : ◌≡◌ {A = Outcome SmokeCrash Located} (ok y) (ok x) → x ≡ y
    same e = cc

-- A call of the method stands in the function.
method_call-Descends :
    (t : Tree) (m : Text) (x : Located)
    → In x (calls_of_method m (runner_methods t))
    → Descends t x × (called_attribute x.0 ≡ some (codes "runner", m))
unfolding runner_methods
method_call-Descends t m x i =
    let (y, k, l) =
      each_located-In runner_call (walk t) (m, x) (calls_of_method-In m (runner_methods t) x i) in
    let (same, called) = runner_call-In y m x l in
    (
      subst (Descends t) (sym same) ((walk-Descends t y).0 k),
      subst (λ z. called_attribute z.0 ≡ some (codes "runner", m)) (sym same) called,
    )

-- A node of none of the seven classes.
abbrev pub IsPlain : Tree → Type 0
IsPlain t =
    All (λ kind. (ts : Forest) → t ≢ node (other (codes kind)) ts)
      ("If" ∷ "For" ∷ "AsyncFor" ∷ "While" ∷ "Try" ∷ "Match" ∷ "IfExp" ∷ [])

is_conditional-other :
    (kind : Text) (ts : Forest) → is_conditional (node (other kind) ts) ≡ mem kind conditional_nodes
unfolding is_conditional
is_conditional-other kind ts = refl

not-is_conditional : (t : Tree) → is_conditional t ≡ false → IsPlain t
unfolding conditional_nodes mem text_eq
not-is_conditional t h = (
  apart "If" refl,
  (
    apart "For" refl,
    (
      apart "AsyncFor" refl,
      (apart "While" refl, (apart "Try" refl, (apart "Match" refl, (apart "IfExp" refl, tt)))),
    ),
  ),
)
  where
    apart :
        (kind : String)
        → mem (codes kind) conditional_nodes ≡ true
        → (ts : Forest) → t ≢ node (other (codes kind)) ts
    apart kind listed ts e =
        cc (h, ap is_conditional e, is_conditional-other (codes kind) ts, listed)

not-below_condition : (x : Located) → below_condition x ≡ false → All IsPlain x.2
unfolding below_condition
not-below_condition (t, i, ancestors) h = go ancestors h
  where
    go : (ts : List Tree) → any is_conditional ts ≡ false → All IsPlain ts
    go [] k = tt
    go (u ∷ ts) k = elim (Bool-cases (is_conditional u)) [
      | inl e ↦ absurd (cc (e, k))
      | inr e ↦ (not-is_conditional u e, go ts (cc (e, k)))
    ]

-- What a silent look at `run_smoke` says.
audit_run_smoke_lem :
    (script run_smoke : Tree)
    → audit_run_smoke script run_smoke ≡ ok []
    → (x : Located) × Descends run_smoke x
      × (called_attribute x.0 ≡ some (codes "runner", codes "ghr_install"))
      × All IsPlain x.2
unfolding audit_run_smoke
audit_run_smoke_lem script run_smoke h =
    go (first_call (calls_of_method (codes "ghr_install") (runner_methods run_smoke)))
      (first_call-In (calls_of_method (codes "ghr_install") (runner_methods run_smoke))) h
  where
    methods : List ScriptProblem
    methods =
        if same_multiset (map (λ m. m.0) (runner_methods run_smoke)) expected_methods
        then []
        else methods_changed ∷ []

    mains : List ScriptProblem
    mains = main_problems (main_calls (function_named (codes "main") none (body_of script)))

    verifications : List ScriptProblem
    verifications =
        verification_problems
          (texts ("validate_arguments" ∷ "expected_assets" ∷ "verify_checksum" ∷ []))
          (calls_of run_smoke)

    condition : Located → List ScriptProblem
    condition x = if below_condition x then conditional_install ∷ [] else []

    free : (b : Bool) → (if b then conditional_install ∷ [] else []) ≡ [] → b ≡ false
    free true e = cc
    free false e = refl

    nothing :
        (ps : List ScriptProblem)
        → ◌≡◌ {A = Outcome SmokeCrash (List ScriptProblem)} (ok ps) (ok [])
        → ps ≡ []
    nothing ps e = cc

    go :
        (o : Outcome SmokeCrash Located)
        → ((x : Located)
            → o ≡ ok x
            → In x (calls_of_method (codes "ghr_install") (runner_methods run_smoke)))
        → (o >>= λ x. ok (methods ++ condition x ++ mains ++ verifications)) ≡ ok []
        → (x : Located) × Descends run_smoke x
          × (called_attribute x.0 ≡ some (codes "runner", codes "ghr_install"))
          × All IsPlain x.2
    go (raise e) i k = cc
    go (ok x) i k =
        let before = append-nothing (methods ++ condition x ++ mains) verifications (nothing _ k) in
        let front = append-nothing (methods ++ condition x) mains before.0 in
        let (d, called) = method_call-Descends run_smoke (codes "ghr_install") x (i x refl) in
        (
          x,
          d,
          called,
          not-below_condition x
              (free (below_condition x) (append-nothing methods (condition x) front.0).1),
        )

-- If the audit of the script has no message, then the last function `run_smoke` of the script has in it a call
-- of `runner.ghr_install` such that no node above the call, up to the function, is of one of the seven classes
-- `If`, `For`, `AsyncFor`, `While`, `Try`, `Match` and `IfExp`. Other nodes may stand above it, as a
-- comprehension, a lambda, an `and`, or the definition of a function within.
pub audit_smoke_source-installs :
    (script : Tree)
    → audit_smoke_source (some script) ≡ ok []
    → (run_smoke : Tree) × (x : Located) × (function_named (codes "run_smoke") none (body_of script)
        ≡ some run_smoke)
      × Descends run_smoke x
      × (called_attribute x.0 ≡ some (codes "runner", codes "ghr_install"))
      × All IsPlain x.2
unfolding audit_smoke_source
audit_smoke_source-installs script h =
    go (function_named (codes "run_smoke") none (body_of script)) h
  where
    spoken :
        (ps : List ScriptProblem) (p : ScriptProblem)
        → ◌≡◌ {A = Outcome SmokeCrash (List ScriptProblem)} (ok (ps ++ (p ∷ []))) (ok [])
        → ⊥
    spoken [] p e = cc
    spoken (q ∷ ps) p e = cc

    quiet :
        (run_smoke : Tree) (o : Outcome SmokeCrash (List ScriptProblem))
        → (o >>= λ problems. ok (smoke_nodes script ++ problems)) ≡ ok []
        → o ≡ ok []
    quiet run_smoke (raise e) k = cc
    quiet run_smoke (ok problems) k =
        ap ok (append-nothing (smoke_nodes script) problems (nothing k)).1
      where
        nothing :
            ◌≡◌ {A = Outcome SmokeCrash (List ScriptProblem)}
              (ok (smoke_nodes script ++ problems))
              (ok [])
            → smoke_nodes script ++ problems ≡ []
        nothing e = cc

    go :
        (o : Option Tree)
        → (elim o [
          | none ↦ ok (smoke_nodes script ++ (missing_run_smoke ∷ []))
          | some run_smoke ↦
              audit_run_smoke script run_smoke >>= λ problems. ok (smoke_nodes script ++ problems)
        ])
          ≡ ok []
        → (run_smoke : Tree) × (x : Located) × (o ≡ some run_smoke)
          × Descends run_smoke x
          × (called_attribute x.0 ≡ some (codes "runner", codes "ghr_install"))
          × All IsPlain x.2
    go none k = absurd (spoken (smoke_nodes script) missing_run_smoke k)
    go (some run_smoke) k =
        let (x, d, called, free) =
          audit_run_smoke_lem script run_smoke
            (quiet run_smoke (audit_run_smoke script run_smoke) k) in
        (run_smoke, x, refl, d, called, free)
