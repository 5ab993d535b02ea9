-- ===== src/Base/Outcomes.antt =====
-- What a call gives: a value, or the exception that the source raises, with its message. The type
-- of messages is the caller's.
use mathlib.Core.Path.{◌≡◌, refl, sym, subst}
use mathlib.Core.Logic.{inl, inr}
use rpmz.Base.Lists.{All, here, there, In, In-cons, not-In-nil}
use mathlib.Core.Bool.{Bool, true, false}
use mathlib.Core.List.{List, [], ◌∷◌}

pub data Outcome {ℓ κ} (E : Type ℓ) (A : Type κ) : Type (ℓ ⊔ κ) where
  ok : A → Outcome E A
  raise : E → Outcome E A

infixl 5 ◌>>=◌ ◌>>◌
abbrev pub ◌>>=◌ {ℓ κ μ} :
    {E : Type ℓ} {A : Type κ} {B : Type μ} → Outcome E A → (A → Outcome E B) → Outcome E B
ok a >>= f = f a
raise e >>= f = raise e

abbrev pub ◌>>◌ {ℓ κ} : {E : Type ℓ} {B : Type κ} → Outcome E (Unit {0}) → Outcome E B → Outcome E B
m >> k = m >>= λ _. k

-- `if not test: raise e`
abbrev pub guard {ℓ} : {E : Type ℓ} → Bool → E → Outcome E (Unit {0})
guard true e = ok tt
guard false e = raise e

pub >>=-eq-ok {ℓ κ μ} :
    {E : Type ℓ} {A : Type κ} {B : Type μ} (call : Outcome E A) (next : A → Outcome E B)
    → {result : B} → (call >>= next) ≡ ok result
    → (value : A) × (call ≡ ok value) × (next value ≡ ok result)
>>=-eq-ok (raise e) next h = cc
>>=-eq-ok (ok value) next h = (value, refl, h)

pub guard-eq-ok {ℓ} : {E : Type ℓ} (t : Bool) (e : E) {u : Unit {0}} → guard t e ≡ ok u → t ≡ true
guard-eq-ok true e h = refl
guard-eq-ok false e h = cc

-- `for x in xs: body(x)`, where the body may raise.
abbrev pub for_each {ℓ κ} :
    {E : Type ℓ} {A : Type κ} → (A → Outcome E (Unit {0})) → List A → Outcome E (Unit {0})
for_each body [] = ok tt
for_each body (x ∷ xs) = body x >> for_each body xs

pub then-eq-ok {ℓ κ} :
    {E : Type ℓ} {B : Type κ} (t : Bool) (e : E) (k : Outcome E B) {b : B}
    → (guard t e >> k) ≡ ok b
    → (t ≡ true) × (k ≡ ok b)
then-eq-ok true e k h = (refl, h)
then-eq-ok false e k h = cc

pub >>-eq-ok {ℓ κ} :
    {E : Type ℓ} {B : Type κ} (m : Outcome E (Unit {0})) (k : Outcome E B) {b : B}
    → (m >> k) ≡ ok b
    → (m ≡ ok tt) × (k ≡ ok b)
>>-eq-ok (ok tt) k h = (refl, h)
>>-eq-ok (raise e) k h = cc

-- A loop that ends without an exception has passed its body at each element.
pub for_each-In {ℓ κ} :
    {E : Type ℓ} {A : Type κ} (f : A → Outcome E (Unit {0})) (xs : List A) (x : A)
    → for_each f xs ≡ ok tt
    → In x xs
    → f x ≡ ok tt
for_each-In f [] x h m = absurd (not-In-nil m)
for_each-In f (y ∷ ys) x h m =
    let (p, q) = >>-eq-ok (f y) (for_each f ys) h in
    elim (In-cons m) [ inl e ↦ subst (λ z. f z ≡ ok tt) (sym e) p | inr r ↦ for_each-In f ys x q r ]

pub for_each-All {ℓ κ} :
    {E : Type ℓ} {A : Type κ} (body : A → Outcome E (Unit {0})) (xs : List A)
    → for_each body xs ≡ ok tt
    → All (λ x. body x ≡ ok tt) xs
for_each-All body [] h = tt
for_each-All body (x ∷ xs) h =
    let (p, q) = >>-eq-ok (body x) (for_each body xs) h in (p, for_each-All body xs q)

-- `for x in xs: if not test(x): raise error(x)`
pub for_each-guard {ℓ κ} :
    {E : Type ℓ} {A : Type κ} (test : A → Bool) (error : A → E) (xs : List A)
    → for_each (λ x. guard (test x) (error x)) xs ≡ ok tt
    → All (λ x. test x ≡ true) xs
for_each-guard test error [] h = tt
for_each-guard test error (x ∷ xs) h =
    let (p, q) = then-eq-ok (test x) (error x) (for_each (λ y. guard (test y) (error y)) xs) h in
    (p, for_each-guard test error xs q)

pub for_each_intro {ℓ κ} :
    {E : Type ℓ} {A : Type κ} (test : A → Bool) (error : A → E) (xs : List A)
    → ((x : A) → In x xs → test x ≡ true)
    → for_each (λ x. guard (test x) (error x)) xs ≡ ok tt
for_each_intro test error [] h = refl
for_each_intro test error (x ∷ xs) h =
    rw (h x (here refl)) (for_each_intro test error xs (λ y m. h y (there m)))
