-- ===== src/Workflow/Scalars/Ends.antt =====
-- The reading of a scalar ends, with a value or with an exception that the source raises.
use rpmz.Base.{
  ℕ, zero, suc, ◌≤◌, ◌<◌, ◌≡◌, refl, inl, inr, Bool, true, false, Option, none, some, List, [], ◌∷◌,
  arith, ◌==◌, if◌then◌else◌, Bool-cases, length, All, All-imp, Text, is_space, lstrip, rstrip,
  strip, split, Outcome, ok, raise, ◌>>=◌, cut,
}
use rpmz.Workflow.Values.{Value, null, boolean, text, items, mapping, tuple, other_literal, nil}
use rpmz.Workflow.Distinct.{IsDistinct, AllDistinct}
use rpmz.Workflow.Lines.{
  YamlError, tabs, missing_colon, index_error, fuel_exhausted, strip_comment, before_comment,
  indentation, next_quote, starts_comment,
}
use rpmz.Workflow.Scalars.{
  without_last, is_quoted, is_bracketed, inner, read_each, word, is_empty, read_scalar,
  scalar_within, parse_scalar, as_key, split_mapping,
}

-- One of the exceptions that the source raises itself.
abbrev pub IsReported : YamlError → Type 0
IsReported index_error = ⊥
IsReported fuel_exhausted = ⊥
IsReported _ = Unit

-- A result with the property, or such an exception.
abbrev pub Ends {ℓ} : {A : Type ℓ} → (A → Type 0) → Outcome YamlError A → Type 0
Ends P (ok a) = P a
Ends P (raise e) = IsReported e

abbrev pub Any {ℓ} : {A : Type ℓ} → A → Type 0
Any a = Unit

pub Ends-bind {ℓ κ} :
    {A : Type ℓ} {B : Type κ} (P : A → Type 0) (Q : B → Type 0) (m : Outcome YamlError A)
    (f : A → Outcome YamlError B)
    → Ends P m
    → ((a : A) → P a → Ends Q (f a))
    → Ends Q (m >>= f)
Ends-bind P Q (ok a) f h k = k a h
Ends-bind P Q (raise e) f h k = h

length-lstrip : (s : Text) → length (lstrip s) ≤ length s
unfolding lstrip
length-lstrip [] = omega arith
length-lstrip (c ∷ s) = elim (Bool-cases (is_space c)) [
  | inl e ↦ rw (e, lstrip) (omega (arith, length-lstrip s))
  | inr e ↦ rw (e, lstrip) (omega arith)
]

length-rstrip : (s : Text) → length (rstrip s) ≤ length s
unfolding rstrip
length-rstrip [] = omega arith
length-rstrip (c ∷ s) = go (is_space c) (rstrip s) (length-rstrip s)
  where
    go :
        (b : Bool) (r : Text)
        → length r ≤ length s
        → length {A = ℕ} (elim r [ [] ↦ if b then [] else c ∷ [] | d ∷ r' ↦ c ∷ d ∷ r' ])
          ≤ suc (length s)
    go true [] h = omega arith
    go false [] h = omega arith
    go b (d ∷ r) h = omega arith

length-strip : (s : Text) → length (strip s) ≤ length s
unfolding strip
length-strip s = omega (arith, length-rstrip (lstrip s), length-lstrip s)

length-before_comment :
    (quote : Option ℕ) (escaped at_start : Bool) (s : Text)
    → length (before_comment quote escaped at_start s) ≤ length s
unfolding before_comment
length-before_comment quote escaped at_start [] = omega arith
length-before_comment quote escaped at_start (c ∷ s) =
    go (starts_comment quote escaped at_start c) _ (
      length-before_comment (next_quote quote escaped c).0 (next_quote quote escaped c).1
        (is_space c) s)
  where
    go :
        (b : Bool) (r : Text)
        → length r ≤ length s
        → length (if b then [] else c ∷ r) ≤ suc (length s)
    go true r h = omega arith
    go false r h = omega arith

length-strip_comment : (s : Text) → length (strip (strip_comment s)) ≤ length s
unfolding strip_comment
length-strip_comment s = omega (
  arith,
  length-strip (rstrip (before_comment none false true s)),
  length-rstrip (before_comment none false true s),
  length-before_comment none false true s,
)

length-without_last : (s : Text) → length (without_last s) ≤ length s
unfolding without_last
length-without_last [] = omega arith
length-without_last (c ∷ []) = omega arith
length-without_last (c ∷ d ∷ s) = omega (arith, length-without_last (d ∷ s))

-- What stands in brackets is shorter.
length-inner : (s : Text) → is_empty s ≡ false → length (inner s) < length s
unfolding inner is_empty
length-inner [] h = cc
length-inner (c ∷ s) h = omega (arith, length-strip (without_last s), length-without_last s)

length-split : (c : ℕ) (s : Text) → All (λ part. length part ≤ length s) (split c s)
unfolding split
length-split c [] = (omega arith, tt)
length-split c (x ∷ s) = go (x == c) (split c s) (length-split c s)
  where
    longer :
        (ps : List Text)
        → All (λ part. length part ≤ length s) ps
        → All (λ part. length part ≤ suc (length s)) ps
    longer ps h =
        All-imp (λ (p : Text). length p ≤ length s) (λ p. length p ≤ suc (length s))
          (λ p k. omega (arith, k)) ps h

    go :
        (b : Bool) (r : List Text)
        → All (λ part. length part ≤ length s) r
        → All
            (λ part. length part ≤ suc (length s))
            (elim b [
              | true ↦ [] ∷ r
              | false ↦ elim r [ [] ↦ (x ∷ []) ∷ [] | p ∷ ps ↦ (x ∷ p) ∷ ps ]
            ])
    go true r h = (omega arith, longer r h)
    go false [] h = (omega arith, tt)
    go false (p ∷ ps) h = (omega (arith, h.0), longer ps h.1)

module _ (literal : Text → Outcome YamlError Value)
    (known : (t : Text) → Ends IsDistinct (literal t)) where
  read_each-Ends :
      (read : Text → Outcome YamlError Value) (parts : List Text)
      → All (λ part. Ends IsDistinct (read part)) parts
      → Ends AllDistinct (read_each read parts)
  unfolding read_each IsDistinct
  read_each-Ends read [] h = tt
  read_each-Ends read (part ∷ parts) h =
      Ends-bind IsDistinct AllDistinct (read part) _ h.0 (λ value d.
        Ends-bind AllDistinct AllDistinct (read_each read parts) _ (read_each-Ends read parts h.1)
          (λ values ds. (d, ds)))

  word-IsDistinct : (value : Text) → IsDistinct (word value)
  unfolding word IsDistinct
  word-IsDistinct value = ground arith

  read_scalar-Ends :
      (fuel : ℕ) (read : Text → Outcome YamlError Value) (value : Text)
      → ((t : Text) → length t < fuel → Ends IsDistinct (read t))
      → length value ≤ fuel
      → Ends IsDistinct (read_scalar literal read value)
  unfolding read_scalar IsDistinct
  read_scalar-Ends fuel read value h k =
      go (is_empty value) refl (is_quoted value) (is_bracketed value) (is_empty (inner value))
    where
      parts_end :
          is_empty value ≡ false
          → All (λ part. Ends IsDistinct (read part)) (split b',' (inner value))
      parts_end e =
          All-imp (λ (p : Text). length p ≤ length (inner value)) (λ p. Ends IsDistinct (read p))
            (λ p q. h p (omega (arith, q, k, length-inner value e))) (split b',' (inner value))
            (length-split b',' (inner value))

      go :
          (a : Bool)
          → is_empty value ≡ a
          → (b c d : Bool)
          → Ends IsDistinct (
              if a
              then ok null
              else if b
              then literal value
              else if c
              then (if d
                  then ok (items nil)
                  else (read_each read (split b',' (inner value)) >>= λ values. ok (items values)))
              else ok (word value))
      go true e b c d = tt
      go false e true c d = known value
      go false e false true true = tt
      go false e false true false =
          Ends-bind AllDistinct IsDistinct (read_each read (split b',' (inner value))) _
            (read_each-Ends read (split b',' (inner value)) (parts_end e)) (λ values ds. ds)
      go false e false false d = word-IsDistinct value

  scalar_within-Ends :
      (fuel : ℕ) (value : Text)
      → length value < fuel
      → Ends IsDistinct (scalar_within literal fuel value)
  unfolding scalar_within
  scalar_within-Ends zero value h = absurd (omega arith)
  scalar_within-Ends (suc fuel) value h =
      read_scalar-Ends fuel (scalar_within literal fuel) (strip (strip_comment value))
        (λ t k. scalar_within-Ends fuel t k) (omega (arith, length-strip_comment value))

  -- `parse_scalar` has fuel enough for every text, if the reader of quoted text has.
  pub parse_scalar-Ends : (value : Text) → Ends IsDistinct (parse_scalar literal value)
  unfolding parse_scalar
  parse_scalar-Ends value = scalar_within-Ends (suc (length value)) value (omega arith)

  as_key-Ends : (v : Value) → Ends Any (as_key v)
  unfolding as_key
  as_key-Ends (text (c ∷ s)) = tt
  as_key-Ends (text []) = tt
  as_key-Ends null = tt
  as_key-Ends (boolean b) = tt
  as_key-Ends (items xs) = tt
  as_key-Ends (mapping fs) = tt
  as_key-Ends (tuple xs) = tt
  as_key-Ends (other_literal hashable n) = tt

  pub split_mapping-Ends : (t : Text) → Ends Any (split_mapping literal t)
  unfolding split_mapping
  split_mapping-Ends t = go (cut b':' t).1
    where
      go :
          (o : Option Text)
          → Ends {A = Text × Text} Any (elim o [
            | none ↦ raise missing_colon
            | some value ↦ do
              parsed ← parse_scalar literal (strip (cut b':' t).0)
              key ← as_key parsed
              ok (key, strip value)
          ])
      go none = tt
      go (some value) =
          Ends-bind IsDistinct Any (parse_scalar literal (strip (cut b':' t).0)) _
            (parse_scalar-Ends (strip (cut b':' t).0))
            (λ parsed _. Ends-bind Any Any (as_key parsed) _ (as_key-Ends parsed) (λ key _. tt))

pub indentation-Ends : (line : Text) → Ends Any (indentation line)
unfolding indentation
indentation-Ends line = go _ _
  where
    go : (b : Bool) (n : ℕ) → Ends {A = ℕ} Any (if b then raise tabs else ok n)
    go true n = tt
    go false n = tt
