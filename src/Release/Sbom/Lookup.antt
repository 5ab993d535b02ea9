-- ===== src/Release/Sbom/Lookup.antt =====
-- The table of checksums: keys and lookup.
use rpmz.Base.{
  ◌≡◌, refl, ap, subst, inl, inr, true, Option, some, List, [], ◌∷◌, Bool-cases, In, here, there,
  In-cons, not-In-nil, Text, text_eq, text_eq_iff, mem, mem_self, mem-cons,
}
use rpmz.Release.Sbom.{Table, keys, lookup, first_of}

pub lookup-In :
    (name : Text) (table : Table) (v : Option Text)
    → lookup name table ≡ some v
    → In (name, v) table
unfolding lookup
lookup-In name [] v h = cc
lookup-In name ((n, w) ∷ table) v h = elim (Bool-cases (text_eq name n)) [
  | inl e ↦ here (same ((text_eq_iff name n).0 e) (rw e at h))
  | inr e ↦ there (lookup-In name table v (rw e at h))
]
  where
    same :
        name ≡ n
        → ◌≡◌ {A = Option (Option Text)} (some w) (some v)
        → ◌≡◌ {A = Text × Option Text} (name, v) (n, w)
    same p q = cc

pub lookup_of_mem :
    (name : Text) (table : Table)
    → mem name (keys table) ≡ true
    → (v : Option Text) × (lookup name table ≡ some v)
unfolding lookup keys mem
lookup_of_mem name [] h = cc
lookup_of_mem name ((n, w) ∷ table) h = elim (Bool-cases (text_eq name n)) [
  | inl e ↦ (w, rw e refl)
  | inr e ↦ let (v, p) = lookup_of_mem name table (rw e at h) in (v, rw e p)
]

pub mem-keys :
    (name : Text) (v : Option Text) (table : Table)
    → In (name, v) table
    → mem name (keys table) ≡ true
unfolding keys
mem-keys name v [] m = absurd (not-In-nil m)
mem-keys name v ((n, w) ∷ table) m = elim (In-cons m) [
  | inl e ↦
      subst (λ k. mem name (k ∷ keys table) ≡ true) (ap (λ (p : Text × Option Text). p.0) e)
        (mem_self name (keys table))
  | inr r ↦ mem-cons name n (keys table) (mem-keys name v table r)
]

pub keys-In :
    (name : Text) (table : Table)
    → mem name (keys table) ≡ true
    → (v : Option Text) × In (name, v) table
keys-In name table h = let (v, e) = lookup_of_mem name table h in (v, lookup-In name table v e)

pub mem-first_of :
    (name digest : Text) (fs : List (Text × Text))
    → In (name, digest) fs
    → mem name (first_of fs) ≡ true
unfolding first_of
mem-first_of name digest [] m = absurd (not-In-nil m)
mem-first_of name digest ((n, d) ∷ fs) m = elim (In-cons m) [
  | inl e ↦
      subst (λ k. mem name (k ∷ first_of fs) ≡ true) (ap (λ (p : Text × Text). p.0) e)
        (mem_self name (first_of fs))
  | inr r ↦ mem-cons name n (first_of fs) (mem-first_of name digest fs r)
]

pub first_of-In :
    (name : Text) (fs : List (Text × Text))
    → mem name (first_of fs) ≡ true
    → (digest : Text) × In (name, digest) fs
unfolding first_of mem
first_of-In name [] h = cc
first_of-In name ((n, d) ∷ fs) h = elim (Bool-cases (text_eq name n)) [
  | inl e ↦ (d, here (ap (λ k. (k, d)) ((text_eq_iff name n).0 e)))
  | inr e ↦ let (x, m) = first_of-In name fs (rw e at h) in (x, there m)
]
