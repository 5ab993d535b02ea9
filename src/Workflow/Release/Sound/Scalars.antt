-- ===== src/Workflow/Release/Sound/Scalars.antt =====
-- The scan of the scalars against what it allows.
use rpmz.Base.{
  or-true, In, here, there, In-cons, not-In-nil, In-append_left, In-append_right, subst, sym, ◌++◌,
  ◌≡◌, refl, ◌↔◌, ◌⊎◌, inl, inr, Bool, true, false, not, ◌&&◌, Option, none, some, List, [], ◌∷◌,
  if◌then◌else◌, All, Text, codes, text_eq, text_eq_iff, contains, lower, mem, ok,
}
use rpmz.Workflow.Values.{
  Value, text, items, mapping, Items, nil, cons, Fields, end, field, lookup, has_key,
}
use rpmz.Workflow.Steps.{
  Problem, changed, forbidden_token, signing_capability, signing_commands, to_list, walk_scalars,
  walk_items, walk_fields,
}
use rpmz.Workflow.Steps.Sound.{ok-nothing}
use rpmz.Workflow.Release.{audit_jobs, audit_release_workflow}
use rpmz.Workflow.Release.Sound.{audit_release_workflow-sections}
use rpmz.Workflow.Release.Scan.{
  audit_scalars, audit_scalar, find_token, common, forbidden, signing_words, words_from,
}

-- What a scalar may be: it has no forbidden token and no signing command, and it speaks of secrets only as
-- the one text.
unfoldable pub IsAllowed : Text → Type 0
IsAllowed scalar =
    All (λ token. contains (lower scalar) token ≡ false) forbidden
    × All (λ command. mem command (words_from [] (lower scalar)) ≡ false) signing_commands
    × ((contains (lower scalar) (codes "secrets.") ≡ false)
        ⊎ (scalar ≡ codes "${{ secrets.GITHUB_TOKEN }}"))

find_token_iff :
    (tokens : List Text) (t : Text)
    → (find_token tokens t ≡ none) ↔ All (λ token. contains t token ≡ false) tokens
unfolding find_token
find_token_iff [] t = (λ _. tt, λ _. refl)
find_token_iff (token ∷ tokens) t = go (contains t token) (find_token_iff tokens t)
  where
    go :
        (b : Bool)
        → ((find_token tokens t ≡ none) ↔ All (λ token. contains t token ≡ false) tokens)
        → ((if b then some token else find_token tokens t) ≡ none)
          ↔ ((b ≡ false) × All (λ token. contains t token ≡ false) tokens)
    go true rec = (λ h. cc, λ h. cc)
    go false rec = (λ h. (refl, rec.0 h), λ h. rec.1 h.1)

common_iff : (cs words : List Text) → (common cs words ≡ []) ↔ All (λ c. mem c words ≡ false) cs
unfolding common
common_iff [] words = (λ _. tt, λ _. refl)
common_iff (c ∷ cs) words = go (mem c words) (common_iff cs words)
  where
    go :
        (b : Bool)
        → ((common cs words ≡ []) ↔ All (λ c. mem c words ≡ false) cs)
        → ((if b then c ∷ common cs words else common cs words) ≡ [])
          ↔ ((b ≡ false) × All (λ c. mem c words ≡ false) cs)
    go true rec = (λ h. cc, λ h. cc)
    go false rec = (λ h. (refl, rec.0 h), λ h. rec.1 h.1)

-- There is no message about a scalar exactly if it is allowed.
pub audit_scalar_iff : (scalar : Text) → (audit_scalar scalar ≡ none) ↔ IsAllowed scalar
unfolding audit_scalar signing_words IsAllowed
audit_scalar_iff scalar =
    go (find_token forbidden (lower scalar))
      (common signing_commands (words_from [] (lower scalar)))
      (contains (lower scalar) (codes "secrets."))
      (text_eq scalar (codes "${{ secrets.GITHUB_TOKEN }}"))
      (find_token_iff forbidden (lower scalar))
      (common_iff signing_commands (words_from [] (lower scalar)))
      (text_eq_iff scalar (codes "${{ secrets.GITHUB_TOKEN }}"))
  where
    go :
        {P Q R : Type 0} (o : Option Text) (ws : List Text) (a b : Bool)
        → ((o ≡ none) ↔ P)
        → ((ws ≡ []) ↔ Q)
        → ((b ≡ true) ↔ R)
        → ((elim o [
          | some token ↦ some (forbidden_token token)
          | none ↦ elim ws [
            | c ∷ cs ↦ some (signing_capability (c ∷ cs))
            | [] ↦
                if a && not b
                then some (changed "release workflow contains an unapproved secret")
                else none
          ]
        ])
            ≡ none)
          ↔ (P × Q × ((a ≡ false) ⊎ R))
    go (some t) ws a b f g h = (λ e. cc, λ k. cc (f.1 k.0))
    go none (w ∷ ws) a b f g h = (λ e. cc, λ k. cc (g.1 k.1))
    go none [] false b f g h = (λ e. (f.0 refl, g.0 refl, inl refl), λ k. refl)
    go none [] true true f g h = (λ e. (f.0 refl, g.0 refl, inr (h.0 refl)), λ k. refl)
    go none [] true false f g h = (λ e. cc, λ k. elim k.2 [ inl e ↦ cc | inr r ↦ cc (h.1 r) ])

-- The scan of a document is silent exactly if each of its scalars is allowed.
pub audit_scalars_iff : (scalars : List Text) → (audit_scalars scalars ≡ []) ↔ All IsAllowed scalars
unfolding audit_scalars
audit_scalars_iff [] = (λ _. tt, λ _. refl)
audit_scalars_iff (scalar ∷ scalars) =
    go (audit_scalar scalar) (audit_scalar_iff scalar) (audit_scalars_iff scalars)
  where
    go :
        (o : Option Problem)
        → ((o ≡ none) ↔ IsAllowed scalar)
        → ((audit_scalars scalars ≡ []) ↔ All IsAllowed scalars)
        → ((elim o [ some problem ↦ problem ∷ [] | none ↦ audit_scalars scalars ]) ≡ [])
          ↔ (IsAllowed scalar × All IsAllowed scalars)
    go (some p) f rec = (λ e. cc, λ k. cc (f.1 k.0))
    go none f rec = (λ e. (f.0 refl, rec.0 e), λ k. rec.1 k.1)

-- The texts that a value holds: itself, the keys of a dict, and those that the values of a dict and the
-- elements of a list hold. A tuple, which is one scalar of the file, holds none.
pub data Holds (t : Text) : Value → Type 0 where
  itself : Holds t (text t)
  key : {fs : Fields} → has_key t fs ≡ true → Holds t (mapping fs)
  in_value :
      {fs : Fields} {v : Value} (k : Text) → lookup k fs ≡ some v → Holds t v → Holds t (mapping fs)
  in_element : {vs : Items} {v : Value} → In v (to_list vs) → Holds t v → Holds t (items vs)

has_key-In : (t : Text) (fs : Fields) → has_key t fs ≡ true → In t (walk_fields fs)
unfolding has_key walk_fields
has_key-In t end h = cc
has_key-In t (field k v fs) h = elim (or-true (text_eq t k) (has_key t fs) h) [
  | inl e ↦ here ((text_eq_iff t k).0 e)
  | inr n ↦ there (In-append_right (walk_scalars v) (has_key-In t fs n))
]

lookup-In :
    (t k : Text) (v : Value) (fs : Fields)
    → lookup k fs ≡ some v
    → In t (walk_scalars v)
    → In t (walk_fields fs)
unfolding lookup walk_fields
lookup-In t k v end h m = cc
lookup-In t k v (field j w fs) h m = go (text_eq k j) h (λ e. lookup-In t k v fs e m)
  where
    go :
        (b : Bool)
        → (if b then some w else lookup k fs) ≡ some v
        → (lookup k fs ≡ some v → In t (walk_fields fs))
        → In t (j ∷ walk_scalars w ++ walk_fields fs)
    go true e rec =
        there (In-append_left (walk_fields fs) (subst (λ x. In t (walk_scalars x)) (same e) m))
      where
        same : ◌≡◌ {A = Option Value} (some w) (some v) → v ≡ w
        same q = cc
    go false e rec = there (In-append_right (walk_scalars w) (rec e))

element-In :
    (t : Text) (v : Value) (vs : Items)
    → In v (to_list vs)
    → In t (walk_scalars v)
    → In t (walk_items vs)
unfolding walk_items
element-In t v nil i m = absurd (not-In-nil i)
element-In t v (cons w vs) i m = elim (In-cons i) [
  | inl e ↦ In-append_left (walk_items vs) (subst (λ x. In t (walk_scalars x)) e m)
  | inr n ↦ In-append_right (walk_scalars w) (element-In t v vs n m)
]

-- Each of them is walked over.
Holds-In : (t : Text) (v : Value) → Holds t v → In t (walk_scalars v)
unfolding walk_scalars
Holds-In t v itself = here refl
Holds-In t v (key {fs = fs} h) = has_key-In t fs h
Holds-In t v (in_value {fs = fs} {v = w} k h m) = lookup-In t k w fs h (Holds-In t w m)
Holds-In t v (in_element {vs = vs} {v = w} i m) = element-In t w vs i (Holds-In t w m)

walked-IsAllowed :
    (document : Fields)
    → audit_release_workflow document ≡ ok []
    → All IsAllowed (walk_fields document)
unfolding audit_jobs
walked-IsAllowed document silent =
    let (jobs, e, parts) = audit_release_workflow-sections document silent in
    (audit_scalars_iff (walk_fields document)).0
      (ok-nothing (audit_scalars (walk_fields document)) parts.1.1.1.1.1.1.1.1.1.1.1.1.1.1.0)

All-In {ℓ} : {A : Type ℓ} (P : A → Type 0) (xs : List A) (x : A) → All P xs → In x xs → P x
All-In P [] x all i = absurd (not-In-nil i)
All-In P (y ∷ xs) x all i = elim (In-cons i) [
  | inl e ↦ subst P (sym e) all.0
  | inr n ↦ All-In P xs x all.1 n
]

-- In a release workflow without messages each key of a dict and each text that the document holds in its
-- dicts and lists is allowed: it has no forbidden token, no signing command among its words, and it speaks of
-- secrets only as the token of GitHub. Nothing is said of the texts in a tuple, which a scalar of the form
-- `'a', 'b'` is read as: the scan does not see them.
pub audit_release_workflow-scalars :
    (document : Fields) (t : Text)
    → audit_release_workflow document ≡ ok []
    → Holds t (mapping document)
    → IsAllowed t
audit_release_workflow-scalars document t silent held =
    All-In IsAllowed (walk_fields document) t (walked-IsAllowed document silent)
      (unfold walk_scalars in Holds-In t (mapping document) held)
