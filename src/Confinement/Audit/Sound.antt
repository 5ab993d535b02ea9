-- ===== src/Confinement/Audit/Sound.antt =====
-- What a source that passes the audit cannot contain.
use rpmz.Base.{
  ℕ, zero, suc, ◌-◌, ◌≤◌, ◌≡◌, refl, sym, ap, subst, ◌≢◌, inl, inr, Bool, true, false, not, ◌&&◌,
  List, [], ◌∷◌, ◌++◌, map, arith, Bool-cases, and-true, not-true, length, every, In, here, there,
  Text, codes, mem, set_eq, set_eq_iff, ok, >>=-eq-ok, guard-eq-ok, for_each, then-eq-ok, >>-eq-ok,
  for_each-In, is_word, starts_name, take_while, find_all,
}
use rpmz.Confinement.Lexer.{lex_zig}
use rpmz.Confinement.Imports.{AuditError, Call, import_calls, expand_std_imports}
use rpmz.Confinement.Policy.{
  allowed_imports, forbidden_reflection_builtins, forbidden_process_member_tokens,
}
use rpmz.Confinement.Patterns.{match_identifier}
use rpmz.Confinement.Audit.{
  identifier_tokens, has_builtin, has_member, check_token, check_member, check_builtin,
  struct_fields, reject_foreign_socket_apis, reject_token_policy, audit_lexical, audit_source,
}

-- A name: a letter or underscore, and word characters.
abbrev pub IsName : Text → Type 0
IsName [] = ⊥
IsName (c ∷ s) = (starts_name c ≡ true) × (every is_word s ≡ true)

-- The text begins with no word character, or is empty.
abbrev pub StopsWord : Text → Type 0
StopsWord [] = Unit
StopsWord (c ∷ s) = is_word c ≡ false

starts_name-word : (c : ℕ) → starts_name c ≡ true → is_word c ≡ true
unfolding starts_name is_word
starts_name-word c h = ground arith

take_while-word :
    (w behind : Text)
    → every is_word w ≡ true
    → StopsWord behind
    → take_while is_word (w ++ behind) ≡ w
unfolding take_while
take_while-word [] [] h k = refl
take_while-word [] (c ∷ s) h k = rw (k, take_while)
take_while-word (c ∷ w) behind h k =
    let (a, b) = and-true (is_word c) (every is_word w) h in
    rw (a, take_while) (ap (◌∷◌ c) (take_while-word w behind b k))

-- A text that ends with no word character.
abbrev pub EndsClear : Text → Type 0
EndsClear [] = Unit
EndsClear (c ∷ []) = is_word c ≡ false
EndsClear (c ∷ d ∷ s) = EndsClear (d ∷ s)

abbrev names_from : ℕ → Bool → Text → List Text
names_from = find_all match_identifier

-- Over one character: a match begins here, or the pass goes on.
pass_one :
    (c : ℕ) (s : Text) (skip : ℕ) (after_word : Bool) (x : Text)
    → skip ≤ length (take_while is_word (c ∷ s))
    → ((n : ℕ)
        → n ≤ length (take_while is_word s)
        → (is_word c ≡ false → n ≡ 0)
        → In x (names_from n (is_word c) s))
    → In x (names_from skip after_word (c ∷ s))
unfolding find_all match_identifier take_while
pass_one c s (suc skip) aw x k next = elim (Bool-cases (is_word c)) [
  | inl e ↦ next skip (omega (arith, rw (e, take_while) at k)) (λ f. cc)
  | inr e ↦ absurd (omega (arith, rw (e, take_while) at k))
]
pass_one c s zero aw x k next = elim (Bool-cases (not aw && starts_name c)) [
  | inl e ↦
      let w = starts_name-word c (and-true (not aw) (starts_name c) e).1 in
      let size : length (take_while is_word (c ∷ s)) - 1 ≡ length (take_while is_word s) =
        rw (w, take_while) (omega arith) in
      rw (e, find_all)
        (there (rw size (next (length (take_while is_word s)) (omega arith) (λ f. cc))))
  | inr e ↦ rw (e, find_all) (next 0 (omega arith) (λ _. refl))
]

-- The characters to pass over stay within a run of word characters, so none are left behind one
-- that is no word character.
pass_before :
    (before rest : Text) (skip : ℕ) (after_word : Bool) (x : Text)
    → EndsClear before
    → skip ≤ length (take_while is_word (before ++ rest))
    → before ≢ []
    → In x (names_from 0 false rest)
    → In x (names_from skip after_word (before ++ rest))
pass_before [] rest skip aw x h k ne m = absurd (ne refl)
pass_before (c ∷ []) rest skip aw x h k ne m = pass_one c rest skip aw x k (λ n a b. rw (h, b h) m)
pass_before (c ∷ d ∷ s) rest skip aw x h k ne m =
    pass_one c (d ∷ (s ++ rest)) skip aw x k
      (λ n a b. pass_before (d ∷ s) rest n (is_word c) x h a (λ e. cc) m)

-- A name that stands alone is found.
names_from-IsName :
    (w behind : Text) → IsName w → StopsWord behind → In w (names_from 0 false (w ++ behind))
unfolding find_all match_identifier
names_from-IsName [] behind h k = absurd h
names_from-IsName (c ∷ w) behind h k =
    let whole = take_while-word (c ∷ w) behind (rw (starts_name-word c h.0) h.1) k in
    rw (h.0, find_all) (here (sym whole))

-- `identifier_tokens` finds every name that stands alone in the text, wherever it stands.
pub identifier_tokens-IsName :
    (before w behind : Text)
    → EndsClear before
    → IsName w
    → StopsWord behind
    → In w (identifier_tokens (before ++ (w ++ behind)))
unfolding identifier_tokens
identifier_tokens-IsName [] w behind h n k = names_from-IsName w behind n k
identifier_tokens-IsName (c ∷ s) w behind h n k =
    pass_before (c ∷ s) (w ++ behind) 0 false w h (omega arith) (λ e. cc)
      (names_from-IsName w behind n k)

-- What holds of the code of a source that passes: only the imports that are allowed, no name that
-- the token policy forbids, no member of the process API and no reflection or foreign builtin.
pub record IsConfined (calls : List Call) (lexical : Text) : Type 0 where
  pub imports : (x : Text) → mem x (map (λ (c : Call). c.value) calls) ≡ mem x allowed_imports
  pub names :
      (before w behind : Text)
      → lexical ≡ before ++ (w ++ behind)
      → EndsClear before
      → IsName w
      → StopsWord behind
      → check_token w ≡ ok tt
  pub members : (m : Text) → In m forbidden_process_member_tokens → has_member lexical m ≡ false
  pub builtins : (b : Text) → In b forbidden_reflection_builtins → has_builtin lexical b ≡ false
  pub c_import : has_builtin lexical (codes "cImport") ≡ false
  pub extern_builtin : has_builtin lexical (codes "extern") ≡ false

check_token-names :
    (lexical : Text)
    → for_each check_token (identifier_tokens lexical) ≡ ok tt
    → (before w behind : Text) → lexical ≡ before ++ (w ++ behind)
    → EndsClear before
    → IsName w
    → StopsWord behind
    → check_token w ≡ ok tt
check_token-names lexical h before w behind e a b c =
    for_each-In check_token (identifier_tokens lexical) w h (
      subst (λ t. In w (identifier_tokens t)) (sym e)
        (identifier_tokens-IsName before w behind a b c))

check_member-has_member :
    (lexical m : Text) → check_member lexical m ≡ ok tt → has_member lexical m ≡ false
unfolding check_member
check_member-has_member lexical m h = not-true _ (guard-eq-ok _ (AuditError.process_member m) h)

check_builtin-has_builtin :
    (lexical b : Text) → check_builtin lexical b ≡ ok tt → has_builtin lexical b ≡ false
unfolding check_builtin
check_builtin-has_builtin lexical b h =
    not-true _ (guard-eq-ok _ (AuditError.reflection_builtin b) h)

reject_foreign-builtins :
    (lexical : Text)
    → reject_foreign_socket_apis lexical ≡ ok tt
    → (has_builtin lexical (codes "cImport") ≡ false)
      × (has_builtin lexical (codes "extern") ≡ false)
unfolding reject_foreign_socket_apis
reject_foreign-builtins lexical h =
    let (a, h1) =
      then-eq-ok (not (has_builtin lexical (codes "cImport"))) AuditError.c_import _ h in
    let (b, h2) =
      then-eq-ok (not (has_builtin lexical (codes "extern"))) AuditError.extern_builtin _ h1 in
    (not-true _ a, not-true _ b)

-- The three loops and the last check, behind the checks of the two structs and the members.
audit_lexical-parts :
    (lexical : Text)
    → audit_lexical lexical ≡ ok tt
    → (for_each (check_builtin lexical) forbidden_reflection_builtins ≡ ok tt)
      × (for_each check_token (identifier_tokens lexical) ≡ ok tt)
      × (for_each (check_member lexical) forbidden_process_member_tokens ≡ ok tt)
      × (reject_foreign_socket_apis lexical ≡ ok tt)
unfolding audit_lexical reject_token_policy
audit_lexical-parts lexical h =
    let (input, p, h1) = >>=-eq-ok (struct_fields lexical (codes "Input")) _ h in
    let (a, h2) = then-eq-ok _ (AuditError.ambient_input (codes "Input")) _ h1 in
    let (target, q, h3) = >>=-eq-ok (struct_fields lexical (codes "Target")) _ h2 in
    let (b, h4) = then-eq-ok _ (AuditError.ambient_input (codes "Target")) _ h3 in
    let (c, h5) = then-eq-ok _ AuditError.verified_fetch_usage _ h4 in
    let (d, h6) = then-eq-ok _ AuditError.repomd_usage _ h5 in
    let (e, h7) = >>-eq-ok (for_each (check_builtin lexical) forbidden_reflection_builtins) _ h6 in
    let (f, h8) = >>-eq-ok (reject_token_policy lexical) _ h7 in
    let (g, k) = >>-eq-ok (for_each check_token (identifier_tokens lexical)) _ f in (e, g, k, h8)

-- A source that passes the audit has `@import` calls whose values are exactly the modules allowed,
-- and with the `std` imports expanded its code has no standalone name that the token policy
-- forbids, at any place, no member of the process API, and no builtin for reflection, C or extern.
pub audit_source-IsConfined :
    (source : Text)
    → audit_source source ≡ ok tt
    → (calls : List Call) × (import_calls (lex_zig source) ≡ ok calls)
      × IsConfined calls (expand_std_imports (lex_zig source).code calls)
unfolding audit_source
audit_source-IsConfined source h =
    let (calls, p, h1) = >>=-eq-ok (import_calls (lex_zig source)) _ h in
    let (a, h2) =
      then-eq-ok (set_eq (map (λ (c : Call). c.value) calls) allowed_imports)
        AuditError.import_boundary _ h1 in
    let lexical = expand_std_imports (lex_zig source).code calls in
    let (b, c, d, e) = audit_lexical-parts lexical h2 in
    let (f, g) = reject_foreign-builtins lexical e in
    (
      calls,
      p,
      record {
        imports = (set_eq_iff _ _).0 a;
        names = check_token-names lexical c;
        members = λ m i. check_member-has_member lexical m (for_each-In _ _ m d i);
        builtins = λ x i. check_builtin-has_builtin lexical x (for_each-In _ _ x b i);
        c_import = f;
        extern_builtin = g;
      },
    )
