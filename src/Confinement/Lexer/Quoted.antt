-- ===== src/Confinement/Lexer/Quoted.antt =====
-- How far `read_quoted` of scripts/replay-confinement-audit.py reads in a string literal.
use rpmz.Base.{
  ℕ, zero, suc, ◌+◌, ◌≡◌, ◌≢◌, refl, sym, ap, subst, ◌⊎◌, inl, inr, Bool, true, false, not, ◌&&◌,
  Option, none, some, [], ◌∷◌, ◌++◌, arith, leb, ltb, ◌==◌, if◌then◌else◌, ==_iff, and-true, length,
  take, drop, every, All, Text, is_hex, drop_while, take_while,
}
use rpmz.Confinement.Lexer.{
  in_braces, hex_number, escapes, hex_escape, brace_escape, unicode_escape, decode_escape,
  read_quoted,
}

-- What may stand between the quotes of a string: characters other than quotes and backslashes, and
-- backslashes, each with the character behind it, whatever it is.
pub data IsBody : Text → Type 0 where
  done : IsBody []
  plain : {c : ℕ} {s : Text} → c ≢ b'"' → c ≢ b'\\' → IsBody s → IsBody (c ∷ s)
  escaped : (c : ℕ) {s : Text} → IsBody s → IsBody (b'\\' ∷ c ∷ s)

-- A text that ends, before what is behind it, with the first quote that no backslash stands for; without such
-- a quote it is the rest of the source, in which the last character may be a backslash.
abbrev pub IsClosed : Text → Text → Type 0
IsClosed read behind =
    (body : Text) × IsBody body
    × ((read ≡ body ++ (b'"' ∷ []))
        ⊎ ((behind ≡ []) × ((read ≡ body) ⊎ (read ≡ body ++ (b'\\' ∷ [])))))

abbrev pub IsPlain : ℕ → Type 0
IsPlain c = (c ≢ b'"') × (c ≢ b'\\')

is_hex-IsPlain : (c : ℕ) → is_hex c ≡ true → IsPlain c
unfolding is_hex
is_hex-IsPlain c h = (ground arith, ground arith)

-- An escape has the character behind the backslash; further ones are neither quotes nor backslashes.
abbrev Passes : Text → Option (Text × ℕ) → Type 0
Passes s o = (r : Text × ℕ) → o ≡ some r → (k : ℕ) × (r.1 ≡ suc k) × All IsPlain (take k s)

braces_lem :
    (s : Text)
    → every is_hex (take_while in_braces s) ≡ true
    → drop_while in_braces s ≢ []
    → All IsPlain (take (suc (length (take_while in_braces s))) s)
unfolding take_while drop_while
braces_lem [] h k = tt
braces_lem (c ∷ s) h k = go (c == b'}') refl h k (braces_lem s)
  where
    go :
        (b : Bool)
        → (c == b'}') ≡ b
        → every is_hex (if not b then c ∷ take_while in_braces s else []) ≡ true
        → (if not b then drop_while in_braces s else c ∷ s) ≢ []
        → (every is_hex (take_while in_braces s) ≡ true
            → drop_while in_braces s ≢ []
            → All IsPlain (take (suc (length (take_while in_braces s))) s))
        → All IsPlain
            (take (suc (length (if not b then c ∷ take_while in_braces s else []))) (c ∷ s))
    go true e h k rec = ((ground arith, ground arith), tt)
    go false e h k rec =
        let both = and-true (is_hex c) (every is_hex (take_while in_braces s)) h in
        (is_hex-IsPlain c both.0, rec both.1 k)

hex_escape-Passes : (s : Text) → Passes s (hex_escape s)
unfolding hex_escape
hex_escape-Passes [] r h = cc
hex_escape-Passes (a ∷ []) r h = cc
hex_escape-Passes (a ∷ b ∷ s) r h = go (is_hex a) (is_hex b) refl refl h
  where
    go :
        (x y : Bool)
        → is_hex a ≡ x
        → is_hex b ≡ y
        → ◌≡◌ {A = Option (Text × ℕ)}
            (if x && y then some (hex_number 0 (a ∷ b ∷ []) ∷ [], 3) else none)
            (some r)
        → (k : ℕ) × (r.1 ≡ suc k) × All IsPlain (take k (a ∷ b ∷ s))
    go true true e f h = (2, size h, (is_hex-IsPlain a e, (is_hex-IsPlain b f, tt)))
      where
        size :
            ◌≡◌ {A = Option (Text × ℕ)} (some (hex_number 0 (a ∷ b ∷ []) ∷ [], 3)) (some r)
            → r.1 ≡ 3
        size q = cc
    go true false e f h = cc
    go false y e f h = cc

brace_escape-Passes : (s : Text) → Passes (b'{' ∷ s) (brace_escape s)
unfolding brace_escape
brace_escape-Passes s r h =
    go (drop_while in_braces s) refl (ltb 0 (length (take_while in_braces s)))
      (every is_hex (take_while in_braces s)) (leb (hex_number 0 (take_while in_braces s)) 0x10FFFF)
      refl h
  where
    go :
        (rest : Text)
        → drop_while in_braces s ≡ rest
        → (a b c : Bool) → every is_hex (take_while in_braces s) ≡ b
        → ◌≡◌ {A = Option (Text × ℕ)}
            (elim rest [
              | [] ↦ none
              | _ ∷ _ ↦
                  if a && (b && c)
                  then some (
                    hex_number 0 (take_while in_braces s) ∷ [],
                    length (take_while in_braces s) + 3,
                  )
                  else none
            ])
            (some r)
        → (k : ℕ) × (r.1 ≡ suc k) × All IsPlain (take k (b'{' ∷ s))
    go [] e a b c f q = cc
    go (d ∷ rest) e true true true f q = (
      suc (suc (length (take_while in_braces s))),
      size q,
      ((ground arith, ground arith), braces_lem s f (λ n. cc (n, e))),
    )
      where
        size :
            ◌≡◌ {A = Option (Text × ℕ)}
              (some
                (hex_number 0 (take_while in_braces s) ∷ [], length (take_while in_braces s) + 3))
              (some r)
            → r.1 ≡ suc (suc (suc (length (take_while in_braces s))))
        size q = let e : r.1 ≡ length (take_while in_braces s) + 3 = cc q in omega (arith, e)
    go (d ∷ rest) e true true false f q = cc
    go (d ∷ rest) e true false c f q = cc
    go (d ∷ rest) e false b c f q = cc

unicode_escape-Passes : (s : Text) → Passes s (unicode_escape s)
unfolding unicode_escape
unicode_escape-Passes [] r h = cc
unicode_escape-Passes (c ∷ s) r h = go (c == b'{') ((==_iff c b'{').0) h
  where
    go :
        (b : Bool)
        → (b ≡ true → c ≡ b'{')
        → ◌≡◌ {A = Option (Text × ℕ)} (if b then brace_escape s else none) (some r)
        → (k : ℕ) × (r.1 ≡ suc k) × All IsPlain (take k (c ∷ s))
    go true same e =
        let (k, p, all) = brace_escape-Passes s r e in
        (k, p, subst (λ d. All IsPlain (take k (d ∷ s))) (sym (same refl)) all)
    go false same e = cc

decode_escape-Passes :
    (c : ℕ) (s : Text) → (k : ℕ) × ((decode_escape (c ∷ s)).1 ≡ suc k) × All IsPlain (take k s)
unfolding decode_escape
decode_escape-Passes c s =
    go (escapes c)
      (if c == b'x' then hex_escape s else if c == b'u' then unicode_escape s else none)
      (found (c == b'x') (c == b'u'))
  where
    found :
        (a b : Bool) → Passes s (if a then hex_escape s else if b then unicode_escape s else none)
    found true b r h = hex_escape-Passes s r h
    found false true r h = unicode_escape-Passes s r h
    found false false r h = cc

    go :
        (simple : Option ℕ) (o : Option (Text × ℕ))
        → Passes s o
        → (k : ℕ) × ((let r : Text × ℕ = elim simple [
          | some d ↦ (d ∷ [], 1)
          | none ↦ elim o [ some r ↦ r | none ↦ (c ∷ [], 1) ]
        ] in
              r.1)
            ≡ suc k)
          × All IsPlain (take k s)
    go (some d) o h = (0, refl, tt)
    go none none h = (0, refl, tt)
    go none (some r) h = h r refl

IsClosed-plain :
    (c : ℕ) (read behind : Text) → IsPlain c → IsClosed read behind → IsClosed (c ∷ read) behind
IsClosed-plain c read behind p (body, b, inl e) =
    (c ∷ body, plain p.0 p.1 b, inl (ap (λ t. c ∷ t) e))
IsClosed-plain c read behind p (body, b, inr (n, inl e)) =
    (c ∷ body, plain p.0 p.1 b, inr (n, inl (ap (λ t. c ∷ t) e)))
IsClosed-plain c read behind p (body, b, inr (n, inr e)) =
    (c ∷ body, plain p.0 p.1 b, inr (n, inr (ap (λ t. c ∷ t) e)))

IsClosed-escaped :
    (c : ℕ) (read behind : Text) → IsClosed read behind → IsClosed (b'\\' ∷ c ∷ read) behind
IsClosed-escaped c read behind (body, b, inl e) =
    (b'\\' ∷ c ∷ body, escaped c b, inl (ap (λ t. b'\\' ∷ c ∷ t) e))
IsClosed-escaped c read behind (body, b, inr (n, inl e)) =
    (b'\\' ∷ c ∷ body, escaped c b, inr (n, inl (ap (λ t. b'\\' ∷ c ∷ t) e)))
IsClosed-escaped c read behind (body, b, inr (n, inr e)) =
    (b'\\' ∷ c ∷ body, escaped c b, inr (n, inr (ap (λ t. b'\\' ∷ c ∷ t) e)))

-- What `read_quoted` reads of a string ends with its closing quote.
abbrev Closes : Text → ℕ → Type 0
Closes s n = IsClosed (take n s) (drop n s)

pub read_quoted-IsClosed :
    (skip : ℕ) (s : Text)
    → All IsPlain (take skip s)
    → IsClosed (take (read_quoted b'"' skip s).0 s) (drop (read_quoted b'"' skip s).0 s)
unfolding read_quoted
read_quoted-IsClosed skip [] h = ([], done, inr (refl, inl refl))
read_quoted-IsClosed (suc skip) (c ∷ s) h =
    IsClosed-plain c _ _ h.0 (read_quoted-IsClosed skip s h.1)
read_quoted-IsClosed zero (c ∷ []) h =
    go (c == b'"') (c == b'\\') ((==_iff c b'"').0) ((==_iff c b'\\').0) refl refl
  where
    go :
        (a b : Bool)
        → (a ≡ true → c ≡ b'"')
        → (b ≡ true → c ≡ b'\\')
        → (c == b'"') ≡ a
        → (c == b'\\') ≡ b
        → Closes (c ∷ []) (
            let result : ℕ × Text = elim a [
              | true ↦ (1, [])
              | false ↦ elim b [ true ↦ (1, []) | false ↦ (1, c ∷ []) ]
            ] in
            result.0)
    go true b f g e e' = ([], done, inl (ap (λ d. d ∷ []) (f refl)))
    go false true f g e e' = ([], done, inr (refl, inr (ap (λ d. d ∷ []) (g refl))))
    go false false f g e e' =
        (c ∷ [], plain (ground arith) (ground arith) done, inr (refl, inl refl))
read_quoted-IsClosed zero (c ∷ c' ∷ s) h =
    let (k, e, all) = decode_escape-Passes c' s in
    go (c == b'"') (c == b'\\') ((==_iff c b'"').0) ((==_iff c b'\\').0) refl refl
      (read_quoted-IsClosed 0 (c' ∷ s) tt)
      (subst (λ n. Closes (b'\\' ∷ c' ∷ s) (suc (read_quoted b'"' n (c' ∷ s)).0)) (sym e)
        (IsClosed-escaped c' _ _ (read_quoted-IsClosed k s all)))
  where
    go :
        (a b : Bool)
        → (a ≡ true → c ≡ b'"')
        → (b ≡ true → c ≡ b'\\')
        → (c == b'"') ≡ a
        → (c == b'\\') ≡ b
        → Closes (c' ∷ s) (read_quoted b'"' 0 (c' ∷ s)).0
        → Closes (b'\\' ∷ c' ∷ s) (suc (read_quoted b'"' (decode_escape (c' ∷ s)).1 (c' ∷ s)).0)
        → Closes (c ∷ c' ∷ s) (
            let result : ℕ × Text = elim a [
              | true ↦ (1, [])
              | false ↦ elim b [
                | true ↦
                    let d = decode_escape (c' ∷ s) in
                    let r = read_quoted b'"' d.1 (c' ∷ s) in (suc r.0, d.0 ++ r.1)
                | false ↦ let r = read_quoted b'"' 0 (c' ∷ s) in (suc r.0, c ∷ r.1)
              ]
            ] in
            result.0)
    go true b f g e e' rec esc = ([], done, inl (ap (λ d. d ∷ []) (f refl)))
    go false true f g e e' rec esc =
        subst
          (λ d. Closes (d ∷ c' ∷ s) (suc (read_quoted b'"' (decode_escape (c' ∷ s)).1 (c' ∷ s)).0))
          (sym (g refl)) esc
    go false false f g e e' rec esc = IsClosed-plain c _ _ (ground arith, ground arith) rec
