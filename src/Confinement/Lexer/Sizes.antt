-- ===== src/Confinement/Lexer/Sizes.antt =====
-- No function of the lexer reads behind the end of the source, and each round consumes something.
use rpmz.Base.{
  ℕ, zero, suc, ◌+◌, ◌-◌, ◌≤◌, ◌≡◌, refl, ap, ◌∙◌, Bool, true, ◌&&◌, Option, none, some, [], ◌∷◌,
  arith, ltb, leb, ◌==◌, if◌then◌else◌, length, take, drop, replicate, every, length-append,
  length-replicate, if-cases, length-take_of_le, length-map, Text, codes, starts_with, is_hex,
  drop_while, take_while, take_while-append-drop_while,
}
use rpmz.Confinement.Lexer.{
  masked, escapes, hex_number, hex_escape, in_braces, brace_escape, unicode_escape, decode_escape,
  read_quoted, line_size, block_size, ljust, Item, identifier_item, item,
}

pub length-masked : (s : Text) → length (masked s) ≡ length s
unfolding masked
length-masked s = length-map _ s

length-parts :
    (p : ℕ → Bool) (s : Text) → length (take_while p s) + length (drop_while p s) ≡ length s
length-parts p s = omega (
  arith,
  length-append (take_while p s) (drop_while p s),
  ap length (take_while-append-drop_while p s),
)

brace_escape-le :
    (s : Text) (v : Text) (n : ℕ) → brace_escape s ≡ some (v, n) → n ≤ suc (suc (length s))
unfolding brace_escape
brace_escape-le s v n h = go (drop_while in_braces s) refl h
  where
    digits : Text
    digits = take_while in_braces s

    go :
        (rest : Text)
        → drop_while in_braces s ≡ rest
        → ◌≡◌ {A = Option (Text × ℕ)}
            (elim rest [
              | [] ↦ none
              | _ ∷ _ ↦
                  if ltb 0 (length digits)
                    && (every is_hex digits && leb (hex_number 0 digits) 0x10FFFF)
                  then some (hex_number 0 digits ∷ [], length digits + 3)
                  else none
            ])
            (some (v, n))
        → n ≤ suc (suc (length s))
    go [] e k = cc
    go (x ∷ rest) e k = ground (arith, length-parts in_braces s, ap length e)

hex_escape-le : (s : Text) (v : Text) (n : ℕ) → hex_escape s ≡ some (v, n) → n ≤ suc (length s)
unfolding hex_escape
hex_escape-le [] v n h = cc
hex_escape-le (a ∷ []) v n h = cc
hex_escape-le (a ∷ b ∷ s) v n h = ground arith

unicode_escape-le :
    (s : Text) (v : Text) (n : ℕ) → unicode_escape s ≡ some (v, n) → n ≤ suc (length s)
unfolding unicode_escape
unicode_escape-le [] v n h = cc
unicode_escape-le (c ∷ s) v n h = ground (arith, brace_escape-le s v n)

pub decode_escape-le : (s : Text) → (decode_escape s).1 ≤ length s
unfolding decode_escape
decode_escape-le [] = omega arith
decode_escape-le (c ∷ s) = go (escapes c)
  where
    other : Option (Text × ℕ)
    other = if c == b'x' then hex_escape s else if c == b'u' then unicode_escape s else none

    pick : Option (Text × ℕ) → Text × ℕ
    pick o = elim o [ some r ↦ r | none ↦ (c ∷ [], 1) ]

    within : (o : Option (Text × ℕ)) → other ≡ o → (pick o).1 ≤ suc (length s)
    within none e = omega arith
    within (some (v, n)) e = ground (arith, hex_escape-le s v n, unicode_escape-le s v n)

    chosen : Option ℕ → Text × ℕ
    chosen o = elim o [ some d ↦ (d ∷ [], 1) | none ↦ pick other ]

    go : (o : Option ℕ) → (chosen o).1 ≤ suc (length s)
    go none = within other refl
    go (some d) = omega arith

pub read_quoted-le :
    (quote skip : ℕ) (s : Text) → skip ≤ length s → (read_quoted quote skip s).0 ≤ length s
unfolding read_quoted
read_quoted-le quote skip [] h = omega arith
read_quoted-le quote (suc skip) (c ∷ s) h = omega (arith, read_quoted-le quote skip s (omega arith))
read_quoted-le quote zero (c ∷ s) h = ground (
  arith,
  read_quoted-le quote 0 s (omega arith),
  read_quoted-le quote (decode_escape s).1 s (decode_escape-le s),
)

pub line_size-le : (s : Text) → line_size s ≤ length s
unfolding line_size
line_size-le [] = omega arith
line_size-le (c ∷ s) = ground (arith, line_size-le s)

pub block_size-le : (depth : ℕ) (s : Text) → block_size depth s ≤ length s
unfolding block_size
block_size-le zero s = omega arith
block_size-le (suc depth) [] = omega arith
block_size-le (suc depth) (a ∷ []) = omega arith
block_size-le (suc depth) (a ∷ b ∷ s) = ground (
  arith,
  block_size-le (suc (suc depth)) s,
  block_size-le depth s,
  block_size-le (suc depth) (b ∷ s),
)

length-ljust-take : (n : ℕ) (s : Text) → length (ljust n (take n s)) ≡ n
unfolding ljust
length-ljust-take n s = omega (
  arith,
  length-append (take n s) (replicate (n - length (take n s)) b' '),
  length-replicate {A = ℕ} (n - length (take n s)) b' ',
  length-take-le n s,
)
  where
    length-take-le : (m : ℕ) (t : Text) → length (take m t) ≤ m
    length-take-le zero t = omega arith
    length-take-le (suc m) [] = omega arith
    length-take-le (suc m) (x ∷ t) = omega (arith, length-take-le m t)

-- What a round gives: it consumes at least one character and none behind the end, and the code has
-- the size of what was consumed.
pub record IsSized (c : ℕ) (s : Text) (i : Item) : Type 0 where
  pub consumes : 1 ≤ i.size
  pub within : i.size ≤ suc (length s)
  pub keeps_size : length i.code ≡ i.size

two_characters :
    (c : ℕ) (s : Text) (a b : ℕ)
    → starts_with (c ∷ s) (a ∷ b ∷ []) ≡ true
    → length s ≡ suc (length (drop 1 s))
unfolding starts_with
two_characters c [] a b h = ground arith
two_characters c (d ∷ s) a b h = refl

IsSized-masked :
    (c : ℕ) (s : Text) (n : ℕ) (token : Option Text)
    → n ≤ length s
    → IsSized c s (record { size = suc n; code = masked (take (suc n) (c ∷ s)); token = token })
IsSized-masked c s n token h = record {
  consumes = omega arith;
  within = omega arith;
  keeps_size =
      length-masked (take (suc n) (c ∷ s)) ∙ length-take_of_le (suc n) (c ∷ s) (omega arith);
}

IsSized-identifier : (c d : ℕ) (s : Text) → IsSized c (d ∷ s) (identifier_item s)
unfolding identifier_item
IsSized-identifier c d s = record {
  consumes = omega arith;
  within = omega (arith, read_quoted-le b'"' 0 s (omega arith));
  keeps_size = length-ljust-take (suc (suc (read_quoted b'"' 0 s).0)) _;
}

pub item-IsSized : (c : ℕ) (s : Text) → IsSized c s (item c s)
unfolding item
item-IsSized c s =
    if-cases (IsSized c s) (starts_with (c ∷ s) (codes "//"))
      (λ h.
        IsSized-masked c s _ none
          (omega (arith, two_characters c s _ _ h, line_size-le (drop 1 s))))
      λ _.
        if-cases (IsSized c s) (starts_with (c ∷ s) (codes "/*"))
          (λ h.
            IsSized-masked c s _ none
              (omega (arith, two_characters c s _ _ h, block_size-le 1 (drop 1 s))))
          λ _.
            if-cases (IsSized c s) (starts_with (c ∷ s) (codes "\\\\"))
              (λ h.
                IsSized-masked c s _ none
                  (omega (arith, two_characters c s _ _ h, line_size-le (drop 1 s))))
              λ _.
                if-cases (IsSized c s) (starts_with (c ∷ s) (codes "@\"")) (λ h. named s h)
                  λ _.
                    if-cases (IsSized c s) (c == b'"')
                      (λ _. IsSized-masked c s _ _ (read_quoted-le b'"' 0 s (omega arith)))
                      λ _.
                        if-cases (IsSized c s) (c == b'\'')
                          {y = record { size = 1; code = c ∷ []; token = none }}
                          (λ _. IsSized-masked c s _ _ (read_quoted-le b'\'' 0 s (omega arith)))
                          λ _. record {
                            consumes = omega arith;
                            within = omega arith;
                            keeps_size = refl;
                          }
  where
    named :
        (t : Text)
        → starts_with (c ∷ t) (codes "@\"") ≡ true
        → IsSized c t (identifier_item (drop 1 t))
    named [] h = absurd (omega (arith, two_characters c [] b'@' b'"' h))
    named (d ∷ t) h = IsSized-identifier c d t
