-- ===== src/Confinement/Lexer/Layout.antt =====
-- The text of the source as a sequence of segments, and what the lexer makes of each.
use rpmz.Base.{
  ℕ, zero, suc, ◌+◌, ◌-◌, ◌≤◌, ◌≡◌, refl, sym, ap, ◌∙◌, subst, ◌≢◌, ◌⊎◌, inl, inr, true, false,
  Option, none, some, List, [], ◌∷◌, ◌++◌, arith, ◌==◌, ==_iff, length, take, drop, In, here, there,
  length-take_of_le, take-append-drop, if-cases, Text, codes, texts, starts_with,
}
use rpmz.Confinement.Lexer.{
  masked, Item, identifier_item, item, line_size, block_size, read_quoted, blank, StringToken,
  add_token, Lexed, lex_from,
}
use rpmz.Confinement.Lexer.Quoted.{IsClosed, read_quoted-IsClosed}
use rpmz.Confinement.Lexer.Sizes.{item-IsSized}

-- A piece of the source, the code that stands for it, and the value if it is a string.
pub record Segment : Type 0 where
  pub source : Text
  pub code : Text
  pub token : Option Text

unfoldable pub sources : List Segment → Text
sources [] = []
sources (g ∷ gs) = g.source ++ sources gs

unfoldable pub code_of : List Segment → Text
code_of [] = []
code_of (g ∷ gs) = g.code ++ code_of gs

-- The string tokens of segments that begin at an index.
unfoldable pub tokens_at : ℕ → List Segment → List StringToken
tokens_at index [] = []
tokens_at index (g ∷ gs) =
    let end = index + length g.source in add_token index end g.token (tokens_at end gs)

-- Comments, multi-line strings and character literals are blanked out; a string is blanked out and
-- is a token; a quoted identifier is padded to its size; any other character stands for itself.
abbrev pub blank_marks : List Text
blank_marks = texts ("//" ∷ "/*" ∷ "\\\\" ∷ "'" ∷ [])

abbrev pub IsBlank : Segment → Type 0
IsBlank g =
    (g.code ≡ masked g.source)
    × (g.token ≡ none)
    × ((p : Text) × In p blank_marks × (starts_with g.source p ≡ true))

-- From a quote to the one that closes it, or to the end of the source.
abbrev pub IsLiteral : Text → Text → Type 0
IsLiteral literal behind = (read : Text) × (literal ≡ b'"' ∷ read) × IsClosed read behind

abbrev pub IsString : Segment → Text → Type 0
IsString g behind =
    (v : Text) × (g.code ≡ masked g.source) × (g.token ≡ some v) × IsLiteral g.source behind

abbrev pub IsNamed : Segment → Type 0
IsNamed g = (g.token ≡ none) × (starts_with g.source (codes "@\"") ≡ true)

abbrev pub IsCode : Segment → Type 0
IsCode g =
    (c : ℕ) × (g.source ≡ c ∷ []) × (g.code ≡ c ∷ []) × (g.token ≡ none) × (c ≢ b'"') × (c ≢ b'\'')

abbrev pub Shape : Segment → Text → Type 0
Shape g behind = IsBlank g ⊎ (IsString g behind ⊎ (IsNamed g ⊎ IsCode g))

-- A segment before what is behind it in the source.
pub record IsSegment (g : Segment) (behind : Text) : Type 0 where
  pub not_empty : 1 ≤ length g.source
  pub keeps_size : length g.code ≡ length g.source
  pub shape : Shape g behind

unfoldable pub AllSegments : List Segment → Type 0
unfolding sources
AllSegments [] = Unit
AllSegments (g ∷ gs) = IsSegment g (sources gs) × AllSegments gs

abbrev segment : ℕ → Text → Item → Segment
segment c s i = record { source = take i.size (c ∷ s); code = i.code; token = i.token }

starts_with-take :
    (n : ℕ) (s p : Text) → length p ≤ n → starts_with s p ≡ true → starts_with (take n s) p ≡ true
unfolding starts_with
starts_with-take zero s [] h k = refl
starts_with-take (suc n) [] [] h k = refl
starts_with-take (suc n) (c ∷ s) [] h k = refl
starts_with-take zero s (x ∷ p) h k = absurd (omega arith)
starts_with-take (suc n) [] (x ∷ p) h k = cc
starts_with-take (suc n) (c ∷ s) (x ∷ p) h k = ground (arith, starts_with-take n s p)

module _ (c : ℕ) (s : Text) where
  abbrev P : Item → Type 0
  P i = Shape (segment c s i) (drop i.size (c ∷ s))

  P-blank :
      (p : Text) (n : ℕ)
      → In p blank_marks
      → length p ≤ suc n
      → starts_with (c ∷ s) p ≡ true
      → P (record { size = suc n; code = masked (take (suc n) (c ∷ s)); token = none })
  P-blank p n m h k = inl (refl, refl, (p, m, starts_with-take (suc n) (c ∷ s) p h k))

  starts_with-one : (d : ℕ) → (c == d) ≡ true → starts_with (c ∷ s) (d ∷ []) ≡ true
  unfolding starts_with
  starts_with-one d h = ground arith

  P-string :
      (c == b'"') ≡ true
      → P (blank (c ∷ s) (suc (read_quoted b'"' 0 s).0) (some (read_quoted b'"' 0 s).1))
  P-string h = inr (
      inl (
        (read_quoted b'"' 0 s).1,
        refl,
        refl,
        (
          take (read_quoted b'"' 0 s).0 s,
          ap (λ d. d ∷ take (read_quoted b'"' 0 s).0 s) ((==_iff c b'"').0 h),
          read_quoted-IsClosed 0 s tt,
        ),
      ))

  P-named : starts_with (c ∷ s) (codes "@\"") ≡ true → P (identifier_item (drop 1 s))
  unfolding identifier_item
  P-named h = inr (
      inr (
        inl (
          refl,
          starts_with-take (identifier_item (drop 1 s)).size (c ∷ s) (codes "@\"") (omega arith) h,
        )))

  abbrev plain_item : Item
  plain_item = record { size = 1; code = c ∷ []; token = none }

  P-plain : (c == b'"') ≡ false → (c == b'\'') ≡ false → P plain_item
  P-plain a b = inr (inr (inr (c, refl, refl, refl, ground arith, ground arith)))

  item-Shape : Shape (segment c s (item c s)) (drop (item c s).size (c ∷ s))
  unfolding item
  item-Shape =
      if-cases P (starts_with (c ∷ s) (codes "//")) {x = blank (c ∷ s) (suc (suc lines)) none}
        (P-blank (codes "//") (suc lines) (here refl) (omega arith))
        λ _.
          if-cases P (starts_with (c ∷ s) (codes "/*")) {x = blank (c ∷ s) (suc (suc block)) none}
            (P-blank (codes "/*") (suc block) (there (here refl)) (omega arith))
            λ _.
              if-cases P (starts_with (c ∷ s) (codes "\\\\"))
                {x = blank (c ∷ s) (suc (suc lines)) none}
                (P-blank (codes "\\\\") (suc lines) (there (there (here refl))) (omega arith))
                λ _.
                  if-cases P (starts_with (c ∷ s) (codes "@\"")) {x = identifier_item (drop 1 s)}
                    P-named
                    λ _.
                      if-cases P (c == b'"') {x = blank (c ∷ s) (suc string.0) (some string.1)}
                        P-string
                        λ a.
                          if-cases P (c == b'\'') {x = blank (c ∷ s) (suc character) none}
                            {y = plain_item}
                            (λ h.
                              P-blank (codes "'") character (there (there (there (here refl))))
                                (omega arith) (starts_with-one b'\'' h))
                            (P-plain a)
    where
      lines : ℕ
      lines = line_size (drop 1 s)

      block : ℕ
      block = block_size 1 (drop 1 s)

      string : ℕ × Text
      string = read_quoted b'"' 0 s

      character : ℕ
      character = (read_quoted b'\'' 0 s).0

  item-IsSegment : IsSegment (segment c s (item c s)) (drop (item c s).size (c ∷ s))
  item-IsSegment =
      let z = item-IsSized c s in
      let size = length-take_of_le (item c s).size (c ∷ s) z.within in
      record {
        not_empty = omega (arith, z.consumes, size);
        keeps_size = z.keeps_size ∙ sym size;
        shape = item-Shape;
      }

-- What the lexer makes of the text behind the characters to pass over.
pub record Layout (index : ℕ) (text : Text) (l : Lexed) : Type 0 where
  pub segments : List Segment
  pub covers : sources segments ≡ text
  pub code_is : l.code ≡ code_of segments
  pub strings_are : l.strings ≡ tokens_at index segments
  pub valid : AllSegments segments

take-append-drop_pred : (n c : ℕ) (s : Text) → 1 ≤ n → take n (c ∷ s) ++ drop (n - 1) s ≡ c ∷ s
take-append-drop_pred zero c s h = absurd (omega arith)
take-append-drop_pred (suc n) c s h =
    let e : suc n - 1 ≡ n = omega arith in rw e (ap (◌∷◌ c) (take-append-drop n s))

drop_pred : (n c : ℕ) (s : Text) → 1 ≤ n → drop n (c ∷ s) ≡ drop (n - 1) s
drop_pred zero c s h = absurd (omega arith)
drop_pred (suc n) c s h = ap (λ k. drop k s) (omega arith)

pub lex_from-Layout :
    (skip index : ℕ) (s : Text)
    → skip ≤ length s
    → Layout (index + skip) (drop skip s) (lex_from skip index s)
unfolding lex_from sources code_of tokens_at AllSegments
lex_from-Layout zero index [] h = record {
  segments = [];
  covers = refl;
  code_is = refl;
  strings_are = refl;
  valid = tt;
}
lex_from-Layout (suc skip) index [] h = absurd (omega arith)
lex_from-Layout (suc skip) index (c ∷ s) h =
    subst (λ n. Layout n (drop skip s) (lex_from skip (suc index) s)) (omega arith)
      (lex_from-Layout skip (suc index) s (omega arith))
lex_from-Layout zero index (c ∷ s) h =
    cons (lex_from-Layout ((item c s).size - 1) (suc index) s (omega (arith, item-IsSized c s)))
  where
    no_skip : index + 0 ≡ index
    no_skip = omega arith

    size : length (take (item c s).size (c ∷ s)) ≡ (item c s).size
    size = length-take_of_le (item c s).size (c ∷ s) (item-IsSized c s).within

    next : suc index + ((item c s).size - 1) ≡ index + (item c s).size
    next = omega (arith, item-IsSized c s)

    cons :
        Layout
          (suc index + ((item c s).size - 1))
          (drop ((item c s).size - 1) s)
          (lex_from ((item c s).size - 1) (suc index) s)
        → Layout (index + 0) (c ∷ s) (lex_from zero index (c ∷ s))
    cons r = record {
      segments = segment c s (item c s) ∷ r.segments;
      covers =
          ap (λ t. take (item c s).size (c ∷ s) ++ t) r.covers
          ∙ take-append-drop_pred (item c s).size c s (item-IsSized c s).consumes;
      code_is = ap (λ t. (item c s).code ++ t) r.code_is;
      strings_are =
          rw (no_skip, size)
            (ap (add_token index (index + (item c s).size) (item c s).token)
              (r.strings_are ∙ ap (λ n. tokens_at n r.segments) next));
      valid = (
        subst (IsSegment (segment c s (item c s)))
            (drop_pred (item c s).size c s (item-IsSized c s).consumes ∙ sym r.covers)
            (item-IsSegment c s),
        r.valid,
      );
    }
