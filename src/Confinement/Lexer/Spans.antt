-- ===== src/Confinement/Lexer/Spans.antt =====
-- Where the string tokens stand, and that code and source have the same offsets.
use rpmz.Base.{
  ℕ, ◌+◌, ◌≡◌, refl, sym, ap, ◌∙◌, subst, inl, inr, Option, none, some, List, [], ◌∷◌, ◌++◌,
  append_assoc, arith, length, In, In-cons, not-In-nil, length-append, Text,
}
use rpmz.Confinement.Lexer.{masked, StringToken, add_token, lex_zig}
use rpmz.Confinement.Lexer.Layout.{
  Segment, sources, code_of, tokens_at, IsLiteral, AllSegments, IsString, Layout, lex_from-Layout,
}

-- Every source falls into segments of those shapes; the code is made up of their code, and the
-- string tokens are those of the strings among them, in order, with their offsets.
pub lex_zig-Layout : (source : Text) → Layout 0 source (lex_zig source)
unfolding lex_zig
lex_zig-Layout source = lex_from-Layout 0 0 source (omega arith)

length-code_of : (gs : List Segment) → AllSegments gs → length (code_of gs) ≡ length (sources gs)
unfolding code_of sources AllSegments
length-code_of [] h = refl
length-code_of (g ∷ gs) h = omega (
  arith,
  length-append g.code (code_of gs),
  length-append g.source (sources gs),
  h.0.keeps_size,
  length-code_of gs h.1,
)

-- The code is as long as the source, so that offsets in one are offsets in the other.
pub length-lex_zig : (source : Text) → length (lex_zig source).code ≡ length source
length-lex_zig source =
    let l = lex_zig-Layout source in
    ap length l.code_is ∙ (length-code_of l.segments l.valid ∙ ap length l.covers)

-- The token covers a string literal of the source, from its quote to the one that closes it (or to the end
-- of a source that does not close it); in the code the same place is blank.
pub record IsSpan (index : ℕ) (source code : Text) (t : StringToken) : Type 0 where
  pub before : Text
  pub literal : Text
  pub behind : Text
  pub code_before : Text
  pub code_behind : Text
  pub source_is : source ≡ before ++ (literal ++ behind)
  pub code_is : code ≡ code_before ++ (masked literal ++ code_behind)
  pub same_offset : length code_before ≡ length before
  pub start_is : t.start ≡ index + length before
  pub end_is : t.end ≡ t.start + length literal
  pub is_literal : IsLiteral literal behind

IsSpan-behind :
    (index : ℕ) (t : StringToken) (s r source code : Text)
    → length r ≡ length s
    → IsSpan (index + length s) source code t
    → IsSpan index (s ++ source) (r ++ code) t
IsSpan-behind index t s r source code e h = record {
  before = s ++ h.before;
  literal = h.literal;
  behind = h.behind;
  code_before = r ++ h.code_before;
  code_behind = h.code_behind;
  source_is = ap (λ x. s ++ x) h.source_is ∙ sym (append_assoc s h.before (h.literal ++ h.behind));
  code_is =
      ap (λ x. r ++ x) h.code_is
      ∙ sym (append_assoc r h.code_before (masked h.literal ++ h.code_behind));
  same_offset =
      omega (arith, length-append s h.before, length-append r h.code_before, e, h.same_offset);
  start_is = omega (arith, length-append s h.before, h.start_is);
  end_is = h.end_is;
  is_literal = h.is_literal;
}

IsSpan-here :
    (index : ℕ) (t : StringToken) (g : Segment) (source code : Text)
    → IsString g source
    → t.start ≡ index
    → t.end ≡ index + length g.source
    → IsSpan index (g.source ++ source) (g.code ++ code) t
IsSpan-here index t g source code (v, blank, token, closed) a b = record {
  before = [];
  literal = g.source;
  behind = source;
  code_before = [];
  code_behind = code;
  source_is = refl;
  code_is = ap (λ x. x ++ code) blank;
  same_offset = refl;
  start_is = omega arith;
  end_is = omega arith;
  is_literal = closed;
}

tokens_at-IsSpan :
    (index : ℕ) (gs : List Segment) (t : StringToken)
    → AllSegments gs
    → In t (tokens_at index gs)
    → IsSpan index (sources gs) (code_of gs) t
unfolding tokens_at sources code_of AllSegments
tokens_at-IsSpan index [] t h m = absurd (not-In-nil m)
tokens_at-IsSpan index (g ∷ gs) t h m =
    go g.token refl m (tokens_at-IsSpan (index + length g.source) gs t h.1)
  where
    string : (v : Text) → g.token ≡ some v → IsString g (sources gs)
    string v e = elim h.0.shape [
      | inl (_, none_here, _) ↦ cc
      | inr (inl s) ↦ s
      | inr (inr (inl (none_here, _))) ↦ cc
      | inr (inr (inr (c, _, _, none_here, _, _))) ↦ cc
    ]

    later :
        IsSpan (index + length g.source) (sources gs) (code_of gs) t
        → IsSpan index (g.source ++ sources gs) (g.code ++ code_of gs) t
    later = IsSpan-behind index t g.source g.code (sources gs) (code_of gs) h.0.keeps_size

    go :
        (o : Option Text)
        → g.token ≡ o
        → In t
            (add_token index (index + length g.source) o (tokens_at (index + length g.source) gs))
        → (In t (tokens_at (index + length g.source) gs)
            → IsSpan (index + length g.source) (sources gs) (code_of gs) t)
        → IsSpan index (g.source ++ sources gs) (g.code ++ code_of gs) t
    go none e m' ih = later (ih m')
    go (some v) e m' ih = elim (In-cons m') [
      | inl p ↦
          IsSpan-here index t g (sources gs) (code_of gs) (string v e) (ap (λ x. x.start) p)
            (ap (λ x. x.end) p)
      | inr r ↦ later (ih r)
    ]

-- Each string token covers a string literal of the source: a quote, then characters other than quotes and
-- backslashes, and backslashes with the character behind each, then the quote that closes it, if the source has
-- one. The code is blank at the same offsets, so that no character of the string is taken for code.
pub lex_zig-IsSpan :
    (source : Text) (t : StringToken)
    → In t (lex_zig source).strings
    → IsSpan 0 source (lex_zig source).code t
lex_zig-IsSpan source t m =
    let l = lex_zig-Layout source in
    subst (λ s. IsSpan 0 s (lex_zig source).code t) l.covers
      (subst (λ k. IsSpan 0 (sources l.segments) k t) (sym l.code_is)
        (tokens_at-IsSpan 0 l.segments t l.valid (subst (In t) l.strings_are m)))
