-- ===== src/Confinement/Lexer.antt =====
-- `decode_escape`, `read_quoted`, `masked` and `lex_zig` of scripts/replay-confinement-audit.py. The
-- source indexes one text; here a function takes the text from its index on, and gives the number of
-- characters up to the index that the source returns.
use rpmz.Base.{
  ℕ, zero, suc, ◌+◌, ◌-◌, ◌*◌, ◌/◌, ◌%◌, ◌≤◌, ◌<◌, String, ◌≡◌, refl, sym, ap, ◌∙◌, subst, ◌≢◌, ◌↔◌,
  ◌⊎◌, inl, inr, Bool, true, false, not, ◌&&◌, ◌||◌, Option, none, some, List, [], ◌∷◌, ◌++◌, map,
  append_assoc, append-nil, arith, ltb, leb, ◌==◌, if◌then◌else◌, ==_iff, ==_refl, Bool-cases,
  Option-cases, List-cases, and-true, or-true, not-true, length, get_elem?, take, drop, replicate,
  any, every, All, In, here, there, In-cons, not-In-nil, In-append_left, In-append_right,
  In-append_cases, length-append, length-drop, length-take_of_le, length-replicate, All-append,
  All-imp, every-All, length-map, Text, codes, texts, text_eq, text_eq_iff, text_eq_refl,
  starts_with, starts_with-append, starts_with-eq, ends_with, contains, is_space, lstrip, rstrip,
  strip, split, join, lower, mem, subset, set_eq, mem_self, mem-cons, mem-append, mem-subset,
  subset_intro, set_eq_iff, Outcome, ok, raise, ◌>>=◌, ◌>>◌, guard, >>=-eq-ok, guard-eq-ok,
  for_each, is_digit, is_word, starts_name, is_hex, drop_while, take_while,
  take_while-append-drop_while, after, word_ends, search, find_all, is_some, match_word, expand,
}
pub mod Sizes
pub mod Layout
pub mod Quoted
pub mod Spans

-- `masked`
unfoldable pub masked : Text → Text
masked = map (λ c. if c == b'\n' then b'\n' else b' ')

abbrev hex_value : ℕ → ℕ
hex_value c = if is_digit c then c - b'0' else if leb b'a' c then c - b'a' + 10 else c - b'A' + 10

-- `int(digits, 16)`
unfoldable pub hex_number : ℕ → Text → ℕ
hex_number n [] = n
hex_number n (c ∷ s) = hex_number (16 * n + hex_value c) s

-- The simple escapes, as their table has them.
unfoldable pub escapes : ℕ → Option ℕ
escapes c =
    if c == b'n'
    then some b'\n'
    else if c == b'r'
    then some 13
    else if c == b't'
    then some 9
    else if c == b'\\'
    then some b'\\'
    else if c == b'"'
    then some b'"'
    else if c == b'\''
    then some b'\''
    else if c == b'0'
    then some 0
    else none

-- Behind `\x`; two digits are wanted.
unfoldable pub hex_escape : Text → Option (Text × ℕ)
unfolding is_hex hex_number
hex_escape (a ∷ b ∷ s) =
    if is_hex a && is_hex b then some (hex_number 0 (a ∷ b ∷ []) ∷ [], 3) else none
hex_escape _ = none

abbrev pub in_braces : ℕ → Bool
in_braces c = not (c == b'}')

-- Behind `\u{`; the digits are closed by a brace somewhere in the rest of the source.
unfoldable pub brace_escape : Text → Option (Text × ℕ)
unfolding take_while drop_while is_hex hex_number
brace_escape s = elim (drop_while in_braces s) [
  | [] ↦ none
  | _ ∷ _ ↦
      let digits = take_while in_braces s in
      let value = hex_number 0 digits in
      if ltb 0 (length digits) && (every is_hex digits && leb value 0x10FFFF)
      then some (value ∷ [], length digits + 3)
      else none
]

-- Behind `\u`
unfoldable pub unicode_escape : Text → Option (Text × ℕ)
unfolding brace_escape
unicode_escape [] = none
unicode_escape (c ∷ s) = if c == b'{' then brace_escape s else none

-- `decode_escape`: the text behind a backslash.
unfoldable pub decode_escape : Text → Text × ℕ
unfolding escapes hex_escape unicode_escape
decode_escape [] = ([], 0)
decode_escape (c ∷ s) = elim (escapes c) [
  | some d ↦ (d ∷ [], 1)
  | none ↦ elim (if c == b'x' then hex_escape s else if c == b'u' then unicode_escape s else none) [
    | some r ↦ r
    | none ↦ (c ∷ [], 1)
  ]
]

-- `read_quoted`, behind the quote that opens. The first number counts the characters of an escape
-- that are still to be passed over.
unfoldable pub read_quoted : ℕ → ℕ → Text → ℕ × Text
unfolding decode_escape
read_quoted quote skip [] = (0, [])
read_quoted quote (suc skip) (c ∷ s) = let r = read_quoted quote skip s in (suc r.0, r.1)
read_quoted quote zero (c ∷ s) = elim (c == quote) [
  | true ↦ (1, [])
  | false ↦ elim (c == b'\\') [
    | true ↦ let d = decode_escape s in let r = read_quoted quote d.1 s in (suc r.0, d.0 ++ r.1)
    | false ↦ let r = read_quoted quote 0 s in (suc r.0, c ∷ r.1)
  ]
]

-- The characters up to the end of the line.
unfoldable pub line_size : Text → ℕ
line_size [] = 0
line_size (c ∷ s) = if c == b'\n' then 0 else suc (line_size s)

-- The loop over a block comment, at a depth of open comments.
unfoldable pub block_size : ℕ → Text → ℕ
block_size zero s = 0
block_size (suc depth) [] = 0
block_size (suc depth) (a ∷ []) = 1
block_size (suc depth) (a ∷ b ∷ s) = elim (a == b'/' && b == b'*') [
  | true ↦ suc (suc (block_size (suc (suc depth)) s))
  | false ↦ elim (a == b'*' && b == b'/') [
    | true ↦ suc (suc (block_size depth s))
    | false ↦ suc (block_size (suc depth) (b ∷ s))
  ]
]

-- `re.fullmatch(r"[A-Za-z_][A-Za-z0-9_]*", value)`
unfoldable pub is_identifier : Text → Bool
unfolding starts_name is_word
is_identifier [] = false
is_identifier (c ∷ s) = starts_name c && every is_word s

-- `value.ljust(length)`
unfoldable pub ljust : ℕ → Text → Text
ljust n value = value ++ replicate (n - length value) b' '

-- One round of the loop: the characters consumed, the code that stands for them, and the value of a
-- string token.
pub record Item : Type 0 where
  pub size : ℕ
  pub code : Text
  pub token : Option Text

abbrev blank : Text → ℕ → Option Text → Item
blank s n token = record { size = n; code = masked (take n s); token = token }

unfoldable pub identifier_item : Text → Item
unfolding read_quoted is_identifier ljust
identifier_item s =
    let r = read_quoted b'"' 0 s in
    let n = suc (suc r.0) in
    let rendered = if is_identifier r.1 then r.1 else [] in
    record { size = n; code = ljust n (take n rendered); token = none }

unfoldable pub item : ℕ → Text → Item
unfolding masked starts_with line_size block_size identifier_item read_quoted
item c s =
    if starts_with (c ∷ s) (codes "//")
    then blank (c ∷ s) (suc (suc (line_size (drop 1 s)))) none
    else if starts_with (c ∷ s) (codes "/*")
    then blank (c ∷ s) (suc (suc (block_size 1 (drop 1 s)))) none
    else if starts_with (c ∷ s) (codes "\\\\")
    then blank (c ∷ s) (suc (suc (line_size (drop 1 s)))) none
    else if starts_with (c ∷ s) (codes "@\"")
    then identifier_item (drop 1 s)
    else if c == b'"'
    then blank (c ∷ s) (suc (read_quoted b'"' 0 s).0) (some (read_quoted b'"' 0 s).1)
    else if c == b'\''
    then blank (c ∷ s) (suc (read_quoted b'\'' 0 s).0) none
    else record { size = 1; code = c ∷ []; token = none }

pub record StringToken : Type 0 where
  pub start : ℕ
  pub end : ℕ
  pub value : Text

pub record Lexed : Type 0 where
  pub code : Text
  pub strings : List StringToken

abbrev pub add_token : ℕ → ℕ → Option Text → List StringToken → List StringToken
add_token start end token strings = elim token [
  | none ↦ strings
  | some v ↦ record { start = start; end = end; value = v } ∷ strings
]

-- The loop of `lex_zig` from an index on. The first number counts the characters of the last item
-- that are still to be passed over.
unfoldable pub lex_from : ℕ → ℕ → Text → Lexed
unfolding item
lex_from skip index [] = record { code = []; strings = [] }
lex_from (suc skip) index (c ∷ s) = lex_from skip (suc index) s
lex_from zero index (c ∷ s) =
    let i = item c s in
    let rest = lex_from (i.size - 1) (suc index) s in
    record {
      code = i.code ++ rest.code;
      strings = add_token index (index + i.size) i.token rest.strings;
    }

unfoldable pub lex_zig : Text → Lexed
unfolding lex_from
lex_zig = lex_from 0 0
