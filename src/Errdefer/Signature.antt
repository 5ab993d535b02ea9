-- ===== src/Errdefer/Signature.antt =====
-- `FN_RE`, `CONTAINER_OPEN_RE`, `ERRDEFER_RE`, `return_type_of` and `return_type_after_params` of
-- scripts/dead-errdefer-audit.py. The patterns never need to backtrack, so each is a function that
-- walks the text once from every start. `\w` is read as the ASCII word characters.
use rpmz.Base.{
  ℕ, zero, suc, ◌+◌, ◌-◌, ◌*◌, ◌/◌, ◌%◌, ◌≤◌, ◌<◌, String, ◌≡◌, refl, sym, ap, ◌∙◌, subst, ◌≢◌, ◌↔◌,
  ◌⊎◌, inl, inr, Bool, true, false, not, ◌&&◌, ◌||◌, Option, none, some, List, [], ◌∷◌, ◌++◌, map,
  append_assoc, append-nil, arith, ltb, leb, ◌==◌, if◌then◌else◌, ==_iff, ==_refl, Bool-cases,
  Option-cases, List-cases, and-true, or-true, not-true, length, get_elem?, take, drop, replicate,
  any, every, All, length-append, length-drop, length-take_of_le, length-replicate, All-append,
  All-imp, every-All, length-map, Text, codes, texts, text_eq, text_eq_iff, text_eq_refl,
  starts_with, starts_with-append, starts_with-eq, ends_with, contains, is_space, lstrip, rstrip,
  strip, split, join, lower, mem, subset, set_eq, mem_self, mem-cons, mem-append, mem-subset,
  subset_intro, set_eq_iff, Outcome, ok, raise, ◌>>=◌, ◌>>◌, guard, >>=-eq-ok, guard-eq-ok,
  for_each, is_word, drop_while, word_ends, search, is_some, match_word,
}
pub mod Laws

-- `\s*\(`, giving what stands behind the parenthesis
unfoldable pub match_open : Text → Option Text
match_open [] = none
match_open (c ∷ s) = if c == b'(' then some s else none

-- `\w+\s*\(`
unfoldable pub match_name : Text → Option Text
unfolding is_word drop_while match_open is_space
match_name [] = none
match_name (c ∷ s) =
    if is_word c then match_open (drop_while is_space (drop_while is_word s)) else none

-- `fn\s+\w+\s*\(` from the start of the text
unfoldable pub match_fn : Text → Option Text
unfolding match_name
match_fn (f ∷ n ∷ c ∷ s) =
    if f == b'f' && n == b'n' && is_space c then match_name (drop_while is_space s) else none
match_fn _ = none

-- `FN_RE.search`: the text behind the parenthesis that opens the parameters of the first match.
abbrev fn_pattern : Bool → Text → Option Text
fn_pattern after_word s = if after_word then none else match_fn s

unfoldable pub search_fn : Text → Option Text
unfolding search match_fn
search_fn = search fn_pattern false

unfoldable pub has_fn : Text → Bool
unfolding search_fn
has_fn line = is_some (search_fn line)

-- `ERRDEFER_RE.search`
unfoldable pub has_errdefer : Text → Bool
unfolding search match_word
has_errdefer line = is_some (search (match_word (codes "errdefer")) false line)

-- `\s*\{$`
unfoldable pub ends_open : Text → Bool
unfolding drop_while is_space text_eq
ends_open s = text_eq (drop_while is_space s) (codes "{")

abbrev is_plain : ℕ → Bool
is_plain c = not (c == b'(' || c == b')')

-- `\s*(?:\([^()]*\))?\s*\{$`
unfoldable pub opens_container : Text → Bool
unfolding ends_open match_open
opens_container s = elim (match_open (drop_while is_space s)) [
  | none ↦ ends_open s
  | some inner ↦ elim (drop_while is_plain inner) [
    | [] ↦ false
    | c ∷ rest ↦ c == b')' && ends_open rest
  ]
]

abbrev container_words : List Text
container_words = texts ("struct" ∷ "union" ∷ "enum" ∷ "opaque" ∷ "error" ∷ [])

-- `CONTAINER_OPEN_RE.search`
unfoldable pub container_open : Bool → Text → Bool
unfolding opens_container starts_with is_word
container_open after_word [] = false
container_open after_word (c ∷ s) =
    (not after_word
      && any (λ w. starts_with (c ∷ s) w && opens_container (drop (length w) (c ∷ s)))
          container_words)
    || container_open (is_word c) s

-- `text.count(c)` of one character
unfoldable pub count : ℕ → Text → ℕ
count c [] = 0
count c (x ∷ s) = (if x == c then 1 else 0) + count c s

-- The walk to the parenthesis that closes the parameter list, at a depth of open parentheses.
unfoldable pub after_close : ℕ → Text → Option Text
after_close depth [] = none
after_close depth (c ∷ s) = elim (c == b'(') [
  | true ↦ after_close (suc depth) s
  | false ↦ elim (c == b')') [
    | true ↦ elim (depth == 1) [ true ↦ some s | false ↦ after_close (depth - 1) s ]
    | false ↦ after_close depth s
  ]
]

-- `s[:-1]`
unfoldable pub drop_last : Text → Text
drop_last [] = []
drop_last (c ∷ []) = []
drop_last (c ∷ d ∷ s) = c ∷ drop_last (d ∷ s)

unfoldable pub return_type_after_params : Text → Text
unfolding search_fn after_close drop_last strip rstrip
return_type_after_params signature = elim (search_fn signature) [
  | none ↦ []
  | some params ↦ elim (after_close 1 params) [
    | none ↦ []
    | some tail ↦ strip (drop_last (rstrip tail))
  ]
]

-- What the signature read so far is.
pub data Progress : Type 0 where
  prototype body unfinished : Progress

unfoldable pub progress : Text → Progress
unfolding rstrip ends_with count container_open
progress signature =
    let text = rstrip signature in
    if ends_with text (codes ";")
    then prototype
    else if ends_with text (codes "{")
        && count b'{' text == count b'}' text + 1
        && not (container_open false text)
    then body
    else unfinished

-- The loop of `return_type_of`; the lines are those behind `end`.
unfoldable pub extend : ℕ → ℕ → Text → List Text → Option (ℕ × Text)
unfolding progress return_type_after_params
extend index end signature [] = elim (progress signature) [
  | body ↦ some (end, return_type_after_params signature)
  | _ ↦ none
]
extend index end signature (line ∷ lines) = elim (progress signature) [
  | prototype ↦ none
  | body ↦ some (end, return_type_after_params signature)
  | unfinished ↦ elim (ltb (index + 60) (end + 1)) [
    | true ↦ none
    | false ↦ extend index (end + 1) (signature ++ (codes " " ++ line)) lines
  ]
]

-- `return_type_of(lines, index)`, given lines[index] and the lines behind it
unfoldable pub return_type_of : ℕ → Text → List Text → Option (ℕ × Text)
unfolding extend
return_type_of index line lines = extend index index line lines
