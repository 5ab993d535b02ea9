-- ===== src/Workflow/Scalars.antt =====
-- `parse_scalar` of scripts/release-audit.py. `ast.literal_eval`, which reads what stands in quotes, is an
-- argument.
use rpmz.Base.{
  ℕ, zero, suc, ◌+◌, ◌-◌, ◌*◌, ◌/◌, ◌%◌, ◌≤◌, ◌<◌, String, ◌≡◌, refl, sym, ap, ◌∙◌, subst, ◌≢◌, ◌↔◌,
  ◌⊎◌, inl, inr, Bool, true, false, not, ◌&&◌, ◌||◌, Option, none, some, List, [], ◌∷◌, ◌++◌, map,
  append_assoc, append-nil, arith, ltb, leb, ◌==◌, if◌then◌else◌, ==_iff, ==_refl, Bool-cases,
  Option-cases, List-cases, and-true, or-true, not-true, length, get_elem?, take, drop, replicate,
  any, every, All, In, here, there, In-cons, not-In-nil, In-append_left, In-append_right,
  In-append_cases, length-append, length-drop, length-take_of_le, length-replicate,
  take-append-drop, if-cases, All-append, All-imp, every-All, length-map, Text, codes, texts,
  text_eq, text_eq_iff, text_eq_refl, starts_with, starts_with-append, starts_with-eq, ends_with,
  contains, is_space, lstrip, rstrip, strip, split, join, lower, mem, subset, set_eq, mem_self,
  mem-cons, mem-append, mem-subset, subset_intro, set_eq_iff, Outcome, ok, raise, ◌>>=◌, ◌>>◌,
  guard, >>=-eq-ok, guard-eq-ok, for_each, then-eq-ok, >>-eq-ok, for_each-In, for_each-All,
  for_each-guard, for_each_intro, is_digit, is_word, starts_name, is_hex, drop_while, cut,
  take_while, take_while-append-drop_while, after, word_ends, search, find_all, is_some, match_word,
  expand,
}
pub mod Ends
use rpmz.Workflow.Values.{Value, null, boolean, text, items, Items, nil, cons}
use rpmz.Workflow.Lines.{YamlError, invalid_key, missing_colon, fuel_exhausted, strip_comment}

unfoldable pub last : Text → Option ℕ
last [] = none
last (c ∷ []) = some c
last (c ∷ d ∷ s) = last (d ∷ s)

-- `value[:-1]`
unfoldable pub without_last : Text → Text
without_last [] = []
without_last (c ∷ []) = []
without_last (c ∷ d ∷ s) = c ∷ without_last (d ∷ s)

-- `value[0:1] in ("'", '"') and value[-1:] == value[0]`
unfoldable pub is_quoted : Text → Bool
unfolding last
is_quoted [] = false
is_quoted (c ∷ s) =
    (c == b'\'' || c == b'"') && elim (last (c ∷ s)) [ none ↦ false | some d ↦ d == c ]

-- `value.startswith("[") and value.endswith("]")`
unfoldable pub is_bracketed : Text → Bool
unfolding last
is_bracketed [] = false
is_bracketed (c ∷ s) = c == b'[' && elim (last (c ∷ s)) [ none ↦ false | some d ↦ d == b']' ]

-- `value[1:-1].strip()`
unfoldable pub inner : Text → Text
unfolding without_last strip
inner value = strip (without_last (drop 1 value))

-- `[read(item) for item in parts]`
unfoldable pub read_each : (Text → Outcome YamlError Value) → List Text → Outcome YamlError Items
read_each read [] = ok nil
read_each read (part ∷ parts) = do
  value ← read part
  values ← read_each read parts
  ok (cons value values)

unfoldable pub word : Text → Value
unfolding text_eq
word value =
    if text_eq value (codes "true")
    then boolean true
    else if text_eq value (codes "false")
    then boolean false
    else if text_eq value (codes "null")
    then null
    else text value

unfoldable pub is_empty : Text → Bool
is_empty [] = true
is_empty (c ∷ s) = false

-- The value of a scalar without comment and outer blanks.
unfoldable pub read_scalar :
    (Text → Outcome YamlError Value)
    → (Text → Outcome YamlError Value)
    → Text
    → Outcome YamlError Value
unfolding is_quoted is_bracketed inner read_each word split is_empty
read_scalar literal read value =
    if is_empty value
    then ok null
    else if is_quoted value
    then literal value
    else if is_bracketed value
    then (if is_empty (inner value)
        then ok (items nil)
        else (read_each read (split b',' (inner value)) >>= λ values. ok (items values)))
    else ok (word value)

-- `isinstance(key, str)` and not empty
unfoldable pub as_key : Value → Outcome YamlError Text
as_key (text (c ∷ s)) = ok (c ∷ s)
as_key _ = raise invalid_key

module _ (literal : Text → Outcome YamlError Value) where
  unfoldable pub scalar_within : ℕ → Text → Outcome YamlError Value
  unfolding read_scalar strip strip_comment
  scalar_within zero value = raise fuel_exhausted
  scalar_within (suc fuel) value =
      read_scalar literal (scalar_within fuel) (strip (strip_comment value))

  -- `parse_scalar`; each level of brackets takes two characters.
  unfoldable pub parse_scalar : Text → Outcome YamlError Value
  unfolding scalar_within
  parse_scalar value = scalar_within (suc (length value)) value

  -- `split_mapping`: the key and the text behind the colon.
  unfoldable pub split_mapping : Text → Outcome YamlError (Text × Text)
  unfolding parse_scalar as_key cut strip
  split_mapping t = elim (cut b':' t).1 [
    | none ↦ raise missing_colon
    | some value ↦ do
      parsed ← parse_scalar (strip (cut b':' t).0)
      key ← as_key parsed
      ok (key, strip value)
  ]
