-- ===== src/Workflow/Parser.antt =====
-- `WorkflowParser` of scripts/release-audit.py. A position is the list of the lines from there on.
use rpmz.Base.{
  ℕ, zero, suc, ◌+◌, ◌-◌, ◌*◌, ◌/◌, ◌%◌, ◌≤◌, ◌<◌, String, ◌≡◌, refl, sym, ap, ◌∙◌, subst, ◌≢◌, ◌↔◌,
  ◌⊎◌, inl, inr, Bool, true, false, not, ◌&&◌, ◌||◌, Option, none, some, List, [], ◌∷◌, ◌++◌, map,
  append_assoc, append-nil, arith, ltb, leb, ◌==◌, if◌then◌else◌, ==_iff, ==_refl, Bool-cases,
  Option-cases, List-cases, and-true, or-true, not-true, length, get_elem?, take, drop, replicate,
  any, every, All, In, here, there, In-cons, not-In-nil, In-append_left, In-append_right,
  In-append_cases, length-append, length-drop, length-take_of_le, length-replicate,
  take-append-drop, if-cases, All-append, All-imp, every-All, length-map, Text, codes, texts,
  text_eq, text_eq_iff, text_eq_refl, starts_with, starts_with-append, starts_with-eq, ends_with,
  contains, is_space, lstrip, rstrip, strip, split, join, lower, mem, subset, set_eq, mem_self,
  mem-cons, mem-append, mem-subset, subset_intro, set_eq_iff, Outcome, ok, raise, ◌>>=◌, ◌>>◌,
  guard, >>=-eq-ok, guard-eq-ok, for_each, then-eq-ok, >>-eq-ok, for_each-In, for_each-All,
  for_each-guard, for_each_intro, is_digit, is_word, starts_name, is_hex, drop_while, cut,
  take_while, take_while-append-drop_while, after, word_ends, search, find_all, is_some, match_word,
  expand,
}
pub mod Pieces
pub mod Ends
pub mod Members
pub mod Rounds
use rpmz.Workflow.Values.{
  Value, text, items, mapping, Items, nil, cons, Fields, end, field, has_key, keys, add, append,
}
use rpmz.Workflow.Lines.{
  YamlError, unexpected_indentation, duplicate_key, duplicate_list_keys, trailing_content,
  root_not_mapping, index_error, fuel_exhausted, split_lines, indentation, next_content,
  block_scalar,
}
use rpmz.Workflow.Scalars.{parse_scalar, split_mapping}

abbrev pub Parsed : Type 0
Parsed = Outcome YamlError (Value × List Text)

abbrev pub FieldsParsed : Type 0
FieldsParsed = Outcome YamlError (Fields × List Text)

abbrev pub ItemsParsed : Type 0
ItemsParsed = Outcome YamlError (Items × List Text)

abbrev pub MapParser : Type 0
MapParser = ℕ → Fields → List Text → FieldsParsed

abbrev pub ListParser : Type 0
ListParser = ℕ → Items → List Text → ItemsParsed

abbrev pub is_dashed : Text → Bool
is_dashed t = starts_with t (codes "- ")

-- `nested_value`, where `block` is `parse_block`
unfoldable pub nested_value : (ℕ → List Text → Parsed) → ℕ → List Text → Parsed
unfolding next_content indentation
nested_value block indent lines = elim (next_content lines) [
  | [] ↦ ok (mapping end, lines)
  | child ∷ rest ↦ indentation child >>= λ n.
      if leb n indent then ok (mapping end, lines) else block n (child ∷ rest)
]

unfoldable pub block_styles : List Text
block_styles = texts ("|" ∷ "|-" ∷ "|+" ∷ ">" ∷ ">-" ∷ ">+" ∷ [])

module _ (literal : Text → Outcome YamlError Value) where
  unfoldable pub mapping_value : (ℕ → List Text → Parsed) → Text → ℕ → List Text → Parsed
  unfolding nested_value block_scalar parse_scalar mem block_styles text_eq
  mapping_value block raw indent lines =
      if mem raw block_styles
      then (block_scalar indent (take 1 raw) (drop 1 raw) lines >>= λ (value, rest).
          ok (text value, rest))
      else if text_eq raw []
      then nested_value block indent lines
      else (parse_scalar literal raw >>= λ value. ok (value, lines))

  -- `item.keys() & extra.keys()` for an item of one key, and `item.update(extra)`
  unfoldable pub merged : Text → Value → Fields × List Text → Parsed
  unfolding has_key
  merged key value (extra, rest) =
      guard (not (has_key key extra)) duplicate_list_keys
      >> ok (mapping (field key value extra), rest)

  -- A list item of several keys: the rest of its keys stands two columns further in. `entries` is
  -- `parse_map`.
  unfoldable pub list_item : MapParser → ℕ → Text → Value → List Text → Parsed
  unfolding next_content indentation starts_with merged
  list_item entries indent key value lines = elim (next_content lines) [
    | [] ↦ ok (mapping (field key value end), lines)
    | line ∷ rest ↦ indentation line >>= λ n.
        if n == indent + 2 && not (is_dashed (drop (indent + 2) line))
        then (entries (indent + 2) end (line ∷ rest) >>= merged key value)
        else ok (mapping (field key value end), lines)
  ]

  -- The body of `parse_block`.
  unfoldable pub block_step : ListParser → MapParser → ℕ → List Text → Parsed
  unfolding next_content indentation starts_with
  block_step elements entries indent lines = elim (next_content lines) [
    | [] ↦ raise index_error
    | line ∷ rest ↦ indentation line >>= λ n.
        if not (n == indent)
        then raise unexpected_indentation
        else if is_dashed (drop indent line)
        then (elements indent nil (line ∷ rest) >>= λ (values, behind). ok (items values, behind))
        else (entries indent end (line ∷ rest) >>= λ (fields, behind). ok (mapping fields, behind))
  ]

  -- One round of the loop of `parse_map`; `more` are the rounds behind it.
  unfoldable pub map_step :
      (ℕ → List Text → Parsed) → MapParser → ℕ → Fields → List Text → FieldsParsed
  unfolding next_content indentation starts_with split_mapping mapping_value has_key add
  map_step block more indent result lines = elim (next_content lines) [
    | [] ↦ ok (result, [])
    | line ∷ rest ↦ indentation line >>= λ n.
        if not (n == indent) || is_dashed (drop indent line)
        then ok (result, line ∷ rest)
        else (split_mapping literal (drop indent line) >>= λ (key, raw).
            guard (not (has_key key result)) (duplicate_key key)
            >> (mapping_value block raw indent rest >>= λ (value, behind).
                more indent (add key value result) behind))
  ]

  -- A list item that has a colon.
  unfoldable pub keyed_item : (ℕ → List Text → Parsed) → MapParser → ℕ → Text → List Text → Parsed
  unfolding split_mapping mapping_value list_item
  keyed_item block entries indent raw_item lines = split_mapping literal raw_item >>= λ (key, raw).
      mapping_value block raw (indent + 2) lines >>= λ (value, behind).
      list_item entries indent key value behind

  -- One round of the loop of `parse_list`.
  unfoldable pub list_step :
      (ℕ → List Text → Parsed) → MapParser → ListParser → ℕ → Items → List Text → ItemsParsed
  unfolding next_content indentation starts_with keyed_item parse_scalar append contains strip
  list_step block entries more indent result lines = elim (next_content lines) [
    | [] ↦ ok (result, [])
    | line ∷ rest ↦ indentation line >>= λ n.
        let raw_item = strip (drop (indent + 2) line) in
        if not (n == indent) || not (is_dashed (drop indent line))
        then ok (result, line ∷ rest)
        else if not (contains raw_item (codes ":"))
        then (parse_scalar literal raw_item >>= λ value. more indent (append value result) rest)
        else (keyed_item block entries indent raw_item rest >>= λ (item, further).
            more indent (append item result) further)
  ]

  unfoldable mutual
    unfolding block_step map_step list_step

    pub parse_block : ℕ → ℕ → List Text → Parsed
    parse_block zero indent lines = raise fuel_exhausted
    parse_block (suc fuel) indent lines = block_step (parse_list fuel) (parse_map fuel) indent lines

    pub parse_map : ℕ → ℕ → Fields → List Text → FieldsParsed
    parse_map zero indent result lines = raise fuel_exhausted
    parse_map (suc fuel) indent result lines =
        map_step (parse_block fuel) (parse_map fuel) indent result lines

    pub parse_list : ℕ → ℕ → Items → List Text → ItemsParsed
    parse_list zero indent result lines = raise fuel_exhausted
    parse_list (suc fuel) indent result lines =
        list_step (parse_block fuel) (parse_map fuel) (parse_list fuel) indent result lines

  -- The check behind the document, in `parse`.
  unfoldable pub nothing_behind : Value × List Text → Outcome YamlError Value
  unfolding next_content
  nothing_behind (value, rest) = elim (next_content rest) [
    | [] ↦ ok value
    | _ ∷ _ ↦ raise trailing_content
  ]

  unfoldable pub parse_lines : List Text → Outcome YamlError Value
  unfolding next_content indentation parse_block nothing_behind
  parse_lines lines = elim (next_content lines) [
    | [] ↦ ok (mapping end)
    | line ∷ rest ↦ do
      indent ← indentation line
      parsed ← parse_block (2 * length (line ∷ rest) + 2) indent (line ∷ rest)
      nothing_behind parsed
  ]

  -- `isinstance(document, dict)`
  unfoldable pub as_document : Value → Outcome YamlError Fields
  as_document (mapping fields) = ok fields
  as_document _ = raise root_not_mapping

  unfoldable pub parse_workflow : Text → Outcome YamlError Fields
  unfolding split_lines parse_lines as_document
  parse_workflow source = parse_lines (split_lines source) >>= as_document
