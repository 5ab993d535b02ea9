-- ===== src/Confinement/Imports.antt =====
-- `matching_parenthesis`, `import_calls` and `expand_std_imports` of
-- scripts/replay-confinement-audit.py.
use rpmz.Base.{
  ℕ, zero, suc, ◌+◌, ◌-◌, ◌*◌, ◌/◌, ◌%◌, ◌≤◌, ◌<◌, String, ◌≡◌, refl, sym, ap, ◌∙◌, subst, ◌≢◌, ◌↔◌,
  ◌⊎◌, inl, inr, Bool, true, false, not, ◌&&◌, ◌||◌, Option, none, some, List, [], ◌∷◌, ◌++◌, map,
  append_assoc, append-nil, arith, ltb, leb, ◌==◌, if◌then◌else◌, ==_iff, ==_refl, Bool-cases,
  Option-cases, List-cases, and-true, or-true, not-true, length, get_elem?, take, drop, replicate,
  any, every, All, In, here, there, In-cons, not-In-nil, In-append_left, In-append_right,
  In-append_cases, length-append, length-drop, length-take_of_le, length-replicate,
  take-append-drop, if-cases, All-append, All-imp, every-All, length-map, Text, codes, texts,
  text_eq, text_eq_iff, text_eq_refl, starts_with, starts_with-append, starts_with-eq, ends_with,
  contains, is_space, lstrip, rstrip, strip, split, join, lower, mem, subset, set_eq, mem_self,
  mem-cons, mem-append, mem-subset, subset_intro, set_eq_iff, Outcome, ok, raise, ◌>>=◌, ◌>>◌,
  guard, >>=-eq-ok, guard-eq-ok, for_each, is_digit, is_word, starts_name, is_hex, drop_while,
  take_while, take_while-append-drop_while, after, word_ends, search, find_all, is_some, match_word,
  expand,
}
pub mod Laws
use rpmz.Confinement.Lexer.{StringToken, Lexed, ljust}

-- The exceptions of the audit.
pub data AuditError : Type 0 where
  malformed_import import_not_literal import_boundary : AuditError
  missing_struct ambient_input reflection_builtin : Text → AuditError
  verified_fetch_usage repomd_usage c_import extern_builtin extern_socket : AuditError
  internal_member dynamic_lookup process_token resolver_token network_token : Text → AuditError
  process_member : Text → AuditError

-- `matching_parenthesis`, from the opening parenthesis on: the offset of the one that closes it.
-- The text begins with a parenthesis that opens, so the depth is not 0 at one that closes.
unfoldable pub matching_from : ℕ → Text → Option ℕ
matching_from depth [] = none
matching_from depth (c ∷ s) = elim (c == b'(') [
  | true ↦ elim (matching_from (suc depth) s) [ none ↦ none | some n ↦ some (suc n) ]
  | false ↦ elim (c == b')') [
    | true ↦ elim (depth == 1) [
      | true ↦ some 0
      | false ↦ elim (matching_from (depth - 1) s) [ none ↦ none | some n ↦ some (suc n) ]
    ]
    | false ↦ elim (matching_from depth s) [ none ↦ none | some n ↦ some (suc n) ]
  ]
]

unfoldable pub matching_parenthesis : Text → Option ℕ
unfolding matching_from
matching_parenthesis s = matching_from 0 s

-- `@import\s*\(` at the start of the text: the size of the match
unfoldable pub match_import : Text → Option ℕ
unfolding after take_while drop_while is_space
match_import s = elim (after (codes "@import") s) [
  | none ↦ none
  | some rest ↦ elim (drop_while is_space rest) [
    | [] ↦ none
    | c ∷ _ ↦ if c == b'(' then some (length (take_while is_space rest) + 8) else none
  ]
]

pub record Call : Type 0 where
  pub start : ℕ
  pub end : ℕ
  pub value : Text

unfoldable pub tokens_within : ℕ → ℕ → List StringToken → List StringToken
tokens_within opening close [] = []
tokens_within opening close (t ∷ ts) =
    let rest = tokens_within opening close ts in
    if ltb opening t.start && leb t.end close then t ∷ rest else rest

-- The body of the loop for a match of some size at an index, given the code from there on.
unfoldable pub import_call : List StringToken → ℕ → ℕ → Text → Outcome AuditError Call
unfolding matching_parenthesis tokens_within strip text_eq
import_call strings index size code =
    let opening = index + (size - 1) in
    elim (matching_parenthesis (drop (size - 1) code)) [
      | none ↦ raise malformed_import
      | some offset ↦
          let close = opening + offset in
          let body = take (offset - 1) (drop size code) in
          elim (tokens_within opening close strings) [
            | [] ↦ raise import_not_literal
            | t ∷ ts ↦ elim ts [
              | [] ↦
                  if text_eq (strip body) []
                  then ok (record { start = index; end = close + 1; value = t.value })
                  else raise import_not_literal
              | _ ∷ _ ↦ raise import_not_literal
            ]
          ]
    ]

-- A match has one `@`, at its start, so that no two overlap.
unfoldable pub calls_from : List StringToken → ℕ → Text → Outcome AuditError (List Call)
unfolding match_import import_call
calls_from strings index [] = ok []
calls_from strings index (c ∷ s) =
    let rest = calls_from strings (index + 1) s in
    elim (match_import (c ∷ s)) [
      | none ↦ rest
      | some size ↦ do
        call ← import_call strings index size (c ∷ s)
        later ← rest
        ok (call ∷ later)
    ]

unfoldable pub import_calls : Lexed → Outcome AuditError (List Call)
unfolding calls_from
import_calls l = calls_from l.strings 0 l.code

-- `expand_std_imports`
unfoldable pub expand_std_imports : Text → List Call → Text
unfolding text_eq ljust
expand_std_imports code [] = code
expand_std_imports code (call ∷ calls) =
    expand_std_imports
      (if text_eq call.value (codes "std")
        then take call.start code
          ++ (ljust (call.end - call.start) (codes "std") ++ drop call.end code)
        else code)
      calls
