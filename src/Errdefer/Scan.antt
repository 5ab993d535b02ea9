-- ===== src/Errdefer/Scan.antt =====
-- `scan` of scripts/dead-errdefer-audit.py, on the text of a file.
use rpmz.Base.{
  ℕ, zero, suc, ◌+◌, ◌-◌, ◌*◌, ◌/◌, ◌%◌, ◌≤◌, ◌<◌, String, ◌≡◌, refl, sym, ap, ◌∙◌, subst, ◌≢◌, ◌↔◌,
  ◌⊎◌, inl, inr, Bool, true, false, not, ◌&&◌, ◌||◌, Option, none, some, List, [], ◌∷◌, ◌++◌, map,
  append_assoc, append-nil, arith, ltb, leb, ◌==◌, if◌then◌else◌, ==_iff, ==_refl, Bool-cases,
  Option-cases, List-cases, and-true, or-true, not-true, length, get_elem?, take, drop, replicate,
  any, every, All, length-append, length-drop, length-take_of_le, length-replicate, All-append,
  All-imp, every-All, length-map, Text, codes, texts, text_eq, text_eq_iff, text_eq_refl,
  starts_with, starts_with-append, starts_with-eq, ends_with, contains, is_space, lstrip, rstrip,
  strip, split, join, lower, mem, subset, set_eq, mem_self, mem-cons, mem-append, mem-subset,
  subset_intro, set_eq_iff, Outcome, ok, raise, ◌>>=◌, ◌>>◌, guard, >>=-eq-ok, guard-eq-ok,
  for_each,
}
pub mod Balance
pub mod Findings
use rpmz.Errdefer.Strip.{strip_noise, step}
use rpmz.Errdefer.Signature.{has_fn, has_errdefer, return_type_of}

pub data Desync : Type 0 where
  unmatched : ℕ → Desync
  unclosed : ℕ → Desync

-- (line number, return type, the line)
abbrev pub Finding : Type 0
Finding = ℕ × Text × Text

-- The top of the stack stands first.
abbrev pub Stack : Type 0
Stack = List (Option Text)

-- `fn_open`: the newest entry stands first.
unfoldable pub fn_open : ℕ → List Text → List (ℕ × Text) → List (ℕ × Text)
unfolding has_fn return_type_of
fn_open i [] found = found
fn_open i (line ∷ lines) found = fn_open (i + 1) lines (elim (has_fn line) [
  | false ↦ found
  | true ↦ elim (return_type_of i line lines) [ none ↦ found | some f ↦ f ∷ found ]
])

unfoldable pub find_open : ℕ → List (ℕ × Text) → Option Text
find_open i [] = none
find_open i ((j, t) ∷ rest) = if j == i then some t else find_open i rest

-- `next((r for r in reversed(stack) if r is not None), None)`
unfoldable pub enclosing : Stack → Option Text
enclosing [] = none
enclosing (none ∷ stack) = enclosing stack
enclosing (some r ∷ stack) = some r

abbrev error_capable : List Text
error_capable = texts ("type" ∷ "anyerror" ∷ [])

unfoldable pub is_dead : Text → Bool
unfolding contains mem
is_dead r = not (contains r (codes "!")) && not (mem r error_capable)

unfoldable pub has_open : Text → Bool
has_open [] = false
has_open (c ∷ s) = c == b'{' || has_open s

-- The loop over the columns of a line. A brace is at `line.rfind("{")` if no other stands behind it.
unfoldable pub braces : ℕ → Option Text → Text → Stack → Outcome Desync Stack
unfolding has_open
braces i opened [] stack = ok stack
braces i opened (c ∷ s) stack = elim (c == b'{') [
  | true ↦ braces i opened s ((if has_open s then none else opened) ∷ stack)
  | false ↦ elim (c == b'}') [
    | true ↦ elim stack [ [] ↦ raise (unmatched (i + 1)) | _ ∷ below ↦ braces i opened s below ]
    | false ↦ braces i opened s stack
  ]
]

-- What the line adds to the findings.
unfoldable pub report : ℕ → Text → Text → Stack → List Finding
unfolding has_errdefer enclosing is_dead strip
report i raw line stack =
    if has_errdefer line
    then elim (enclosing stack) [
      | none ↦ []
      | some r ↦ if is_dead r then (i + 1, r, strip raw) ∷ [] else []
    ]
    else []

unfoldable pub scan_lines : ℕ → List (ℕ × Text) → List Text → Stack → Outcome Desync (List Finding)
unfolding report braces find_open strip_noise
scan_lines i opens [] [] = ok []
scan_lines i opens [] (x ∷ stack) = raise (unclosed (length (x ∷ stack)))
scan_lines i opens (raw ∷ raws) stack = do
  stack' ← braces i (find_open i opens) (strip_noise raw) stack
  later ← scan_lines (i + 1) opens raws stack'
  ok (report i raw (strip_noise raw) stack ++ later)

unfoldable pub scan : Text → Outcome Desync (List Finding)
unfolding scan_lines fn_open split step
scan text =
    let raws = split b'\n' text in scan_lines 0 (fn_open 0 (map strip_noise raws) []) raws []
