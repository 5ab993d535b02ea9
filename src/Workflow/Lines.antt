-- ===== src/Workflow/Lines.antt =====
-- Lines of a workflow file: `indentation`, `strip_comment`, `next_content` and `block_scalar` of
-- scripts/release-audit.py. The number of the line, which the messages quote, is left out.
use rpmz.Base.{
  ℕ, ◌+◌, Bool, true, false, not, ◌&&◌, ◌||◌, Option, none, some, List, [], ◌∷◌, ◌++◌, leb, ◌==◌,
  if◌then◌else◌, length, drop, any, Text, codes, text_eq, starts_with, ends_with, is_space, rstrip,
  strip, join, Outcome, ok, raise, ◌>>=◌, take_while,
}

pub data YamlError : Type 0 where
  tabs unexpected_indentation missing_colon invalid_key trailing_content root_not_mapping :
      YamlError
  duplicate_key bad_literal : Text → YamlError
  duplicate_list_keys : YamlError
  -- The exception of a list index out of range, and the end of the fuel.
  index_error fuel_exhausted : YamlError

-- The characters at which `str.splitlines` ends a line; a pair `\r\n` is one end.
unfoldable pub ends_line : ℕ → Bool
ends_line c =
    (leb 10 c && leb c 13)
    || ((leb 28 c && leb c 30) || (c == 0x85 || (c == 0x2028 || c == 0x2029)))

-- `text.splitlines()`, with the line read so far; `after_return` says that the last end was `\r`.
unfoldable pub lines_from : Bool → Text → Text → List Text
unfolding ends_line
lines_from after_return [] [] = []
lines_from after_return (x ∷ line) [] = (x ∷ line) ∷ []
lines_from after_return line (c ∷ s) = elim (ends_line c) [
  | false ↦ lines_from false (line ++ (c ∷ [])) s
  | true ↦ elim (after_return && c == b'\n') [
    | true ↦ lines_from false [] s
    | false ↦ line ∷ lines_from (c == b'\r') [] s
  ]
]

unfoldable pub split_lines : Text → List Text
unfolding lines_from
split_lines = lines_from false []

abbrev is_tab : ℕ → Bool
is_tab c = c == 9

abbrev is_blank : ℕ → Bool
is_blank c = c == b' '

unfoldable pub indentation : Text → Outcome YamlError ℕ
unfolding take_while is_space
indentation line =
    if any is_tab (take_while is_space line)
    then raise tabs
    else ok (length (take_while is_blank line))

-- Whether a quote is open, and whether the character before was a backslash in one.
unfoldable pub next_quote : Option ℕ → Bool → ℕ → Option ℕ × Bool
next_quote quote true c = (quote, false)
next_quote none false c = (if c == b'"' || c == b'\'' then some c else none, false)
next_quote (some q) false c =
    if q == b'"' && c == b'\\' then (some q, true) else (if q == c then none else some q, false)

unfoldable pub starts_comment : Option ℕ → Bool → Bool → ℕ → Bool
starts_comment none false true c = c == b'#'
starts_comment _ _ _ c = false

-- The text before the comment. `at_start` says that the text begins here or a blank stands before.
unfoldable pub before_comment : Option ℕ → Bool → Bool → Text → Text
unfolding next_quote starts_comment is_space
before_comment quote escaped at_start [] = []
before_comment quote escaped at_start (c ∷ s) =
    let (quote', escaped') = next_quote quote escaped c in
    let rest = before_comment quote' escaped' (is_space c) s in
    if starts_comment quote escaped at_start c then [] else c ∷ rest

unfoldable pub strip_comment : Text → Text
unfolding before_comment rstrip
strip_comment value = rstrip (before_comment none false true value)

-- Neither blank nor a comment.
unfoldable pub is_content : Text → Bool
unfolding strip starts_with
is_content line = elim (strip line) [ [] ↦ false | c ∷ s ↦ not (c == b'#') ]

-- `next_content`: the lines from the next one that has content.
unfoldable pub next_content : List Text → List Text
unfolding is_content
next_content [] = []
next_content (line ∷ lines) = if is_content line then line ∷ lines else next_content lines

-- The loop of `block_scalar`: the lines of the scalar, and the lines behind it.
unfoldable pub block_lines : ℕ → List Text → Outcome YamlError (List Text × List Text)
unfolding indentation strip
block_lines indent [] = ok ([], [])
block_lines indent (line ∷ lines) =
    let more = block_lines indent lines in
    elim (strip line) [
      | [] ↦ more >>= λ (output, rest). ok ([] ∷ output, rest)
      | _ ∷ _ ↦ indentation line >>= λ n.
          if leb n indent
          then ok ([], line ∷ lines)
          else (more >>= λ (output, rest). ok (drop (indent + 2) line ∷ output, rest))
    ]

-- `re.sub(r"(?<=\S)\n(?=\S)", " ", value)`, given the character before.
unfoldable pub fold_from : ℕ → Text → Text
unfolding is_space
fold_from before [] = []
fold_from before (c ∷ []) = c ∷ []
fold_from before (c ∷ d ∷ s) =
    (if c == b'\n' && (not (is_space before) && not (is_space d)) then b' ' else c)
    ∷ fold_from c (d ∷ s)

-- `value.rstrip("\n")`
unfoldable pub rstrip_newlines : Text → Text
rstrip_newlines [] = []
rstrip_newlines (c ∷ s) =
    let rest = rstrip_newlines s in
    elim rest [ [] ↦ if c == b'\n' then [] else c ∷ [] | d ∷ r ↦ c ∷ d ∷ r ]

unfoldable pub with_newline : Text → Text
unfolding ends_with
with_newline [] = []
with_newline (c ∷ s) = if ends_with (c ∷ s) (codes "\n") then c ∷ s else (c ∷ s) ++ codes "\n"

-- `block_scalar`; the style is `|` or `>`.
unfoldable pub block_scalar : ℕ → Text → Text → List Text → Outcome YamlError (Text × List Text)
unfolding block_lines join fold_from rstrip_newlines with_newline text_eq
block_scalar indent style chomping lines = do
  (output, rest) ← block_lines indent lines
  let value = join (codes "\n") output
  let folded = if text_eq style (codes ">") then fold_from b' ' value else value
  ok (if text_eq chomping (codes "-") then rstrip_newlines folded else with_newline folded, rest)
