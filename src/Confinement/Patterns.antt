-- ===== src/Confinement/Patterns.antt =====
-- The patterns of scripts/replay-confinement-audit.py, from a start on.
use rpmz.Base.{
  ℕ, zero, suc, ◌+◌, ◌-◌, Bool, not, ◌&&◌, Option, none, some, List, [], ◌∷◌, ◌++◌, map, ◌==◌,
  if◌then◌else◌, length, Text, codes, starts_with, is_space, lower, mem, is_word, starts_name,
  drop_while, take_while, after, word_ends,
}
use rpmz.Confinement.Policy.{socket_symbols}

infixl 5 ◌▷◌
-- The next part of a pattern, on what the first part leaves.
abbrev pub ◌▷◌ : Option Text → (Text → Option Text) → Option Text
none ▷ f = none
some s ▷ f = f s

-- `\s*` and `\s+`
unfoldable pub spaces : Text → Option Text
unfolding drop_while is_space
spaces s = some (drop_while is_space s)

unfoldable pub spaces1 : Text → Option Text
unfolding drop_while is_space
spaces1 [] = none
spaces1 (c ∷ s) = if is_space c then some (drop_while is_space s) else none

-- `(.*?)\n\};` with `re.S`: the shortest text in front of such an end
unfoldable pub body_until : Text → Option Text
unfolding starts_with
body_until [] = none
body_until (c ∷ s) =
    let rest = body_until s in
    if starts_with (c ∷ s) (codes "\n};")
    then some []
    else elim rest [ none ↦ none | some b ↦ some (c ∷ b) ]

-- `\bpub\s+const\s+NAME\s*=\s*struct\s*\{(.*?)\n\};`, giving the group
unfoldable pub match_struct : Text → Bool → Text → Option Text
unfolding after spaces spaces1 body_until
match_struct name after_word s =
    if after_word
    then none
    else after (codes "pub") s
      ▷ spaces1
      ▷ after (codes "const")
      ▷ spaces1
      ▷ after name
      ▷ spaces
      ▷ after (codes "=")
      ▷ spaces
      ▷ after (codes "struct")
      ▷ spaces
      ▷ after (codes "{")
      ▷ body_until

-- `^\s*([A-Za-z_][A-Za-z0-9_]*)\s*:` at the start of a line: the name and the size of the match
unfoldable pub match_field : Text → Option (Text × ℕ)
unfolding drop_while take_while is_space starts_name is_word
match_field s = elim (drop_while is_space s) [
  | [] ↦ none
  | c ∷ t ↦
      let name = take_while is_word (c ∷ t) in
      let rest = drop_while is_word (c ∷ t) in
      if starts_name c
      then elim (drop_while is_space rest) [
        | [] ↦ none
        | d ∷ _ ↦
            if d == b':'
            then some (
              name,
              length (take_while is_space s) + length name + length (take_while is_space rest) + 1,
            )
            else none
      ]
      else none
]

-- `re.findall` of it with `(?m)`; the flag says that a line starts here.
unfoldable pub fields_from : ℕ → Bool → Text → List Text
unfolding match_field
fields_from skip line_start [] = []
fields_from (suc skip) line_start (c ∷ s) = fields_from skip (c == b'\n') s
fields_from zero line_start (c ∷ s) = elim (if line_start then match_field (c ∷ s) else none) [
  | none ↦ fields_from 0 (c == b'\n') s
  | some (name, n) ↦ name ∷ fields_from (n - 1) (c == b'\n') s
]

-- `\b[A-Za-z_][A-Za-z0-9_]*\b` and its `re.findall`
unfoldable pub match_identifier : Bool → Text → Option (Text × ℕ)
unfolding starts_name take_while is_word
match_identifier after_word [] = none
match_identifier after_word (c ∷ s) =
    if not after_word && starts_name c
    then some (take_while is_word (c ∷ s), length (take_while is_word (c ∷ s)))
    else none

-- `re.findall` of `\bOWNER\.([A-Za-z_][A-Za-z0-9_]*)`
unfoldable pub match_member : Text → Bool → Text → Option (Text × ℕ)
unfolding after starts_name take_while is_word
match_member owner after_word s = if after_word then none else elim (after (owner ++ codes ".") s) [
  | none ↦ none
  | some [] ↦ none
  | some (c ∷ rest) ↦
      if starts_name c
      then some
          (take_while is_word (c ∷ rest), length owner + 1 + length (take_while is_word (c ∷ rest)))
      else none
]

-- `@NAME\s*\(`
unfoldable pub match_builtin : Text → Bool → Text → Option Text
unfolding after spaces
match_builtin name after_word s = after (codes "@" ++ name) s ▷ spaces ▷ after (codes "(")

-- `\.\s*MEMBER\b`
unfoldable pub match_dot_member : Text → Bool → Text → Option (Unit {0})
unfolding after spaces word_ends
match_dot_member member after_word s = elim (after (codes ".") s ▷ spaces ▷ after member) [
  | none ↦ none
  | some rest ↦ if word_ends rest then some tt else none
]

-- `re.fullmatch` with `re.IGNORECASE` for a pattern given by the texts that it matches
unfoldable pub matches_any : List Text → Text → Bool
unfolding mem lower
matches_any symbols token = mem (lower token) (map lower symbols)

-- `\bextern\s+(?:\"\"\s+)?fn\s+SYMBOL\b` with `re.IGNORECASE`. The word behind `fn` is maximal, so
-- that the symbol is all of it.
unfoldable pub match_extern : Bool → Text → Option (Unit {0})
unfolding lower after spaces1 take_while is_word matches_any
match_extern after_word s =
    elim (if after_word then none else after (codes "extern") (lower s) ▷ spaces1) [
      | none ↦ none
      | some rest ↦
          let direct = after (codes "fn") rest ▷ spaces1 in
          let quoted = after (codes "\"\"") rest ▷ spaces1 ▷ after (codes "fn") ▷ spaces1 in
          let found : Option Text = elim direct [ none ↦ quoted | some t ↦ some t ] in
          elim found [
            | none ↦ none
            | some t ↦ if matches_any socket_symbols (take_while is_word t) then some tt else none
          ]
    ]
