-- ===== src/Closure/Pins.antt =====
-- The dependency hashes that a `build.zig.zon` pins: the pattern `\.hash\s*=\s*"([^"]+)"`, and the hash
-- of each product dependency.
use rpmz.Base.{
  ℕ, ◌-◌, Bool, false, not, Option, none, some, List, [], ◌∷◌, ◌++◌, ◌==◌, length, Text, codes,
  texts, is_space, Outcome, ok, raise, ◌>>=◌, drop_while, take_while, after, search, find_all,
}
use rpmz.Closure.Worklist.{Fault, missing_hash}

infixl 1 ◌▷◌
abbrev pub ◌▷◌ {ℓ κ} : {A : Type ℓ} {B : Type κ} → Option A → (A → Option B) → Option B
none ▷ f = none
some a ▷ f = f a

abbrev not_quote : ℕ → Bool
not_quote c = not (c == 34)

-- `"([^"]+)"` and the text behind it
unfoldable pub match_quoted : Text → Option (Text × Text)
unfolding after drop_while take_while
match_quoted s = after (codes "\"") s ▷ λ body.
    let value = take_while not_quote body in
    elim value [
      | [] ↦ none
      | c ∷ cs ↦ after (codes "\"") (drop_while not_quote body) ▷ λ rest. some (c ∷ cs, rest)
    ]

-- `\.hash\s*=\s*"([^"]+)"`, with the number of characters matched
unfoldable pub match_hash : Text → Option (Text × ℕ)
unfolding after drop_while match_quoted
match_hash s = after (codes ".hash") s ▷ λ a. after (codes "=") (drop_while is_space a) ▷ λ b.
    match_quoted (drop_while is_space b) ▷ λ (value, rest). some (value, length s - length rest)

-- `re.findall(r'\.hash\s*=\s*"([^"]+)"', text)`
unfoldable pub pins_in : Text → List Text
unfolding find_all match_hash
pins_in = find_all (λ _. match_hash) 0 false

-- `\.NAME\s*=\s*\.\{.*?\.hash\s*=\s*"([^"]+)"`
unfoldable pub match_dependency : Text → Text → Option Text
unfolding after drop_while search match_hash
match_dependency name s = after (codes "." ++ name) s ▷ λ a.
    after (codes "=") (drop_while is_space a) ▷ λ b.
    after (codes ".{") (drop_while is_space b) ▷ λ c.
    search (λ _. match_hash) false c ▷ λ (value, _). some value

abbrev pub product_dependencies : List Text
product_dependencies = texts ("sqlite" ∷ "tls" ∷ "zlua" ∷ "translate_c" ∷ [])

-- The values of the dictionary, in its order.
unfoldable pub dependency_hashes : Text → List Text → Outcome Fault (List Text)
unfolding search match_dependency
dependency_hashes text [] = ok []
dependency_hashes text (name ∷ names) = elim (search (λ _. match_dependency name) false text) [
  | none ↦ raise (missing_hash name)
  | some value ↦ dependency_hashes text names >>= λ values. ok (value ∷ values)
]
