-- ===== src/Base/Patterns.antt =====
-- Python's `re` as far as the scripts use it: matchers that walk a text once, for patterns that never
-- need to backtrack, and the search for the first match and for all matches. `\w` and `\b` are read
-- over the ASCII word characters.
use mathlib.Core.Path.{◌≡◌, refl, ap}
use Prim.Native.Nat.{ℕ, zero, suc, ◌-◌}
use mathlib.Core.Bool.{Bool, true, false, not, ◌&&◌, ◌||◌}
use mathlib.Core.List.{List, [], ◌∷◌, ◌++◌}
use mathlib.Core.Option.{Option, none, some}
use rpmz.Base.Tests.{leb, ◌==◌, if◌then◌else◌}
use rpmz.Base.Lists.{length, drop}
use rpmz.Base.Strings.{Text, starts_with}

abbrev is_letter : ℕ → Bool
is_letter c = (leb b'a' c && leb c b'z') || (leb b'A' c && leb c b'Z')

abbrev pub is_digit : ℕ → Bool
is_digit c = leb b'0' c && leb c b'9'

-- `\w`
unfoldable pub is_word : ℕ → Bool
is_word c = is_letter c || is_digit c || c == b'_'

-- `[A-Za-z_]`
unfoldable pub starts_name : ℕ → Bool
starts_name c = is_letter c || c == b'_'

unfoldable pub is_hex : ℕ → Bool
is_hex c = is_digit c || (leb b'a' c && leb c b'f') || (leb b'A' c && leb c b'F')

unfoldable pub drop_while : (ℕ → Bool) → Text → Text
drop_while p [] = []
drop_while p (c ∷ s) = if p c then drop_while p s else c ∷ s

unfoldable pub take_while : (ℕ → Bool) → Text → Text
take_while p [] = []
take_while p (c ∷ s) = if p c then c ∷ take_while p s else []

pub take_while-append-drop_while : (p : ℕ → Bool) (s : Text) → take_while p s ++ drop_while p s ≡ s
unfolding take_while drop_while
take_while-append-drop_while p [] = refl
take_while-append-drop_while p (c ∷ s) = go (p c) (take_while-append-drop_while p s)
  where
    go :
        (b : Bool)
        → take_while p s ++ drop_while p s ≡ s
        → (if b then c ∷ take_while p s else []) ++ (if b then drop_while p s else c ∷ s) ≡ c ∷ s
    go true e = ap (◌∷◌ c) e
    go false e = refl

-- The text behind a literal that it begins with.
unfoldable pub after : Text → Text → Option Text
after [] s = some s
after (p ∷ ps) [] = none
after (p ∷ ps) (c ∷ s) = if c == p then after ps s else none

-- `\b` behind a word character
unfoldable pub word_ends : Text → Bool
unfolding is_word
word_ends [] = true
word_ends (c ∷ s) = not (is_word c)

-- `re.search(m, s)` for a matcher `m`. The flag says that a word character stands before the text.
unfoldable pub search {ℓ} : {A : Type ℓ} → (Bool → Text → Option A) → Bool → Text → Option A
unfolding is_word
search m after_word [] = none
search m after_word (c ∷ s) =
    let later = search m (is_word c) s in
    elim (m after_word (c ∷ s)) [ none ↦ later | some a ↦ some a ]

-- `re.findall(m, s)`: the matcher gives a value and the number of characters matched, which is
-- not 0. The first number counts the characters to pass over, those of the last match.
unfoldable pub find_all {ℓ} :
    {A : Type ℓ} → (Bool → Text → Option (A × ℕ)) → ℕ → Bool → Text → List A
unfolding is_word
find_all m skip after_word [] = []
find_all m (suc skip) after_word (c ∷ s) = find_all m skip (is_word c) s
find_all m zero after_word (c ∷ s) = elim (m after_word (c ∷ s)) [
  | none ↦ find_all m 0 (is_word c) s
  | some (a, n) ↦ a ∷ find_all m (n - 1) (is_word c) s
]

abbrev pub is_some {ℓ} : {A : Type ℓ} → Option A → Bool
is_some none = false
is_some (some _) = true

-- `\bword\b`
unfoldable pub match_word : Text → Bool → Text → Option (Unit {0})
unfolding starts_with word_ends
match_word word after_word s =
    if not after_word && (starts_with s word && word_ends (drop (length word) s))
    then some tt
    else none

-- every choice of one text from each list, joined: the finite language of a sequence of alternatives
unfoldable pub expand : List (List Text) → List Text
expand [] = [] ∷ []
expand (alternatives ∷ rest) = products alternatives (expand rest)
  where
    with_prefix : Text → List Text → List Text
    with_prefix p [] = []
    with_prefix p (t ∷ ts) = (p ++ t) ∷ with_prefix p ts

    products : List Text → List Text → List Text
    products [] ts = []
    products (p ∷ ps) ts = with_prefix p ts ++ products ps ts
