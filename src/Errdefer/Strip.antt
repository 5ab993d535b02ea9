-- ===== src/Errdefer/Strip.antt =====
-- `strip_noise` of scripts/dead-errdefer-audit.py. The inner `while` over a literal is
-- `skip_literal`, which goes on with the outer loop where the literal ends.
use rpmz.Base.{
  ℕ, zero, suc, ◌+◌, ◌-◌, ◌*◌, ◌/◌, ◌%◌, ◌≤◌, ◌<◌, String, ◌≡◌, refl, sym, ap, ◌∙◌, subst, ◌≢◌, ◌↔◌,
  ◌⊎◌, inl, inr, Bool, true, false, not, ◌&&◌, ◌||◌, Option, none, some, List, [], ◌∷◌, ◌++◌, map,
  append_assoc, append-nil, arith, ltb, leb, ◌==◌, if◌then◌else◌, ==_iff, ==_refl, Bool-cases,
  Option-cases, List-cases, and-true, or-true, not-true, length, get_elem?, take, drop, replicate,
  any, every, All, length-append, length-drop, length-take_of_le, length-replicate, All-append,
  All-imp, every-All, length-map, Text, codes, texts, text_eq, text_eq_iff, text_eq_refl,
  starts_with, starts_with-append, starts_with-eq, ends_with, contains, is_space, lstrip, rstrip,
  strip, split, join, lower, mem, subset, set_eq, mem_self, mem-cons, mem-append, mem-subset,
  subset_intro, set_eq_iff, Outcome, ok, raise, ◌>>=◌, ◌>>◌, guard, >>=-eq-ok, guard-eq-ok,
  for_each,
}
pub mod Laws
pub mod Tokens

-- What the outer loop does at a character, given the one behind it.
pub data Step : Type 0 where
  stops quotes copies : Step

-- `//` and `\\` end the line's code.
unfoldable pub starts_pair : ℕ → ℕ → Text → Bool
starts_pair a c [] = false
starts_pair a c (d ∷ s) = c == a && d == a

unfoldable pub step : ℕ → Text → Step
unfolding starts_pair
step c s =
    if starts_pair b'/' c s
    then stops
    else if starts_pair b'\\' c s
    then stops
    else if c == b'"' || c == b'\''
    then quotes
    else copies

unfoldable mutual
  pub strip_noise : Text → Text
  strip_noise [] = []
  strip_noise (c ∷ s) = elim (step c s) [
    | stops ↦ []
    | quotes ↦ c ∷ c ∷ skip_literal c s
    | copies ↦ c ∷ strip_noise s
  ]

  pub skip_literal : ℕ → Text → Text
  skip_literal quote [] = []
  skip_literal quote (c ∷ []) = []
  skip_literal quote (c ∷ d ∷ s) = elim (c == b'\\') [
    | true ↦ skip_literal quote s
    | false ↦ elim (c == quote) [ true ↦ strip_noise (d ∷ s) | false ↦ skip_literal quote (d ∷ s) ]
  ]
