-- ===== src/Closure/Worklist.antt =====
-- The loop over `pending` in `extract_dependency_closure` and `provide_system_packages`, over what a
-- package's visit does and what it adds to the list.
use rpmz.Base.{
  ℕ, zero, suc, ◌+◌, ◌-◌, ◌*◌, ◌/◌, ◌%◌, ◌≤◌, ◌<◌, String, ◌≡◌, refl, sym, ap, ◌∙◌, subst, ◌≢◌, ◌↔◌,
  ◌⊎◌, inl, inr, Bool, true, false, not, ◌&&◌, ◌||◌, Option, none, some, List, [], ◌∷◌, ◌++◌, map,
  append_assoc, append-nil, arith, ltb, leb, ◌==◌, if◌then◌else◌, ==_iff, ==_refl, Bool-cases,
  Option-cases, List-cases, and-true, or-true, not-true, length, get_elem?, take, drop, replicate,
  any, every, All, In, here, there, In-cons, not-In-nil, In-append_left, In-append_right,
  In-append_cases, length-append, length-drop, length-take_of_le, length-replicate,
  take-append-drop, if-cases, All-append, All-imp, every-All, length-map, Text, codes, texts,
  text_eq, text_eq_iff, text_eq_refl, starts_with, starts_with-append, starts_with-eq, ends_with,
  contains, is_space, lstrip, rstrip, strip, split, join, lower, mem, subset, set_eq, mem_self,
  mem-cons, mem-append, mem-subset, subset_intro, set_eq_iff, Outcome, ok, raise, ◌>>=◌, ◌>>◌,
  guard, >>=-eq-ok, guard-eq-ok, for_each, then-eq-ok, >>-eq-ok, for_each-In, is_digit, is_word,
  starts_name, is_hex, drop_while, take_while, take_while-append-drop_while, after, word_ends,
  search, find_all, is_some, match_word, expand,
}
pub mod Reach
pub mod Ends

pub data Fault : Type 0 where
  libsolv_requested : Fault
  missing_package missing_requirement missing_hash : Text → Fault
  no_packages : Fault

-- A package is extracted, passed over, or an exception.
pub data Visit : Type 0 where
  takes skips : Visit
  fails : Fault → Visit

-- `pending.extend(xs)`; the top of the list is its end.
unfoldable pub push : List Text → List Text → List Text
push [] pending = pending
push (x ∷ xs) pending = push xs (x ∷ pending)

pub mem-push :
    (x : Text) (xs pending : List Text) → mem x (push xs pending) ≡ (mem x xs || mem x pending)
unfolding push mem
mem-push x [] pending = refl
mem-push x (y ∷ ys) pending = ground (arith, mem-push x ys (y ∷ pending))

pub length-push : (xs pending : List Text) → length (push xs pending) ≡ length xs + length pending
unfolding push
length-push [] pending = omega arith
length-push (x ∷ xs) pending = omega (arith, length-push xs (x ∷ pending))

-- `added provided h` are the hashes put on the list for `h`. None: the fuel has run out.
module _ (visit : Text → Visit) (added : List Text → Text → List Text) where
  unfoldable pub loop : ℕ → List Text → List Text → Option (Outcome Fault (List Text))
  unfolding push mem
  loop zero pending provided = none
  loop (suc fuel) [] provided = some (ok provided)
  loop (suc fuel) (h ∷ pending) provided = elim (mem h provided) [
    | true ↦ loop fuel pending provided
    | false ↦ elim (visit h) [
      | skips ↦ loop fuel pending provided
      | fails e ↦ some (raise e)
      | takes ↦ loop fuel (push (added (h ∷ provided) h) pending) (h ∷ provided)
    ]
  ]
