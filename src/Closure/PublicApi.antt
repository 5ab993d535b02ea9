-- ===== src/Closure/PublicApi.antt =====
-- `pinned_hashes` and `provide_system_packages` of scripts/public-zig-api-audit.py: the packages a consumer
-- of the public API is given, taken from `zig-pkg/`.
use rpmz.Base.{
  ℕ, zero, suc, ◌+◌, ◌-◌, ◌*◌, ◌/◌, ◌%◌, ◌≤◌, ◌<◌, String, ◌≡◌, refl, sym, ap, ◌∙◌, subst, ◌≢◌, ◌↔◌,
  ◌⊎◌, inl, inr, Bool, true, false, not, ◌&&◌, ◌||◌, Option, none, some, List, [], ◌∷◌, ◌++◌, map,
  append_assoc, append-nil, arith, ltb, leb, ◌==◌, if◌then◌else◌, ==_iff, ==_refl, Bool-cases,
  Option-cases, List-cases, and-true, or-true, not-true, length, get_elem?, take, drop, replicate,
  any, every, All, In, here, there, In-cons, not-In-nil, In-append_left, In-append_right,
  In-append_cases, length-append, length-drop, length-take_of_le, length-replicate,
  take-append-drop, if-cases, All-append, All-imp, every-All, length-map, Text, codes, texts,
  text_eq, text_eq_iff, text_eq_refl, starts_with, starts_with-append, starts_with-eq, ends_with,
  contains, is_space, lstrip, rstrip, strip, split, join, lower, mem, subset, set_eq, mem_self,
  mem-cons, mem-append, mem-subset, subset_intro, set_eq_iff, Outcome, ok, raise, ◌>>=◌, ◌>>◌,
  guard, >>=-eq-ok, guard-eq-ok, for_each, then-eq-ok, >>-eq-ok, for_each-In, is_digit, is_word,
  starts_name, is_hex, drop_while, take_while, take_while-append-drop_while, after, word_ends,
  search, find_all, is_some, match_word, expand,
}
pub mod Provides
use rpmz.Closure.Worklist.{
  Fault, no_packages, missing_package, missing_requirement, Visit, takes, skips, fails, push,
  mem-push, length-push, loop,
}
use rpmz.Closure.Worklist.Reach.{Reaches, AddsPins, loop-Reaches}
use rpmz.Closure.Worklist.Ends.{pins_left, loop-ends}
use rpmz.Closure.Pins.{pins_in}

-- A checkout: whether `zig-pkg/` is there, the text of `build.zig.zon`, which hashes are a directory of
-- `zig-pkg/`, and the `build.zig.zon` of each, where it has one.
pub record Checkout : Type 0 where
  pub has_zig_pkg : Bool
  pub root_manifest : Option Text
  pub is_dir : Text → Bool
  pub package_manifest : Text → Option Text

-- `set(xs)`
unfoldable pub distinct : List Text → List Text
unfolding mem
distinct [] = []
distinct (x ∷ xs) = let rest = distinct xs in if mem x xs then rest else x ∷ rest

unfoldable pub pinned_hashes : Option Text → List Text
unfolding distinct pins_in
pinned_hashes none = []
pinned_hashes (some text) = distinct (pins_in text)

-- `xs - ys` of two sets
unfoldable pub minus : List Text → List Text → List Text
unfolding mem
minus [] ys = []
minus (x ∷ xs) ys = let rest = minus xs ys in if mem x ys then rest else x ∷ rest

unfoldable pub visit_entry : Checkout → Text → Visit
unfolding starts_with
visit_entry c h =
    if c.is_dir h
    then takes
    else if starts_with h (codes "libsolv-")
    then skips
    else fails (missing_package h)

unfoldable pub pins_of : Checkout → Text → List Text
unfolding pinned_hashes
pins_of c h = pinned_hashes (c.package_manifest h)

unfoldable pub pins_to_add : Checkout → List Text → Text → List Text
unfolding minus pins_of
pins_to_add c provided h = minus (pins_of c h) provided

abbrev pub required_dependency_names : List Text
required_dependency_names = texts ("sqlite" ∷ "tls" ∷ "zlua" ∷ [])

unfoldable pub is_provided : Text → List Text → Bool
unfolding starts_with
is_provided name provided = any (λ entry. starts_with entry (name ++ codes "-")) provided

unfoldable pub require_names : List Text → List Text → Outcome Fault (Unit {0})
unfolding is_provided
require_names names provided =
    for_each (λ name. guard (is_provided name provided) (missing_requirement name)) names

-- The loop over the required names, behind the loop over the list.
unfoldable pub require_after :
    Option (Outcome Fault (List Text)) → Option (Outcome Fault (List Text))
unfolding require_names
require_after none = none
require_after (some (raise e)) = some (raise e)
require_after (some (ok provided)) =
    some (require_names required_dependency_names provided >> ok provided)

-- `provide_system_packages`
unfoldable pub provide_system_packages : Checkout → ℕ → Option (Outcome Fault (List Text))
unfolding push loop visit_entry pins_to_add pinned_hashes require_after
provide_system_packages c fuel =
    if c.has_zig_pkg
    then require_after
        (loop (visit_entry c) (pins_to_add c) fuel (push (pinned_hashes c.root_manifest) []) [])
    else some (raise no_packages)
