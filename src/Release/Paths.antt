-- ===== src/Release/Paths.antt =====
-- `PurePosixPath` as scripts/release.py uses it, and `safe_relative`.
use rpmz.Base.{
  ℕ, zero, suc, ◌+◌, ◌-◌, ◌*◌, ◌/◌, ◌%◌, ◌≤◌, ◌<◌, String, ◌≡◌, refl, sym, ap, ◌∙◌, subst, ◌≢◌, ◌↔◌,
  ◌⊎◌, inl, inr, Bool, true, false, not, ◌&&◌, ◌||◌, Option, none, some, List, [], ◌∷◌, ◌++◌, map,
  append_assoc, append-nil, arith, ltb, leb, ◌==◌, if◌then◌else◌, ==_iff, ==_refl, Bool-cases,
  Option-cases, List-cases, and-true, or-true, not-true, length, get_elem?, take, drop, replicate,
  any, every, All, In, here, there, In-cons, not-In-nil, In-append_left, In-append_right,
  In-append_cases, length-append, length-drop, length-take_of_le, length-replicate,
  take-append-drop, if-cases, All-append, All-imp, every-All, length-map, Text, codes, texts,
  text_eq, text_eq_iff, text_eq_refl, starts_with, starts_with-append, starts_with-eq, ends_with,
  contains, is_space, lstrip, rstrip, strip, split, join, lower, mem, subset, set_eq, mem_self,
  mem-cons, mem-append, mem-subset, subset_intro, set_eq_iff, Outcome, ok, raise, ◌>>=◌, ◌>>◌,
  guard, >>=-eq-ok, guard-eq-ok, for_each, then-eq-ok, >>-eq-ok, for_each-In, is_digit, is_word,
  starts_name, is_hex, drop_while, take_while, take_while-append-drop_while, after, word_ends,
  search, find_all, is_some, match_word, expand,
}
pub mod Below
pub mod Resolves

-- A path: its root (empty, `/` or `//`) and its parts without the root.
pub record PurePath : Type 0 where
  pub root : Text
  pub parts : List Text

abbrev slash : Text
slash = codes "/"

unfoldable pub root_of : Text → Text
unfolding starts_with
root_of t =
    if not (starts_with t (codes "/"))
    then []
    else if starts_with t (codes "//") && not (starts_with t (codes "///"))
    then codes "//"
    else codes "/"

-- The parts that a path keeps: not the empty ones and not `.`.
unfoldable pub kept : List Text → List Text
unfolding text_eq
kept [] = []
kept (s ∷ ss) =
    let rest = kept ss in if text_eq s [] || text_eq s (codes ".") then rest else s ∷ rest

-- `PurePosixPath(text)`
unfoldable pub pure_path : Text → PurePath
unfolding root_of kept split
pure_path t = record { root = root_of t; parts = kept (split b'/' t) }

unfoldable pub is_absolute : PurePath → Bool
unfolding text_eq
is_absolute p = not (text_eq p.root [])

-- `str(path)`, `path.as_posix()`
unfoldable pub as_posix : PurePath → Text
unfolding join text_eq
as_posix p = let t = p.root ++ join slash p.parts in if text_eq t [] then codes "." else t

-- `left / right`, where an absolute path replaces what stands before it.
unfoldable pub joined : PurePath → PurePath → PurePath
unfolding is_absolute
joined l r = if is_absolute r then r else record { root = l.root; parts = l.parts ++ r.parts }

unfoldable pub all_but_last : List Text → List Text
all_but_last [] = []
all_but_last (s ∷ []) = []
all_but_last (s ∷ t ∷ ss) = s ∷ all_but_last (t ∷ ss)

unfoldable pub last_part : List Text → Text
last_part [] = []
last_part (s ∷ []) = s
last_part (s ∷ t ∷ ss) = last_part (t ∷ ss)

-- `path.parent` and `path.name`
unfoldable pub parent : PurePath → PurePath
unfolding all_but_last
parent p = record { root = p.root; parts = all_but_last p.parts }

unfoldable pub file_name : PurePath → Text
unfolding last_part
file_name p = last_part p.parts

unfoldable pub same_parts : List Text → List Text → Bool
unfolding text_eq
same_parts [] [] = true
same_parts (x ∷ xs) (y ∷ ys) = text_eq x y && same_parts xs ys
same_parts _ _ = false

-- `left == right`
unfoldable pub same_path : PurePath → PurePath → Bool
unfolding text_eq same_parts
same_path l r = text_eq l.root r.root && same_parts l.parts r.parts

-- `value.parts and value.parts[0] not in ("", ".")`
unfoldable pub first_is_named : List Text → Bool
unfolding mem
first_is_named [] = false
first_is_named (s ∷ ss) = not (mem s (texts ("" ∷ "." ∷ [])))

unfoldable pub safe_relative : Text → Bool
unfolding pure_path is_absolute mem first_is_named
safe_relative t =
    let value = pure_path t in
    not (is_absolute value) && (not (mem (codes "..") value.parts) && first_is_named value.parts)
