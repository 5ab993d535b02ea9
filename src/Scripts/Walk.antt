-- ===== src/Scripts/Walk.antt =====
-- `ast.walk` of scripts/release-audit.py, with the dict of parents that stands beside it.
use rpmz.Base.{
  ℕ, zero, suc, ◌+◌, ◌-◌, ◌*◌, ◌/◌, ◌%◌, ◌≤◌, ◌<◌, String, ◌≡◌, refl, sym, ap, ◌∙◌, subst, ◌≢◌, ◌↔◌,
  ◌⊎◌, inl, inr, Bool, true, false, not, ◌&&◌, ◌||◌, Option, none, some, List, [], ◌∷◌, ◌++◌, map,
  append_assoc, append-nil, arith, ltb, leb, ◌==◌, if◌then◌else◌, ==_iff, ==_refl, Bool-cases,
  Option-cases, List-cases, and-true, or-true, not-true, length, get_elem?, take, drop, replicate,
  any, every, All, In, here, there, In-cons, not-In-nil, In-append_left, In-append_right,
  In-append_cases, length-append, length-drop, length-take_of_le, length-replicate,
  take-append-drop, if-cases, All-append, All-imp, every-All, length-map, Text, codes, texts,
  text_eq, text_eq_iff, text_eq_refl, starts_with, starts_with-append, starts_with-eq, ends_with,
  contains, is_space, lstrip, rstrip, strip, split, join, lower, mem, subset, set_eq, mem_self,
  mem-cons, mem-append, mem-subset, subset_intro, set_eq_iff, Outcome, ok, raise, ◌>>=◌, ◌>>◌,
  guard, >>=-eq-ok, guard-eq-ok, for_each, then-eq-ok, >>-eq-ok, for_each-In, for_each-All,
  for_each-guard, for_each_intro, is_digit, is_word, starts_name, is_hex, drop_while, cut,
  take_while, take_while-append-drop_while, after, word_ends, search, find_all, is_some, match_word,
  expand,
}
pub mod Reaches
use rpmz.Scripts.Syntax.{
  Label, call, module_body, function, Tree, node, Forest, none_left, tree, label, trees, children,
}

-- A node with its number among its siblings and its ancestors, the nearest one first.
abbrev pub Located : Type 0
Located = Tree × ℕ × List Tree

-- The children of a node, located.
unfoldable pub below_from : List Tree → ℕ → List Tree → List Located
below_from ancestors i [] = []
below_from ancestors i (t ∷ ts) = (t, i, ancestors) ∷ below_from ancestors (suc i) ts

unfoldable pub below : Located → List Located
unfolding below_from
below (t, i, ancestors) = below_from (t ∷ ancestors) 0 (children t)

unfoldable pub next_level : List Located → List Located
unfolding below
next_level [] = []
next_level (x ∷ xs) = below x ++ next_level xs

-- `ast.walk` goes level by level.
unfoldable pub levels : ℕ → List Located → List Located
unfolding next_level
levels zero xs = []
levels (suc n) xs = xs ++ levels n (next_level xs)

-- The number of levels of a tree.
unfoldable mutual
  pub depth : Tree → ℕ
  depth (node l ts) = suc (deepest ts)

  pub deepest : Forest → ℕ
  deepest none_left = 0
  deepest (tree t ts) = if leb (depth t) (deepest ts) then deepest ts else depth t

unfoldable pub walk : Tree → List Located
unfolding levels depth
walk t = levels (depth t) ((t, 0, []) ∷ [])

-- `parents.get(node)`
unfoldable pub parent : Located → Option Tree
parent (t, i, []) = none
parent (t, i, p ∷ ancestors) = some p

-- `isinstance(parents.get(node), ast.Module)`
unfoldable pub is_top : Located → Bool
is_top (t, i, node module_body ts ∷ ancestors) = true
is_top _ = false

-- `isinstance(parents.get(node), ast.Call) and parents[node].func is node`
unfoldable pub is_called : Located → Bool
is_called (t, zero, node call ts ∷ ancestors) = true
is_called _ = false

-- `enclosing_function`
unfoldable pub enclosing_function : List Tree → Option Text
enclosing_function [] = none
enclosing_function (node (function f) ts ∷ ancestors) = some f
enclosing_function (_ ∷ ancestors) = enclosing_function ancestors
