-- ===== src/Scripts/Walk/Reaches.antt =====
-- The walk visits exactly the nodes of the tree, each with its ancestors.
use rpmz.Base.{
  ℕ, zero, suc, ◌+◌, ◌≤◌, ◌<◌, ◌≡◌, refl, sym, ap, ◌∙◌, subst, ◌↔◌, inl, inr, Bool, true, false,
  Option, some, List, [], ◌∷◌, get_elem?, arith, leb, if◌then◌else◌, In, here, there, In-cons,
  not-In-nil, In-append_left, In-append_right, In-append_cases,
}
use rpmz.Scripts.Syntax.{Tree, node, Forest, none_left, tree, trees, children}
use rpmz.Scripts.Walk.{Located, below_from, below, next_level, levels, depth, deepest, walk}

-- The places of a tree: the root, and with a node at a place its child of each index, whose ancestors are the
-- node and those of the node.
pub data Descends (root : Tree) : Located → Type 0 where
  at_root : Descends root (root, 0, [])
  at_child :
      {t child : Tree} {i : ℕ} {ancestors : List Tree}
      → Descends root (t, i, ancestors)
      → (j : ℕ) → get_elem? (children t) j ≡ some child
      → Descends root (child, j, t ∷ ancestors)

below_from-get_elem? :
    (ancestors ts : List Tree) (i : ℕ) (x : Located)
    → In x (below_from ancestors i ts)
    → (j : ℕ) × (x ≡ (x.0, i + j, ancestors)) × (get_elem? ts j ≡ some x.0)
unfolding below_from
below_from-get_elem? ancestors [] i x m = absurd (not-In-nil m)
below_from-get_elem? ancestors (t ∷ ts) i x m = elim (In-cons m) [
  | inl e ↦ (0, ground (arith, e), ap (λ z. some z.0) (sym e))
  | inr n ↦
      let (j, p, q) = below_from-get_elem? ancestors ts (suc i) x n in
      (suc j, p ∙ ap (λ k. (x.0, k, ancestors)) (omega arith), q)
]

get_elem?-below_from :
    (ancestors ts : List Tree) (i j : ℕ) (child : Tree)
    → get_elem? ts j ≡ some child
    → In (child, i + j, ancestors) (below_from ancestors i ts)
unfolding below_from
get_elem?-below_from ancestors [] i j child h = cc
get_elem?-below_from ancestors (t ∷ ts) i zero child h = here (first h)
  where
    first :
        ◌≡◌ {A = Option Tree} (some t) (some child)
        → ◌≡◌ {A = Located} (child, i + 0, ancestors) (t, i, ancestors)
    first e = ap (λ k. (child, k, ancestors)) (omega arith) ∙ ap (λ z. (z, i, ancestors)) (cc e)
get_elem?-below_from ancestors (t ∷ ts) i (suc j) child h = there (
    subst (λ k. In (child, k, ancestors) (below_from ancestors (suc i) ts)) (shift i j)
      (get_elem?-below_from ancestors ts (suc i) j child h))
  where
    shift : (m n : ℕ) → suc m + n ≡ m + suc n
    shift m n = omega arith

-- A child of a node, as `below` lists them, stands one step further down.
below-Descends : (root : Tree) (x y : Located) → Descends root x → In y (below x) → Descends root y
unfolding below
below-Descends root (t, i, ancestors) y d m =
    let (j, p, q) = below_from-get_elem? (t ∷ ancestors) (children t) 0 y m in
    subst (Descends root) (sym (p ∙ ap (λ k. (y.0, k, t ∷ ancestors)) (from_zero j)))
      (at_child d j q)
  where
    from_zero : (n : ℕ) → 0 + n ≡ n
    from_zero n = omega arith

depth-below_from :
    (ts : Forest) (i : ℕ) (ancestors : List Tree) (x : Located)
    → In x (below_from ancestors i (trees ts))
    → depth x.0 ≤ deepest ts
unfolding below_from depth
depth-below_from none_left i ancestors x m = absurd (not-In-nil m)
depth-below_from (tree t ts) i ancestors x m = elim (In-cons m) [
  | inl e ↦ go (leb (depth t) (deepest ts)) refl (ap (λ y. depth y.0) e)
  | inr n ↦ further (leb (depth t) (deepest ts)) refl (depth-below_from ts (suc i) ancestors x n)
]
  where
    go :
        (b : Bool)
        → leb (depth t) (deepest ts) ≡ b
        → depth x.0 ≡ depth t
        → depth x.0 ≤ (if b then deepest ts else depth t)
    go true e f = ground arith
    go false e f = ground arith

    further :
        (b : Bool)
        → leb (depth t) (deepest ts) ≡ b
        → depth x.0 ≤ deepest ts
        → depth x.0 ≤ (if b then deepest ts else depth t)
    further true e h = h
    further false e h = ground arith

-- A child is less deep.
depth-below : (x y : Located) → In y (below x) → depth y.0 < depth x.0
unfolding depth below below_from
depth-below (node l ts, i, ancestors) y m =
    omega (arith, depth-below_from ts 0 (node l ts ∷ ancestors) y m)

In-next_level :
    (xs : List Located) (x y : Located) → In x xs → In y (below x) → In y (next_level xs)
unfolding next_level
In-next_level [] x y m n = absurd (not-In-nil m)
In-next_level (z ∷ xs) x y m n = elim (In-cons m) [
  | inl e ↦ In-append_left (next_level xs) (subst (λ w. In y (below w)) e n)
  | inr k ↦ In-append_right (below z) (In-next_level xs x y k n)
]

next_level-In :
    (xs : List Located) (y : Located)
    → In y (next_level xs)
    → (x : Located) × In x xs × In y (below x)
unfolding next_level
next_level-In [] y m = absurd (not-In-nil m)
next_level-In (z ∷ xs) y m = elim (In-append_cases (below z) m) [
  | inl n ↦ (z, here refl, n)
  | inr n ↦ let (x, k, l) = next_level-In xs y n in (x, there k, l)
]

-- No tree of the level is deeper than the fuel.
abbrev Fits : ℕ → List Located → Type 0
Fits n xs = (x : Located) → In x xs → depth x.0 ≤ n

next_level-Fits : (n : ℕ) (xs : List Located) → Fits (suc n) xs → Fits n (next_level xs)
next_level-Fits n xs fits y m =
    let (x, k, l) = next_level-In xs y m in omega (arith, fits x k, depth-below x y l)

depth-positive : (t : Tree) → 0 < depth t
unfolding depth
depth-positive (node l ts) = omega arith

In-levels : (n : ℕ) (xs : List Located) (x : Located) → Fits n xs → In x xs → In x (levels n xs)
unfolding levels
In-levels zero xs x fits m = absurd (omega (arith, fits x m, depth-positive x.0))
In-levels (suc n) xs x fits m = In-append_left (levels n (next_level xs)) m

-- The levels hold the children of each node that they hold.
levels-below :
    (n : ℕ) (xs : List Located) (x y : Located)
    → Fits n xs
    → In x (levels n xs)
    → In y (below x)
    → In y (levels n xs)
unfolding levels
levels-below zero xs x y fits m k = absurd (not-In-nil m)
levels-below (suc n) xs x y fits m k = elim (In-append_cases xs m) [
  | inl here_x ↦
      In-append_right xs
        (In-levels n (next_level xs) y (next_level-Fits n xs fits) (In-next_level xs x y here_x k))
  | inr later ↦
      In-append_right xs (levels-below n (next_level xs) x y (next_level-Fits n xs fits) later k)
]

levels-Descends :
    (root : Tree) (n : ℕ) (xs : List Located) (x : Located)
    → ((y : Located) → In y xs → Descends root y)
    → In x (levels n xs)
    → Descends root x
unfolding levels
levels-Descends root zero xs x h m = absurd (not-In-nil m)
levels-Descends root (suc n) xs x h m = elim (In-append_cases xs m) [
  | inl k ↦ h x k
  | inr k ↦
      levels-Descends root n (next_level xs) x
        (λ y l. let (z, p, q) = next_level-In xs y l in below-Descends root z y (h z p) q) k
]

only_root : (root : Tree) (y : Located) → In y ((root, 0, []) ∷ []) → y ≡ (root, 0, [])
only_root root y m = elim (In-cons m) [ inl e ↦ e | inr n ↦ absurd (not-In-nil n) ]

root-Fits : (root : Tree) → Fits (depth root) ((root, 0, []) ∷ [])
root-Fits root y m = subst (λ z. depth z.0 ≤ depth root) (sym (only_root root y m)) (omega arith)

Descends-walk : (root : Tree) (x : Located) → Descends root x → In x (walk root)
unfolding walk below
Descends-walk root x at_root =
    In-levels (depth root) ((root, 0, []) ∷ []) (root, 0, []) (root-Fits root) (here refl)
Descends-walk root y (at_child {t = t} {child = child} {i = i} {ancestors = ancestors} d j e) =
    levels-below (depth root) ((root, 0, []) ∷ []) (t, i, ancestors) (child, j, t ∷ ancestors)
      (root-Fits root) (Descends-walk root (t, i, ancestors) d)
      (subst (λ k. In (child, k, t ∷ ancestors) (below_from (t ∷ ancestors) 0 (children t)))
        (from_zero j) (get_elem?-below_from (t ∷ ancestors) (children t) 0 j child e))
  where
    from_zero : (n : ℕ) → 0 + n ≡ n
    from_zero n = omega arith

-- `walk` gives a located node exactly if the node stands in the tree at that place: the number of levels is
-- enough, and each node has its own ancestors.
pub walk-Descends : (root : Tree) (x : Located) → In x (walk root) ↔ Descends root x
unfolding walk
walk-Descends root x = (
  levels-Descends root (depth root) ((root, 0, []) ∷ []) x
      (λ y m. subst (Descends root) (sym (only_root root y m)) at_root),
  Descends-walk root x,
)
