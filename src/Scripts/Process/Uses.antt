-- ===== src/Scripts/Process/Uses.antt =====
-- Where a script speaks of `os` and of `subprocess`.
use rpmz.Base.{
  ℕ, zero, suc, ◌≡◌, refl, sym, ap, ◌∙◌, Bool, true, false, not, ◌&&◌, Option, none, some, List, [],
  ◌∷◌, ◌++◌, get_elem?, if◌then◌else◌, Text, codes, text_eq, text_eq_refl, mem,
}
use rpmz.Scripts.Syntax.{
  call, name, attribute, Tree, node, none_left, tree, children, func, called_attribute, qualified,
}
use rpmz.Scripts.Walk.{Located, walk, is_called}
use rpmz.Scripts.Walk.Reaches.{Descends, at_root, at_child, walk-Descends}
use rpmz.Scripts.Imports.{
  ScriptProblem, references_os, aliases_subprocess, functions_changed, each_located,
}
use rpmz.Workflow.Steps.Sound.{append-nothing}
use rpmz.Scripts.Process.{
  denied_os_calls, attribute_problems, node_problems, node_messages, process_calls, Allowed,
  process_problems, same_functions, audit_process_execution,
}
use rpmz.Scripts.Process.Sound.{
  each_located-nothing, IsApproved, audit_process_execution-IsApproved,
}

-- The tests on an attribute of a name.
attribute_node :
    (t : Tree) (i : ℕ) (ancestors : List Tree) (q : Text × Text)
    → qualified t ≡ some q
    → node_messages (t, i, ancestors) ≡ attribute_problems (is_called (t, i, ancestors)) q
unfolding qualified node_problems node_messages
attribute_node (node (attribute a) (tree (node (name n) us) none_left)) i ancestors q h =
    ap
      (attribute_problems
        (is_called (node (attribute a) (tree (node (name n) us) none_left), i, ancestors)))
      (same h)
  where
    same : ◌≡◌ {A = Option (Text × Text)} (some (n, a)) (some q) → (n, a) ≡ q
    same e = cc
attribute_node _ i ancestors q h = cc

attribute_problems_lem :
    (called : Bool) (owner attr : Text)
    → attribute_problems called (owner, attr) ≡ []
    → ((text_eq owner (codes "os") && mem attr denied_os_calls) ≡ false)
      × ((text_eq owner (codes "subprocess") && not called) ≡ false)
unfolding attribute_problems
attribute_problems_lem called owner attr h =
    go (text_eq owner (codes "os") && mem attr denied_os_calls)
      (text_eq owner (codes "subprocess") && not called) h
  where
    go :
        (a b : Bool)
        → (if a then references_os attr ∷ [] else if b then aliases_subprocess ∷ [] else []) ≡ []
        → (a ≡ false) × (b ≡ false)
    go true b e = cc
    go false true e = cc
    go false false e = (refl, refl)

-- Nodes without messages, from the audit as a whole.
silent_node :
    (script : Tree) (allowed : Allowed) (x : Located)
    → audit_process_execution script allowed ≡ []
    → Descends script x
    → node_messages x ≡ []
unfolding audit_process_execution
silent_node script allowed x silent d =
    let both =
      append-nothing (each_located node_messages (walk script) ++ started) coverage silent in
    let all = append-nothing (each_located node_messages (walk script)) started both.0 in
    each_located-nothing node_messages (walk script) x all.0 ((walk-Descends script x).1 d)
  where
    started : List ScriptProblem
    started = each_located (process_problems allowed) (process_calls (walk script))

    coverage : List ScriptProblem
    coverage =
        if same_functions (process_calls (walk script)) allowed then [] else functions_changed ∷ []

uses_lem :
    (script : Tree) (allowed : Allowed) (x : Located) (owner attr : Text)
    → audit_process_execution script allowed ≡ []
    → Descends script x
    → qualified x.0 ≡ some (owner, attr)
    → ((text_eq owner (codes "os") && mem attr denied_os_calls) ≡ false)
      × ((text_eq owner (codes "subprocess") && not (is_called x)) ≡ false)
uses_lem script allowed (t, i, ancestors) owner attr silent d h =
    attribute_problems_lem (is_called (t, i, ancestors)) owner attr (
      sym (attribute_node t i ancestors (owner, attr) h)
      ∙ silent_node script allowed (t, i, ancestors) silent d)

-- A script without messages about its processes refers to none of the functions of `os` that start one.
pub audit_process_execution-os :
    (script : Tree) (allowed : Allowed) (x : Located) (attr : Text)
    → audit_process_execution script allowed ≡ []
    → Descends script x
    → qualified x.0 ≡ some (codes "os", attr)
    → mem attr denied_os_calls ≡ false
unfolding mem text_eq
audit_process_execution-os script allowed x attr silent d h =
    (uses_lem script allowed x (codes "os") attr silent d h).0

-- `x` is what the call `y` calls: the first child of `y`, where it stands.
abbrev pub IsCalledBy : Located → Located → Type 0
IsCalledBy x y = (x ≡ (x.0, 0, y.0 ∷ y.2)) × (func y.0 ≡ some x.0)

-- What is called is the first child of a call.
called_first :
    (t child : Tree) (i j : ℕ) (ancestors : List Tree)
    → get_elem? (children t) j ≡ some child
    → is_called (child, j, t ∷ ancestors) ≡ true
    → IsCalledBy (child, j, t ∷ ancestors) (t, i, ancestors)
unfolding is_called func
called_first (node call (tree f us)) child i zero ancestors h k = (refl, h)
called_first (node call none_left) child i j ancestors h k = absurd (nothing h)
  where
    nothing : ◌≡◌ {A = Option Tree} none (some child) → ⊥
    nothing e = cc
called_first t child i zero ancestors h k = absurd (apart k)
  where
    apart : false ≡ true → ⊥
    apart e = cc
called_first t child i (suc j) ancestors h k = absurd (apart k)
  where
    apart : false ≡ true → ⊥
    apart e = cc

called-parent :
    (script : Tree) (x : Located)
    → Descends script x
    → is_called x ≡ true
    → (y : Located) × Descends script y × IsCalledBy x y
unfolding is_called
called-parent script x at_root h = cc
called-parent script x (at_child {t = t} {child = child} {i = i} {ancestors = ancestors} d j e) h =
    ((t, i, ancestors), d, called_first t child i j ancestors e h)

called_attribute-func :
    (t f : Tree) (q : Text × Text)
    → func t ≡ some f
    → qualified f ≡ some q
    → called_attribute t ≡ some q
unfolding called_attribute
called_attribute-func t f q h k = rw (h, called_attribute) k

-- If the audit of the processes has no message, then each place of the script that speaks of an attribute
-- of `subprocess` is the first child of a call, as what that call calls, and the call is `subprocess.run` as
-- the listed function may have it.
pub audit_process_execution-uses :
    (script : Tree) (allowed : Allowed) (x : Located) (attr : Text)
    → audit_process_execution script allowed ≡ []
    → Descends script x
    → qualified x.0 ≡ some (codes "subprocess", attr)
    → (attr ≡ codes "run")
      × (y : Located) × Descends script y
      × IsCalledBy x y
      × IsApproved allowed y
audit_process_execution-uses script allowed x attr silent d h =
    let (y, e, f) =
      called-parent script x d
        (called (is_called x) (uses_lem script allowed x (codes "subprocess") attr silent d h).1) in
    let (run, approved) =
      audit_process_execution-IsApproved script allowed y attr silent e
        (called_attribute-func y.0 x.0 (codes "subprocess", attr) f.1 h) in
    (run, y, e, f, approved)
  where
    called :
        (b : Bool) → (text_eq (codes "subprocess") (codes "subprocess") && not b) ≡ false → b ≡ true
    called true e = refl
    called false e = cc (text_eq_refl (codes "subprocess"))
