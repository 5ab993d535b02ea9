-- ===== src/Scripts/Process/Sound.antt =====
-- What a silent `audit_process_execution` says of each node of a script.
use rpmz.Base.{
  ℕ, ◌≡◌, refl, sym, ap, ◌∙◌, ◌⊎◌, inl, inr, Bool, true, false, Option, none, some, List, [], ◌∷◌,
  ◌++◌, if◌then◌else◌, and-true, In, here, there, In-cons, not-In-nil, Text, codes, text_eq,
  text_eq_iff, mem,
}
use rpmz.Scripts.Syntax.{
  call, name, attribute, Tree, node, tree, func, args, keywords, called_attribute, qualified,
  name_of,
}
use rpmz.Scripts.Walk.{Located, walk, enclosing_function}
use rpmz.Scripts.Walk.Reaches.{Descends, walk-Descends}
use rpmz.Scripts.Shape.{Shape, ast_shape, shape_eq_sound}
use rpmz.Scripts.Imports.{
  ScriptProblem, dynamic_execution, forbidden_subprocess, unapproved_argv, shell_mode,
  functions_changed, each_located,
}
use rpmz.Workflow.Steps.Sound.{append-nothing}
use rpmz.Scripts.Process.{
  dynamic_calls, call_problems, node_problems, node_messages, process_calls, Allowed, allowed_for,
  argv_is, has_key_arg, keywords_are, is_approved, process_problems, same_functions,
  audit_process_execution,
}

pub each_located-nothing :
    (f : Located → List ScriptProblem) (xs : List Located) (x : Located)
    → each_located f xs ≡ []
    → In x xs
    → f x ≡ []
each_located-nothing f [] x h m = absurd (not-In-nil m)
each_located-nothing f (y ∷ xs) x h m =
    let parts = append-nothing (f y) (each_located f xs) h in
    elim (In-cons m) [ inl e ↦ ap f e ∙ parts.0 | inr n ↦ each_located-nothing f xs x parts.1 n ]

process_calls-In :
    (xs : List Located) (x : Located)
    → In x xs
    → (node_problems x).1 ≡ true
    → In x (process_calls xs)
unfolding process_calls
process_calls-In [] x m h = absurd (not-In-nil m)
process_calls-In (y ∷ xs) x m h =
    go (node_problems y).1 (λ e. ap (λ z. (node_problems z).1) (sym e) ∙ h) (In-cons m)
      (λ n. process_calls-In xs x n h)
  where
    go :
        (b : Bool)
        → (x ≡ y → b ≡ true)
        → (x ≡ y) ⊎ In x xs
        → (In x xs → In x (process_calls xs))
        → In x (if b then y ∷ process_calls xs else process_calls xs)
    go true k (inl e) rec = here e
    go true k (inr n) rec = there (rec n)
    go false k (inl e) rec = absurd (apart (k e))
      where
        apart : false ≡ true → ⊥
        apart p = cc
    go false k (inr n) rec = rec n

-- An attribute of a name is no name.
qualified-name_of : (g : Tree) (q : Text × Text) → qualified g ≡ some q → name_of g ≡ none
unfolding qualified name_of
qualified-name_of (node (name n) us) q k = cc
qualified-name_of (node (attribute a) us) q k = refl
qualified-name_of _ q k = cc

-- The tests on a call of an attribute of a name.
call_node :
    (t : Tree) (i : ℕ) (ancestors : List Tree) (q : Text × Text)
    → called_attribute t ≡ some q
    → node_problems (t, i, ancestors) ≡ call_problems q
unfolding called_attribute func node_problems
call_node (node call (tree f ts)) i ancestors q h =
    go (name_of f) (qualified f) (qualified-name_of f q h) h
  where
    go :
        (n : Option Text) (p : Option (Text × Text))
        → n ≡ none
        → p ≡ some q
        → (elim n [
          | some g ↦ (if mem g dynamic_calls then dynamic_execution ∷ [] else [], false)
          | none ↦ elim p [ none ↦ ([], false) | some r ↦ call_problems r ]
        ])
          ≡ call_problems q
    go none (some r) e k = cc
    go none none e k = cc
    go (some g) p e k = cc
call_node _ i ancestors q h = cc

-- Of the calls of `subprocess` only `run` goes without a message.
run_only :
    (attr : Text)
    → (call_problems (codes "subprocess", attr)).0 ≡ []
    → (attr ≡ codes "run") × ((call_problems (codes "subprocess", attr)).1 ≡ true)
unfolding call_problems
run_only attr h = go (text_eq attr (codes "run")) (text_eq_iff attr (codes "run")).0 h
  where
    chosen : Bool → List ScriptProblem × Bool
    chosen b = if b then ([], true) else (forbidden_subprocess attr ∷ [], false)

    go :
        (b : Bool)
        → (b ≡ true → attr ≡ codes "run")
        → (chosen b).0 ≡ []
        → (attr ≡ codes "run") × ((chosen b).1 ≡ true)
    go true k e = (k refl, refl)
    go false k e = cc

-- A start of a process as the script may have it: it stands in a function that is listed, with the one
-- argument of the listed shape and the listed keywords, none of which is `shell`.
unfoldable pub IsApproved : Allowed → Located → Type 0
IsApproved allowed (t, i, ancestors) =
    (f : Text) × (argv : Shape) × (kws : List Text) × (argument : Tree) × (enclosing_function
        ancestors
      ≡ some f)
    × (allowed_for (some f) allowed ≡ some (argv, kws))
    × (args t ≡ argument ∷ [])
    × (ast_shape argument ≡ argv)
    × (keywords_are (keywords t) kws ≡ true)
    × (has_key_arg (some (codes "shell")) (keywords t) ≡ false)

argv_is_lem :
    (ts : List Tree) (argv : Shape)
    → argv_is ts argv ≡ true
    → (argument : Tree) × (ts ≡ argument ∷ []) × (ast_shape argument ≡ argv)
unfolding argv_is
argv_is_lem [] argv h = cc
argv_is_lem (t ∷ []) argv h = (t, refl, shape_eq_sound (ast_shape t) argv h)
argv_is_lem (t ∷ u ∷ ts) argv h = cc

process_problems-IsApproved :
    (allowed : Allowed) (x : Located) → process_problems allowed x ≡ [] → IsApproved allowed x
unfolding process_problems IsApproved
process_problems-IsApproved allowed (t, i, ancestors) h =
    go (enclosing_function ancestors) refl (has_key_arg (some (codes "shell")) (keywords t)) refl h
  where
    in_function :
        (f : Text)
        → enclosing_function ancestors ≡ some f
        → has_key_arg (some (codes "shell")) (keywords t) ≡ false
        → (r : Option (Shape × List Text)) → allowed_for (some f) allowed ≡ r
        → is_approved t r ≡ true
        → IsApproved allowed (t, i, ancestors)
    in_function f e s none q k = absurd (apart k)
      where
        apart : false ≡ true → ⊥
        apart p = cc
    in_function f e s (some (argv, kws)) q k =
        let parts = and-true (argv_is (args t) argv) (keywords_are (keywords t) kws) k in
        let (argument, one, same) = argv_is_lem (args t) argv parts.0 in
        (f, argv, kws, argument, e, q, one, same, parts.1, s)

    approved :
        (o : Option Text)
        → enclosing_function ancestors ≡ o
        → has_key_arg (some (codes "shell")) (keywords t) ≡ false
        → is_approved t (allowed_for o allowed) ≡ true
        → IsApproved allowed (t, i, ancestors)
    approved (some f) e s k = in_function f e s (allowed_for (some f) allowed) refl k
    approved none e s k = absurd (apart (unfold allowed_for in k))
      where
        apart : false ≡ true → ⊥
        apart p = cc

    go :
        (o : Option Text)
        → enclosing_function ancestors ≡ o
        → (shell : Bool) → has_key_arg (some (codes "shell")) (keywords t) ≡ shell
        → ((if is_approved t (allowed_for o allowed) then [] else unapproved_argv o ∷ [])
            ++ (if shell then shell_mode ∷ [] else []))
          ≡ []
        → IsApproved allowed (t, i, ancestors)
    go o e true s k = absurd (loud _ k)
      where
        loud : (ps : List ScriptProblem) → ps ++ (shell_mode ∷ []) ≡ [] → ⊥
        loud [] p = cc
        loud (q ∷ ps) p = cc
    go o e false s k = approved o e s (holds (is_approved t (allowed_for o allowed)) k)
      where
        holds : (b : Bool) → ((if b then [] else unapproved_argv o ∷ []) ++ []) ≡ [] → b ≡ true
        holds true p = refl
        holds false p = cc

-- If the audit of the processes has no message, then what is called of `subprocess` anywhere in the script
-- is `run`, in a function that is listed, with one argument of the listed shape and the listed keywords,
-- none of which is `shell`.
pub audit_process_execution-IsApproved :
    (script : Tree) (allowed : Allowed) (x : Located) (attr : Text)
    → audit_process_execution script allowed ≡ []
    → Descends script x
    → called_attribute x.0 ≡ some (codes "subprocess", attr)
    → (attr ≡ codes "run") × IsApproved allowed x
unfolding audit_process_execution node_messages
audit_process_execution-IsApproved script allowed (t, i, ancestors) attr silent d h =
    let both =
      append-nothing (each_located node_messages (walk script) ++ started) coverage silent in
    let all = append-nothing (each_located node_messages (walk script)) started both.0 in
    let m = (walk-Descends script (t, i, ancestors)).1 d in
    let same = call_node t i ancestors (codes "subprocess", attr) h in
    let run = run_only attr (
      ap (λ z. z.0) (sym same)
      ∙ each_located-nothing node_messages (walk script) (t, i, ancestors) all.0 m) in
    let listed = process_calls-In (walk script) (t, i, ancestors) m (ap (λ z. z.1) same ∙ run.1) in
    (
      run.0,
      process_problems-IsApproved allowed (t, i, ancestors)
          (each_located-nothing (process_problems allowed) (process_calls (walk script))
            (t, i, ancestors) all.1 listed),
    )
  where
    started : List ScriptProblem
    started = each_located (process_problems allowed) (process_calls (walk script))

    coverage : List ScriptProblem
    coverage =
        if same_functions (process_calls (walk script)) allowed then [] else functions_changed ∷ []
