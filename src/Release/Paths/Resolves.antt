-- ===== src/Release/Paths/Resolves.antt =====
-- Where the links of an archive lead, against what `safe_relative` is asked about them.
use rpmz.Base.{
  ◌≡◌, refl, sym, ap, ◌∙◌, subst, Bool, true, false, not, ◌&&◌, ◌||◌, ◌⊎◌, inl, inr, List, [], ◌∷◌,
  ◌++◌, arith, and-true, if◌then◌else◌, drop, every, Text, codes, starts_with, text_eq, text_eq_iff,
  split, join, mem, mem-append,
}
use rpmz.Base.Splits.{lacks, split-join, lacks-split}
use rpmz.Release.Paths.{
  root_of, kept, pure_path, is_absolute, as_posix, joined, all_but_last, parent, first_is_named,
  safe_relative,
}
use rpmz.Release.Paths.Below.{
  walk, IsBelow, mem-cons_false, walk-kept, safe-parts, safe_relative-IsBelow,
}

-- In the directory, or the directory itself.
abbrev pub IsWithin : List Text → List Text → Type 0
IsWithin dir result = (below : List Text) × (result ≡ below ++ dir)

-- A part that a path keeps.
is_part : Text → Bool
is_part s = not (text_eq s [] || text_eq s (codes ".")) && lacks b'/' s

every-append :
    (p : Text → Bool) (xs ys : List Text)
    → every p xs ≡ true
    → every p ys ≡ true
    → every p (xs ++ ys) ≡ true
every-append p [] ys h k = k
every-append p (x ∷ xs) ys h k = ground (arith, every-append p xs ys)

kept-is_part : (ss : List Text) → every (lacks b'/') ss ≡ true → every is_part (kept ss) ≡ true
unfolding kept is_part
kept-is_part [] h = refl
kept-is_part (s ∷ ss) h = ground (arith, kept-is_part ss)

kept-is_part_id : (ss : List Text) → every is_part ss ≡ true → kept ss ≡ ss
unfolding kept is_part
kept-is_part_id [] h = refl
kept-is_part_id (s ∷ ss) h = let rec = kept-is_part_id ss in ground arith

all_but_last-every :
    (p : Text → Bool) (ss : List Text) → every p ss ≡ true → every p (all_but_last ss) ≡ true
unfolding all_but_last
all_but_last-every p [] h = refl
all_but_last-every p (s ∷ []) h = refl
all_but_last-every p (s ∷ t ∷ ss) h = ground (arith, all_but_last-every p (t ∷ ss))

every-is_part-lacks : (ss : List Text) → every is_part ss ≡ true → every (lacks b'/') ss ≡ true
unfolding is_part
every-is_part-lacks [] h = refl
every-is_part-lacks (s ∷ ss) h = ground (arith, every-is_part-lacks ss)

not_empty-join :
    (s : Text) (ss : List Text)
    → every is_part (s ∷ ss) ≡ true
    → text_eq (join (codes "/") (s ∷ ss)) [] ≡ false
unfolding join text_eq is_part
not_empty-join [] ss h = cc
not_empty-join (c ∷ s) [] h = refl
not_empty-join (c ∷ s) (t ∷ ss) h = refl

-- A relative path, written and read again.
pure_path-as_posix :
    (parts : List Text)
    → every is_part parts ≡ true
    → (pure_path (as_posix (record { root = []; parts = parts }))).parts ≡ parts
unfolding pure_path as_posix
pure_path-as_posix [] h = unfold join kept split text_eq in refl
pure_path-as_posix (s ∷ ss) h =
    rw (not_empty-join s ss h)
      (ap kept (split-join b'/' s ss (every-is_part-lacks (s ∷ ss) h)) ∙ kept-is_part_id (s ∷ ss) h)

walk-of-kept : (dir ss : List Text) → walk dir (kept ss) ≡ walk dir ss
unfolding walk kept
walk-of-kept dir [] = refl
walk-of-kept dir (s ∷ ss) =
    go (text_eq s [] || text_eq s (codes ".")) refl (walk-of-kept dir ss)
      (walk-of-kept (drop 1 dir) ss) (walk-of-kept (s ∷ dir) ss)
  where
    go :
        (b : Bool)
        → (text_eq s [] || text_eq s (codes ".")) ≡ b
        → walk dir (kept ss) ≡ walk dir ss
        → walk (drop 1 dir) (kept ss) ≡ walk (drop 1 dir) ss
        → walk (s ∷ dir) (kept ss) ≡ walk (s ∷ dir) ss
        → walk dir (if b then kept ss else s ∷ kept ss) ≡ (
            if b
            then walk dir ss
            else if text_eq s (codes "..")
            then walk (drop 1 dir) ss
            else walk (s ∷ dir) ss)
    go true e same up down = same
    go false e same up down = rw (e, walk) (ground (arith, up, down))

walk-append : (dir xs ys : List Text) → walk dir (xs ++ ys) ≡ walk (walk dir xs) ys
unfolding walk
walk-append dir [] ys = refl
walk-append dir (s ∷ xs) ys =
    ground
      (arith, walk-append dir xs ys, walk-append (drop 1 dir) xs ys, walk-append (s ∷ dir) xs ys)

walk_part :
    (dir : List Text) (s : Text) (ss : List Text)
    → is_part s ≡ true
    → text_eq s (codes "..") ≡ false
    → walk dir (s ∷ ss) ≡ walk (s ∷ dir) ss
unfolding walk is_part
walk_part dir s ss h k = ground arith

-- One directory up from where a path without `..` leads.
drop-walk :
    (dir : List Text) (s : Text) (ss : List Text)
    → every is_part (s ∷ ss) ≡ true
    → mem (codes "..") (s ∷ ss) ≡ false
    → drop 1 (walk dir (s ∷ ss)) ≡ walk dir (all_but_last (s ∷ ss))
unfolding all_but_last
drop-walk dir s [] h k =
    ap (drop 1) (walk_part dir s [] (ground arith) (mem-cons_false (codes "..") s [] k).0)
    ∙ unfold walk in refl
drop-walk dir s (t ∷ ss) h k =
    let first = and-true (is_part s) (every is_part (t ∷ ss)) h in
    let (other, rest) = mem-cons_false (codes "..") s (t ∷ ss) k in
    ap (drop 1) (walk_part dir s (t ∷ ss) first.0 other)
    ∙ (drop-walk (s ∷ dir) t ss first.1 rest
        ∙ sym (walk_part dir s (all_but_last (t ∷ ss)) first.0 other))

-- A path begins with a slash, or its root is empty.
root_of-cases :
    (t : Text)
    → ((root_of t ≡ []) × (starts_with t (codes "/") ≡ false))
      ⊎ ((r : Text) × (root_of t ≡ b'/' ∷ r))
unfolding root_of
root_of-cases t =
    go (starts_with t (codes "/")) (starts_with t (codes "//") && not (starts_with t (codes "///")))
  where
    go :
        (a b : Bool)
        → (((if not a then [] else if b then codes "//" else codes "/") ≡ []) × (a ≡ false))
          ⊎ ((r : Text) × ((if not a then [] else if b then codes "//" else codes "/") ≡ b'/' ∷ r))
    go false b = inl (refl, refl)
    go true true = inr (codes "/", refl)
    go true false = inr ([], refl)

-- A path that is let through has no root.
safe-root : (t : Text) → safe_relative t ≡ true → root_of t ≡ []
unfolding safe_relative pure_path is_absolute
safe-root t h = (text_eq_iff (root_of t) []).0 (ground arith)

safe-starts_with : (t : Text) → safe_relative t ≡ true → starts_with t (codes "/") ≡ false
safe-starts_with t h = elim (root_of-cases t) [ inl e ↦ e.1 | inr (r, e) ↦ cc (e, safe-root t h) ]

slash-not_safe : (t : Text) → safe_relative (b'/' ∷ t) ≡ true → ⊥
unfolding starts_with
slash-not_safe t h = go (safe-starts_with (b'/' ∷ t) h)
  where
    go : starts_with (b'/' ∷ t) (codes "/") ≡ false → ⊥
    go e = cc

-- The path that is asked about a link.
abbrev target : Text → Text → Text
target name linkname = as_posix (joined (parent (pure_path name)) (pure_path linkname))

rooted_target :
    (name linkname r : Text)
    → root_of linkname ≡ b'/' ∷ r
    → target name linkname ≡ b'/' ∷ (r ++ join (codes "/") (kept (split b'/' linkname)))
unfolding joined is_absolute pure_path as_posix text_eq
rooted_target name linkname r e = rw e refl

-- What a link says does not begin with a slash.
pub target-relative :
    (name linkname : Text)
    → safe_relative (target name linkname) ≡ true
    → (root_of linkname ≡ []) × (starts_with linkname (codes "/") ≡ false)
target-relative name linkname h = elim (root_of-cases linkname) [
  | inl e ↦ e
  | inr (r, e) ↦
      absurd (slash-not_safe _ (sym (ap safe_relative (rooted_target name linkname r e)) ∙ h))
]

is_part-kept : (t : Text) → every is_part (kept (split b'/' t)) ≡ true
is_part-kept t = kept-is_part (split b'/' t) (lacks-split b'/' t)

target_parts :
    (name linkname : Text)
    → root_of name ≡ []
    → root_of linkname ≡ []
    → kept (split b'/' (target name linkname))
      ≡ all_but_last (kept (split b'/' name)) ++ kept (split b'/' linkname)
unfolding pure_path
target_parts name linkname e f =
    ap (λ p. kept (split b'/' (as_posix p))) relative
    ∙ pure_path-as_posix (all_but_last (kept (split b'/' name)) ++ kept (split b'/' linkname)) (
        every-append is_part (all_but_last (kept (split b'/' name))) (kept (split b'/' linkname))
          (all_but_last-every is_part (kept (split b'/' name)) (is_part-kept name))
          (is_part-kept linkname))
  where
    relative : joined (parent (pure_path name)) (pure_path linkname) ≡ record {
      root = [];
      parts = all_but_last (kept (split b'/' name)) ++ kept (split b'/' linkname);
    }
    relative = unfold joined is_absolute parent text_eq in rw (f, e) refl

-- From the directory in which it stands, what a link says leads strictly below the directory that the archive
-- is unpacked into.
pub link-IsBelow :
    (name linkname : Text)
    → safe_relative name ≡ true
    → safe_relative (target name linkname) ≡ true
    → (dir : List Text)
    → IsBelow dir (walk (drop 1 (walk dir (split b'/' name))) (split b'/' linkname))
link-IsBelow name linkname h k dir =
    subst (IsBelow dir) (sym (leads (kept (split b'/' name)) refl (safe-parts name h)))
      (safe_relative-IsBelow (target name linkname) k dir)
  where
    parts :
        kept (split b'/' (target name linkname))
        ≡ all_but_last (kept (split b'/' name)) ++ kept (split b'/' linkname)
    parts = target_parts name linkname (safe-root name h) (target-relative name linkname k).0

    leads :
        (ns : List Text)
        → kept (split b'/' name) ≡ ns
        → (mem (codes "..") (kept (split b'/' name)) ≡ false)
          × (first_is_named (kept (split b'/' name)) ≡ true)
        → walk (drop 1 (walk dir (split b'/' name))) (split b'/' linkname)
          ≡ walk dir (split b'/' (target name linkname))
    leads [] e (f, g) = unfold first_is_named in cc
    leads (s ∷ ss) e (f, g) =
        ap (λ d. walk (drop 1 d) (split b'/' linkname))
          (sym (walk-of-kept dir (split b'/' name)) ∙ ap (walk dir) e)
        ∙ ap (λ d. walk d (split b'/' linkname))
            (drop-walk dir s ss (sym (ap (every is_part) e) ∙ is_part-kept name)
              (sym (ap (mem (codes "..")) e) ∙ f))
        ∙ sym (walk-of-kept (walk dir (all_but_last (s ∷ ss))) (split b'/' linkname))
        ∙ sym (walk-append dir (all_but_last (s ∷ ss)) (kept (split b'/' linkname)))
        ∙ ap (walk dir) (ap (λ t. all_but_last t ++ kept (split b'/' linkname)) (sym e) ∙ sym parts)
        ∙ walk-of-kept dir (split b'/' (target name linkname))

-- A hard link: from the directory that the archive is unpacked into, what it says does not lead out of it.
pub hardlink-IsWithin :
    (name linkname : Text)
    → safe_relative name ≡ true
    → safe_relative (target name linkname) ≡ true
    → (dir : List Text) → IsWithin dir (walk dir (split b'/' linkname))
hardlink-IsWithin name linkname h k dir =
    let (below, e, _) = walk-kept dir (split b'/' linkname) (
      later (all_but_last (kept (split b'/' name))) (kept (split b'/' linkname)) (
        sym (
          ap (mem (codes ".."))
            (target_parts name linkname (safe-root name h) (target-relative name linkname k).0))
        ∙ (safe-parts (target name linkname) k).0)) in
    (below, e)
  where
    later : (xs ys : List Text) → mem (codes "..") (xs ++ ys) ≡ false → mem (codes "..") ys ≡ false
    later xs ys e = ground (arith, mem-append (codes "..") xs ys)
