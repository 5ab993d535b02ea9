-- ===== src/Release/Paths/Below.antt =====
-- A path that `safe_relative` lets through stays below the directory it is taken from.
use rpmz.Base.{
  ◌<◌, ◌≡◌, refl, sym, ◌∙◌, Bool, true, false, ◌||◌, List, [], ◌∷◌, ◌++◌, append_assoc, arith,
  if◌then◌else◌, length, drop, length-append, Text, codes, text_eq, text_eq_iff, split, mem,
}
use rpmz.Release.Paths.{kept, pure_path, first_is_named, safe_relative}

-- Where a walk along the segments of a path ends. A directory is the list of its components, the last
-- one first; above the root there is only the root.
unfoldable pub walk : List Text → List Text → List Text
unfolding text_eq
walk dir [] = dir
walk dir (s ∷ ss) =
    if text_eq s [] || text_eq s (codes ".")
    then walk dir ss
    else if text_eq s (codes "..")
    then walk (drop 1 dir) ss
    else walk (s ∷ dir) ss

-- Strictly below the directory.
abbrev pub IsBelow : List Text → List Text → Type 0
IsBelow dir result = (s : Text) × (below : List Text) × (result ≡ (s ∷ below) ++ dir)

pub mem-cons_false :
    (x y : Text) (ys : List Text)
    → mem x (y ∷ ys) ≡ false
    → (text_eq y x ≡ false) × (mem x ys ≡ false)
unfolding mem
mem-cons_false x y ys h = ground (arith, text_eq_iff x y, text_eq_iff y x)

pub walk-kept :
    (dir ss : List Text)
    → mem (codes "..") (kept ss) ≡ false
    → (below : List Text) × (walk dir ss ≡ below ++ dir) × (length below ≡ length (kept ss))
unfolding walk kept
walk-kept dir [] h = ([], refl, refl)
walk-kept dir (s ∷ ss) h =
    go (text_eq s [] || text_eq s (codes ".")) refl (walk-kept dir ss) (walk-kept (s ∷ dir) ss) h
  where
    Goal : List Text → List Text → Type 0
    Goal result parts =
        (below : List Text) × (result ≡ below ++ dir) × (length below ≡ length parts)

    go :
        (b : Bool)
        → (text_eq s [] || text_eq s (codes ".")) ≡ b
        → (mem (codes "..") (kept ss) ≡ false → Goal (walk dir ss) (kept ss))
        → (mem (codes "..") (kept ss) ≡ false
            → (below : List Text) × (walk (s ∷ dir) ss ≡ below ++ (s ∷ dir))
              × (length below ≡ length (kept ss)))
        → mem (codes "..") (if b then kept ss else s ∷ kept ss) ≡ false
        → Goal
            (if b
              then walk dir ss
              else if text_eq s (codes "..")
              then walk (drop 1 dir) ss
              else walk (s ∷ dir) ss)
            (if b then kept ss else s ∷ kept ss)
    go true e skip step h = skip h
    go false e skip step h =
        let (a, b) = mem-cons_false (codes "..") s (kept ss) h in
        rw a (
          let (below, p, q) = step b in
          (
            below ++ (s ∷ []),
            p ∙ sym (append_assoc below (s ∷ []) dir),
            omega (arith, length-append below (s ∷ []), q),
          ))

pub safe-parts :
    (path : Text)
    → safe_relative path ≡ true
    → (mem (codes "..") (kept (split b'/' path)) ≡ false)
      × (first_is_named (kept (split b'/' path)) ≡ true)
unfolding safe_relative pure_path
safe-parts path h = ground arith

length-named : (ss : List Text) → first_is_named ss ≡ true → 0 < length ss
unfolding first_is_named
length-named [] h = cc
length-named (s ∷ ss) h = omega arith

-- A path that `safe_relative` lets through leads from every directory to a place strictly below it,
-- however the path is written.
pub safe_relative-IsBelow :
    (path : Text)
    → safe_relative path ≡ true
    → (dir : List Text) → IsBelow dir (walk dir (split b'/' path))
safe_relative-IsBelow path h dir =
    let (a, b) = safe-parts path h in
    let (below, p, q) = walk-kept dir (split b'/' path) a in
    nonempty below p (omega (arith, q, length-named (kept (split b'/' path)) b))
  where
    nonempty :
        (below : List Text)
        → walk dir (split b'/' path) ≡ below ++ dir
        → 0 < length below
        → IsBelow dir (walk dir (split b'/' path))
    nonempty [] p q = absurd (omega (arith, q))
    nonempty (s ∷ below) p q = (s, below, p)
