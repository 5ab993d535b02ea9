-- ===== src/Confinement/Imports/Laws.antt =====
-- What an `@import` call is: the parenthesis that is found is the one that closes it, and its value is
-- the one string between the two.
use rpmz.Base.{
  ℕ, suc, ◌+◌, ◌-◌, ◌≤◌, ◌<◌, ◌≡◌, refl, sym, ap, ◌∙◌, subst, ◌≢◌, inl, inr, Bool, true, false,
  ◌&&◌, Option, none, some, List, [], ◌∷◌, ◌++◌, append_assoc, arith, ltb, leb, if◌then◌else◌,
  length, take, drop, All, In, here, there, In-cons, not-In-nil, length-append, Text, text_eq,
  strip, Outcome, ok, raise, >>=-eq-ok,
}
use rpmz.Base.Balanced.{IsBalanced, nil, plain, group}
use rpmz.Confinement.Lexer.{StringToken, Lexed}
use rpmz.Confinement.Imports.{
  AuditError, matching_from, matching_parenthesis, match_import, Call, tokens_within, import_call,
  calls_from, import_calls,
}

abbrev shifted : ℕ → Option ℕ → Option ℕ
shifted n none = none
shifted n (some m) = some (n + m)

matching_from-plain :
    (d c : ℕ) (s : Text)
    → c ≢ b'('
    → c ≢ b')'
    → matching_from d (c ∷ s) ≡ shifted 1 (matching_from d s)
unfolding matching_from
matching_from-plain d c s h k = ground arith

matching_from-open :
    (d : ℕ) (s : Text) → matching_from d (b'(' ∷ s) ≡ shifted 1 (matching_from (suc d) s)
unfolding matching_from
matching_from-open d s = ground arith

matching_from-close :
    (d : ℕ) (s : Text)
    → matching_from (suc (suc d)) (b')' ∷ s) ≡ shifted 1 (matching_from (suc d) s)
unfolding matching_from
matching_from-close d s = ground arith

shifted_twice : (n m k : ℕ) (o : Option ℕ) → n + m ≡ k → shifted n (shifted m o) ≡ shifted k o
shifted_twice n m k none e = refl
shifted_twice n m k (some x) e = ground arith

shifted_zero : (o : Option ℕ) → o ≡ shifted 0 o
shifted_zero none = refl
shifted_zero (some x) = ground arith

matching_from-IsBalanced :
    (d : ℕ) {s : Text} (rest : Text)
    → IsBalanced s
    → matching_from (suc d) (s ++ rest) ≡ shifted (length s) (matching_from (suc d) rest)
matching_from-IsBalanced d rest nil = shifted_zero _
matching_from-IsBalanced d rest (plain {c} {s} h k b) =
    matching_from-plain (suc d) c (s ++ rest) h k
    ∙ (ap (shifted 1) (matching_from-IsBalanced d rest b)
        ∙ shifted_twice 1 (length s) (suc (length s)) _ (omega arith))
matching_from-IsBalanced d {s} rest (group {inner} {more} b g e) = rw e (
    rw append_assoc (
      matching_from-open (suc d) _
      ∙ (ap (shifted 1) (
            matching_from-IsBalanced (suc d) (b')' ∷ (more ++ rest)) b
            ∙ ap (shifted (length inner)) (
                matching_from-close d (more ++ rest)
                ∙ ap (shifted 1) (matching_from-IsBalanced d rest g)))
          ∙ regroup)))
  where
    regroup :
        shifted 1
          (shifted (length inner) (shifted 1 (shifted (length more) (matching_from (suc d) rest))))
        ≡ shifted (length (b'(' ∷ (inner ++ (b')' ∷ more)))) (matching_from (suc d) rest)
    regroup =
        ap (λ o. shifted 1 (shifted (length inner) o))
          (shifted_twice 1 (length more) (1 + length more) _ refl)
        ∙ (ap (shifted 1) (
              shifted_twice (length inner) (1 + length more) (length inner + (1 + length more)) _
                refl)
            ∙ shifted_twice 1 (length inner + (1 + length more)) _ _
                (omega (arith, length-append inner (b')' ∷ more))))

-- The parenthesis found for one that opens is the one behind the balanced text that follows it.
pub matching_parenthesis-IsBalanced :
    (inner rest : Text)
    → IsBalanced inner
    → matching_parenthesis (b'(' ∷ (inner ++ (b')' ∷ rest))) ≡ some (suc (length inner))
unfolding matching_parenthesis
matching_parenthesis-IsBalanced inner rest b =
    matching_from-open 0 (inner ++ (b')' ∷ rest))
    ∙ (ap (shifted 1) (matching_from-IsBalanced 0 (b')' ∷ rest) b) ∙ last)
  where
    last :
        shifted 1 (shifted (length inner) (matching_from 1 (b')' ∷ rest)))
        ≡ some (suc (length inner))
    last = ap some (omega arith)

-- The value comes from a string token that stands inside the call.
abbrev pub FromToken : List StringToken → Call → Type 0
FromToken strings call =
    (t : StringToken) × In t strings
    × (call.value ≡ t.value)
    × (call.start < t.start)
    × (t.end < call.end)

tokens_within-In :
    (opening close : ℕ) (ts : List StringToken) (t : StringToken)
    → In t (tokens_within opening close ts)
    → In t ts × (opening < t.start) × (t.end ≤ close)
unfolding tokens_within
tokens_within-In opening close [] t m = absurd (not-In-nil m)
tokens_within-In opening close (x ∷ ts) t m =
    go (ltb opening x.start && leb x.end close) refl m (tokens_within-In opening close ts t)
  where
    go :
        (b : Bool)
        → (ltb opening x.start && leb x.end close) ≡ b
        → In t (if b then x ∷ tokens_within opening close ts else tokens_within opening close ts)
        → (In t (tokens_within opening close ts) → In t ts × (opening < t.start) × (t.end ≤ close))
        → In t (x ∷ ts) × (opening < t.start) × (t.end ≤ close)
    go false e m' ih = let (a, b, c) = ih m' in (there a, b, c)
    go true e m' ih = elim (In-cons m') [
      | inl p ↦ (here p, rw p (ground arith), rw p (ground arith))
      | inr r ↦ let (a, b, c) = ih r in (there a, b, c)
    ]

import_call-FromToken :
    (strings : List StringToken) (index size : ℕ) (code : Text) (call : Call)
    → import_call strings index size code ≡ ok call
    → FromToken strings call
unfolding import_call
import_call-FromToken strings index size code call h =
    closed (matching_parenthesis (drop (size - 1) code)) refl
  where
    opening : ℕ
    opening = index + (size - 1)

    one :
        (close : ℕ) (t : StringToken) (b : Bool)
        → In t (tokens_within opening close strings)
        → ◌≡◌ {A = Outcome AuditError Call}
            (if b
              then ok (record { start = index; end = close + 1; value = t.value })
              else raise AuditError.import_not_literal)
            (ok call)
        → FromToken strings call
    one close t false m e = cc
    one close t true m e =
        let (a, b, c) = tokens_within-In opening close strings t m in
        (t, a, ground arith, ground arith, ground arith)

    tokens :
        (offset : ℕ) (ts : List StringToken)
        → tokens_within opening (opening + offset) strings ≡ ts
        → matching_parenthesis (drop (size - 1) code) ≡ some offset
        → FromToken strings call
    tokens offset [] e k = ground (arith, h)
    tokens offset (t ∷ []) e k =
        one (opening + offset) t (text_eq (strip (take (offset - 1) (drop size code))) [])
          (subst (In t) (sym e) (here refl)) (rw (e, import_call) at (rw (k, import_call) at h))
    tokens offset (t ∷ u ∷ ts) e k = ground (arith, h)

    closed :
        (o : Option ℕ) → matching_parenthesis (drop (size - 1) code) ≡ o → FromToken strings call
    closed none k = ground (arith, h)
    closed (some offset) k = tokens offset (tokens_within opening (opening + offset) strings) refl k

calls_from-FromToken :
    (strings : List StringToken) (index : ℕ) (s : Text) (calls : List Call)
    → calls_from strings index s ≡ ok calls
    → All (FromToken strings) calls
unfolding calls_from
calls_from-FromToken strings index [] calls h = subst (All (FromToken strings)) (nil_of h) tt
  where
    nil_of : ◌≡◌ {A = Outcome AuditError (List Call)} (ok []) (ok calls) → [] ≡ calls
    nil_of e = cc
calls_from-FromToken strings index (c ∷ s) calls h =
    go (match_import (c ∷ s)) refl (calls_from-FromToken strings (index + 1) s)
  where
    go :
        (o : Option ℕ)
        → match_import (c ∷ s) ≡ o
        → ((later : List Call)
            → calls_from strings (index + 1) s ≡ ok later
            → All (FromToken strings) later)
        → All (FromToken strings) calls
    go none e ih = ih calls (rw (e, calls_from) at h)
    go (some size) e ih =
        let (call, p, q) =
          >>=-eq-ok (import_call strings index size (c ∷ s)) _ (rw (e, calls_from) at h) in
        let (later, r, t) = >>=-eq-ok (calls_from strings (index + 1) s) _ q in
        subst (All (FromToken strings)) (join later call t)
          (import_call-FromToken strings index size (c ∷ s) call p, ih later r)
      where
        join :
            (later : List Call) (call : Call)
            → ◌≡◌ {A = Outcome AuditError (List Call)} (ok (call ∷ later)) (ok calls)
            → call ∷ later ≡ calls
        join later call t = cc

-- In the calls that are found, each value is that of a string token inside the call, so that it is
-- a literal that the source has there.
pub import_calls-FromToken :
    (l : Lexed) (calls : List Call) → import_calls l ≡ ok calls → All (FromToken l.strings) calls
unfolding import_calls
import_calls-FromToken l calls h = calls_from-FromToken l.strings 0 l.code calls h
