-- ===== src/Workflow/Parser/Pieces.antt =====
-- A block scalar and a nested value end, and leave no more lines than they were given.
use rpmz.Base.{
  ℕ, suc, ◌+◌, ◌≤◌, ◌≡◌, refl, inl, inr, Bool, true, false, List, [], ◌∷◌, arith, leb,
  if◌then◌else◌, Bool-cases, length, drop, Text, strip, Outcome, ok, raise, ◌>>=◌,
}
use rpmz.Workflow.Values.{Value, mapping, end}
use rpmz.Workflow.Distinct.{IsDistinct, empty-IsDistinct}
use rpmz.Workflow.Lines.{
  YamlError, indentation, next_content, is_content, block_lines, block_scalar,
}
use rpmz.Workflow.Scalars.Ends.{Ends, Any, Ends-bind, indentation-Ends}
use rpmz.Workflow.Parser.{Parsed, nested_value}

-- At most as many lines are left.
abbrev pub Within {ℓ} : {A : Type ℓ} → ℕ → A × List Text → Type 0
Within n p = length p.1 ≤ n

pub length-next_content : (lines : List Text) → length (next_content lines) ≤ length lines
unfolding next_content
length-next_content [] = omega arith
length-next_content (line ∷ lines) = elim (Bool-cases (is_content line)) [
  | inl e ↦ rw (e, next_content) (omega arith)
  | inr e ↦ rw (e, next_content) (omega (arith, length-next_content lines))
]

pub next_content-is_content :
    (lines : List Text) (line : Text) (rest : List Text)
    → next_content lines ≡ line ∷ rest
    → is_content line ≡ true
unfolding next_content
next_content-is_content [] line rest h = cc
next_content-is_content (l ∷ lines) line rest h = elim (Bool-cases (is_content l)) [
  | inl e ↦ same (rw (e, next_content) at h) e
  | inr e ↦ next_content-is_content lines line rest (rw (e, next_content) at h)
]
  where
    same : l ∷ lines ≡ line ∷ rest → is_content l ≡ true → is_content line ≡ true
    same p e = cc

block_lines-Ends :
    (indent : ℕ) (lines : List Text) → Ends (Within (length lines)) (block_lines indent lines)
unfolding block_lines
block_lines-Ends indent [] = omega arith
block_lines-Ends indent (line ∷ lines) =
    go (strip line) (block_lines indent lines) (block_lines-Ends indent lines)
  where
    go :
        (s : Text) (more : Outcome YamlError (List Text × List Text))
        → Ends (Within (length lines)) more
        → Ends {A = List Text × List Text} (Within (suc (length lines))) (elim s [
          | [] ↦ more >>= λ (output, rest). ok ([] ∷ output, rest)
          | _ ∷ _ ↦ indentation line >>= λ n.
              if leb n indent
              then ok ([], line ∷ lines)
              else (more >>= λ (output, rest). ok (drop (indent + 2) line ∷ output, rest))
        ])
    go [] (ok (output, rest)) h = omega (arith, h)
    go [] (raise e) h = h
    go (_ ∷ _) more h =
        Ends-bind Any (Within (suc (length lines))) (indentation line) _ (indentation-Ends line)
          (λ n _. inside (leb n indent) more h)
      where
        inside :
            (b : Bool) (m : Outcome YamlError (List Text × List Text))
            → Ends (Within (length lines)) m
            → Ends {A = List Text × List Text} (Within (suc (length lines))) (
                if b
                then ok ([], line ∷ lines)
                else (m >>= λ (output, rest). ok (drop (indent + 2) line ∷ output, rest)))
        inside true m k = omega arith
        inside false (ok (output, rest)) k = omega (arith, k)
        inside false (raise e) k = k

pub block_scalar-Ends :
    (indent : ℕ) (style chomping : Text) (lines : List Text)
    → Ends (Within (length lines)) (block_scalar indent style chomping lines)
unfolding block_scalar
block_scalar-Ends indent style chomping lines =
    Ends-bind (Within (length lines)) (Within (length lines)) (block_lines indent lines) _
      (block_lines-Ends indent lines) (λ p h. h)

-- At most as many lines are left, and what is read has distinct keys.
abbrev pub Left {ℓ} : {A : Type ℓ} → (A → Type 0) → ℕ → A × List Text → Type 0
Left P n p = (length p.1 ≤ n) × P p.0

-- `parse_block` ends on at most `n` lines that begin with content.
abbrev pub BlockEnds : ℕ → (ℕ → List Text → Parsed) → Type 0
BlockEnds n block =
    (indent : ℕ) (child : Text) (rest : List Text)
    → is_content child ≡ true
    → length (child ∷ rest) ≤ n
    → Ends (Left IsDistinct (length (child ∷ rest))) (block indent (child ∷ rest))

-- A loop ends on at most `n` lines, and keeps the property of its result.
abbrev pub LoopEnds {ℓ} :
    {A : Type ℓ}
    → (A → Type 0)
    → ℕ
    → (ℕ → A → List Text → Outcome YamlError (A × List Text))
    → Type ℓ
LoopEnds {A = A} P n loop =
    (indent : ℕ) (result : A) (lines : List Text)
    → P result
    → length lines ≤ n
    → Ends (Left P (length lines)) (loop indent result lines)

pub nested_value-Ends :
    (block : ℕ → List Text → Parsed) (n indent : ℕ) (lines : List Text)
    → BlockEnds n block
    → length lines ≤ n
    → Ends (Left IsDistinct (length lines)) (nested_value block indent lines)
unfolding nested_value
nested_value-Ends block n indent lines h k =
    go (next_content lines) (length-next_content lines) (next_content-is_content lines)
  where
    go :
        (ls : List Text)
        → length ls ≤ length lines
        → ((line : Text) (rest : List Text) → ls ≡ line ∷ rest → is_content line ≡ true)
        → Ends {A = Value × List Text} (Left IsDistinct (length lines)) (elim ls [
          | [] ↦ ok (mapping end, lines)
          | child ∷ rest ↦ indentation child >>= λ m.
              if leb m indent then ok (mapping end, lines) else block m (child ∷ rest)
        ])
    go [] l c = (omega arith, empty-IsDistinct)
    go (child ∷ rest) l c =
        Ends-bind Any (Left IsDistinct (length lines)) (indentation child) _
          (indentation-Ends child) (λ m _. inside (leb m indent) m)
      where
        weaken :
            (r : Parsed)
            → Ends (Left IsDistinct (length (child ∷ rest))) r
            → Ends (Left IsDistinct (length lines)) r
        weaken (ok p) e = (omega (arith, e.0, l), e.1)
        weaken (raise e) q = q

        inside :
            (b : Bool) (m : ℕ)
            → Ends {A = Value × List Text}
                (Left IsDistinct (length lines))
                (if b then ok (mapping end, lines) else block m (child ∷ rest))
        inside true m = (omega arith, empty-IsDistinct)
        inside false m =
            weaken (block m (child ∷ rest))
              (h m child rest (c child rest refl) (omega (arith, l, k)))
