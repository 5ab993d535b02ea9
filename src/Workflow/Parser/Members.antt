-- ===== src/Workflow/Parser/Members.antt =====
-- The value of a key and an item of a list: reading them ends, and keeps the keys of every dict distinct.
use rpmz.Base.{
  ℕ, ◌+◌, ◌≤◌, ◌≡◌, refl, Bool, true, false, not, ◌&&◌, List, [], ◌∷◌, arith, ◌==◌, if◌then◌else◌,
  length, take, drop, Text, text_eq, mem, Outcome, ok, raise, ◌>>=◌, ◌>>◌, guard,
}
use rpmz.Workflow.Values.{Value, text, mapping, Fields, end, field, has_key}
use rpmz.Workflow.Distinct.{IsDistinct, KeysDistinct}
use rpmz.Workflow.Lines.{YamlError, duplicate_list_keys, indentation, next_content, block_scalar}
use rpmz.Workflow.Scalars.{parse_scalar, split_mapping}
use rpmz.Workflow.Scalars.Ends.{
  Ends, Any, Ends-bind, parse_scalar-Ends, split_mapping-Ends, indentation-Ends,
}
use rpmz.Workflow.Parser.{
  Parsed, MapParser, is_dashed, nested_value, block_styles, mapping_value, merged, list_item,
  keyed_item,
}
use rpmz.Workflow.Parser.Pieces.{
  Within, Left, length-next_content, block_scalar-Ends, BlockEnds, LoopEnds, nested_value-Ends,
}

text-IsDistinct : (t : Text) → IsDistinct (text t)
unfolding IsDistinct
text-IsDistinct t = tt

pub end-KeysDistinct : KeysDistinct end
unfolding IsDistinct
end-KeysDistinct = tt

one_key-IsDistinct :
    (key : Text) (v : Value) → IsDistinct v → IsDistinct (mapping (field key v end))
unfolding IsDistinct has_key
one_key-IsDistinct key v d = (refl, d, tt)

pub involution : (b : Bool) → b ≡ not (not b)
involution true = refl
involution false = refl

pub Ends-weaken {ℓ} :
    {A : Type ℓ} (P : A → Type 0) (n m : ℕ) (r : Outcome YamlError (A × List Text))
    → n ≤ m
    → Ends (Left P n) r
    → Ends (Left P m) r
Ends-weaken P n m (ok p) h k = (omega (arith, h, k.0), k.1)
Ends-weaken P n m (raise e) h k = k

module _ (literal : Text → Outcome YamlError Value)
    (known : (t : Text) → Ends IsDistinct (literal t)) where
  pub mapping_value-Ends :
      (block : ℕ → List Text → Parsed) (raw : Text) (n indent : ℕ) (lines : List Text)
      → BlockEnds n block
      → length lines ≤ n
      → Ends (Left IsDistinct (length lines)) (mapping_value literal block raw indent lines)
  unfolding mapping_value
  mapping_value-Ends block raw n indent lines h k = go (mem raw block_styles) (text_eq raw [])
    where
      go :
          (a b : Bool)
          → Ends {A = Value × List Text} (Left IsDistinct (length lines)) (
              if a
              then (block_scalar indent (take 1 raw) (drop 1 raw) lines >>= λ (value, rest).
                  ok (text value, rest))
              else if b
              then nested_value block indent lines
              else (parse_scalar literal raw >>= λ value. ok (value, lines)))
      go true b =
          Ends-bind (Within (length lines)) (Left IsDistinct (length lines))
            (block_scalar indent (take 1 raw) (drop 1 raw) lines) _
            (block_scalar-Ends indent (take 1 raw) (drop 1 raw) lines)
            (λ p e. (e, text-IsDistinct p.0))
      go false true = nested_value-Ends block n indent lines h k
      go false false =
          Ends-bind IsDistinct (Left IsDistinct (length lines)) (parse_scalar literal raw) _
            (parse_scalar-Ends literal known raw) (λ value d. (omega arith, d))

  merged-Ends :
      (key : Text) (value : Value) (n : ℕ) (p : Fields × List Text)
      → IsDistinct value
      → Left KeysDistinct n p
      → Ends (Left IsDistinct n) (merged literal key value p)
  unfolding merged IsDistinct
  merged-Ends key value n (extra, rest) d h = go (has_key key extra) refl
    where
      go :
          (b : Bool)
          → has_key key extra ≡ b
          → Ends {A = Value × List Text}
              (Left IsDistinct n)
              (guard (not b) duplicate_list_keys >> ok (mapping (field key value extra), rest))
      go true e = tt
      go false e = (h.0, (e, d, h.1))

  list_item-Ends :
      (entries : MapParser) (n indent : ℕ) (key : Text) (value : Value) (lines : List Text)
      → IsDistinct value
      → LoopEnds KeysDistinct n entries
      → length lines ≤ n
      → Ends (Left IsDistinct (length lines)) (list_item literal entries indent key value lines)
  unfolding list_item
  list_item-Ends entries n indent key value lines d h k =
      go (next_content lines) (length-next_content lines)
    where
      go :
          (ls : List Text)
          → length ls ≤ length lines
          → Ends {A = Value × List Text} (Left IsDistinct (length lines)) (elim ls [
            | [] ↦ ok (mapping (field key value end), lines)
            | line ∷ rest ↦ indentation line >>= λ m.
                if m == indent + 2 && not (is_dashed (drop (indent + 2) line))
                then (entries (indent + 2) end (line ∷ rest) >>= merged literal key value)
                else ok (mapping (field key value end), lines)
          ])
      go [] l = (omega arith, one_key-IsDistinct key value d)
      go (line ∷ rest) l =
          Ends-bind Any (Left IsDistinct (length lines)) (indentation line) _
            (indentation-Ends line)
            (λ m _. inside (m == indent + 2 && not (is_dashed (drop (indent + 2) line))))
        where
          inside :
              (b : Bool)
              → Ends {A = Value × List Text} (Left IsDistinct (length lines)) (
                  if b
                  then (entries (indent + 2) end (line ∷ rest) >>= merged literal key value)
                  else ok (mapping (field key value end), lines))
          inside true =
              Ends-bind (Left KeysDistinct (length lines)) (Left IsDistinct (length lines))
                (entries (indent + 2) end (line ∷ rest)) (merged literal key value)
                (Ends-weaken KeysDistinct (length (line ∷ rest)) (length lines)
                  (entries (indent + 2) end (line ∷ rest)) l
                  (h (indent + 2) end (line ∷ rest) end-KeysDistinct (omega (arith, l, k))))
                (λ p e. merged-Ends key value (length lines) p d e)
          inside false = (omega arith, one_key-IsDistinct key value d)

  pub keyed_item-Ends :
      (block : ℕ → List Text → Parsed) (entries : MapParser) (n indent : ℕ) (raw_item : Text)
      (lines : List Text)
      → BlockEnds n block
      → LoopEnds KeysDistinct n entries
      → length lines ≤ n
      → Ends
          (Left IsDistinct (length lines))
          (keyed_item literal block entries indent raw_item lines)
  unfolding keyed_item
  keyed_item-Ends block entries n indent raw_item lines h g k =
      Ends-bind Any (Left IsDistinct (length lines)) (split_mapping literal raw_item) _
        (split_mapping-Ends literal known raw_item)
        (λ (key, raw) _.
          Ends-bind (Left IsDistinct (length lines)) (Left IsDistinct (length lines))
            (mapping_value literal block raw (indent + 2) lines) _
            (mapping_value-Ends block raw n (indent + 2) lines h k)
            (λ (value, behind) e.
              Ends-weaken IsDistinct (length behind) (length lines)
                (list_item literal entries indent key value behind) e.0
                (list_item-Ends entries n indent key value behind e.1 g (omega (arith, e.0, k)))))
