-- ===== src/Workflow/Parser/Rounds.antt =====
-- One round of each loop of the parser ends, and keeps the keys of every dict distinct.
use rpmz.Base.{
  ℕ, suc, ◌+◌, ◌≤◌, ◌≡◌, Bool, true, false, not, ◌||◌, List, [], ◌∷◌, arith, ◌==◌, if◌then◌else◌,
  length, drop, Text, codes, contains, strip, Outcome, ok, raise, ◌>>=◌, ◌>>◌, guard,
}
use rpmz.Workflow.Values.{Value, items, mapping, Items, nil, Fields, end, has_key, add, append}
use rpmz.Workflow.Distinct.{
  IsDistinct, AllDistinct, KeysDistinct, add-KeysDistinct, append-AllDistinct,
}
use rpmz.Workflow.Lines.{
  YamlError, unexpected_indentation, duplicate_key, indentation, next_content,
}
use rpmz.Workflow.Scalars.{parse_scalar, split_mapping}
use rpmz.Workflow.Scalars.Ends.{
  Ends, Any, Ends-bind, parse_scalar-Ends, split_mapping-Ends, indentation-Ends,
}
use rpmz.Workflow.Parser.{
  Parsed, MapParser, ListParser, is_dashed, mapping_value, block_step, map_step, keyed_item,
  list_step,
}
use rpmz.Workflow.Parser.Pieces.{Left, length-next_content, BlockEnds, LoopEnds}
use rpmz.Workflow.Parser.Members.{Ends-weaken, involution, mapping_value-Ends, keyed_item-Ends}

module _ (literal : Text → Outcome YamlError Value)
    (known : (t : Text) → Ends IsDistinct (literal t)) where
  pub block_step-Ends :
      (elements : ListParser) (entries : MapParser) (n : ℕ)
      → LoopEnds AllDistinct n elements
      → LoopEnds KeysDistinct n entries
      → BlockEnds n (block_step literal elements entries)
  unfolding block_step next_content IsDistinct
  block_step-Ends elements entries n h g indent child rest c k =
      rw (c, block_step)
        (Ends-bind Any (Left IsDistinct (length (child ∷ rest))) (indentation child) _
          (indentation-Ends child)
          (λ m _. inside (not (m == indent)) (is_dashed (drop indent child))))
    where
      inside :
          (a b : Bool)
          → Ends {A = Value × List Text} (Left IsDistinct (length (child ∷ rest))) (
              if a
              then raise unexpected_indentation
              else if b
              then (elements indent nil (child ∷ rest) >>= λ (values, behind).
                  ok (items values, behind))
              else (entries indent end (child ∷ rest) >>= λ (fields, behind).
                  ok (mapping fields, behind)))
      inside true b = tt
      inside false true =
          Ends-bind (Left AllDistinct (length (child ∷ rest)))
            (Left IsDistinct (length (child ∷ rest))) (elements indent nil (child ∷ rest)) _
            (h indent nil (child ∷ rest) tt k) (λ p e. e)
      inside false false =
          Ends-bind (Left KeysDistinct (length (child ∷ rest)))
            (Left IsDistinct (length (child ∷ rest))) (entries indent end (child ∷ rest)) _
            (g indent end (child ∷ rest) tt k) (λ p e. e)

  pub map_step-Ends :
      (block : ℕ → List Text → Parsed) (more : MapParser) (n indent : ℕ) (result : Fields)
      (lines : List Text)
      → BlockEnds n block
      → LoopEnds KeysDistinct n more
      → KeysDistinct result
      → length lines ≤ suc n
      → Ends (Left KeysDistinct (length lines)) (map_step literal block more indent result lines)
  unfolding map_step
  map_step-Ends block more n indent result lines h g d k =
      go (next_content lines) (length-next_content lines)
    where
      go :
          (ls : List Text)
          → length ls ≤ length lines
          → Ends {A = Fields × List Text} (Left KeysDistinct (length lines)) (elim ls [
            | [] ↦ ok (result, [])
            | line ∷ rest ↦ indentation line >>= λ m.
                if not (m == indent) || is_dashed (drop indent line)
                then ok (result, line ∷ rest)
                else (split_mapping literal (drop indent line) >>= λ (key, raw).
                    guard (not (has_key key result)) (duplicate_key key)
                    >> (mapping_value literal block raw indent rest >>= λ (value, behind).
                        more indent (add key value result) behind))
          ])
      go [] l = (omega arith, d)
      go (line ∷ rest) l =
          Ends-bind Any (Left KeysDistinct (length lines)) (indentation line) _
            (indentation-Ends line)
            (λ m _. inside (not (m == indent) || is_dashed (drop indent line)))
        where
          behind_guard :
              (b : Bool) (key raw : Text)
              → has_key key result ≡ not b
              → Ends {A = Fields × List Text} (Left KeysDistinct (length lines)) (
                  guard b (duplicate_key key)
                  >> (mapping_value literal block raw indent rest >>= λ (value, behind).
                      more indent (add key value result) behind))
          behind_guard false key raw e = tt
          behind_guard true key raw free =
              Ends-bind (Left IsDistinct (length rest)) (Left KeysDistinct (length lines))
                (mapping_value literal block raw indent rest) _
                (mapping_value-Ends literal known block raw n indent rest h (omega (arith, l, k)))
                (λ (value, behind) e.
                  Ends-weaken KeysDistinct (length behind) (length lines)
                    (more indent (add key value result) behind) (omega (arith, e.0, l))
                    (g indent (add key value result) behind
                      (add-KeysDistinct key value result free e.1 d) (omega (arith, e.0, l, k))))

          inside :
              (b : Bool)
              → Ends {A = Fields × List Text} (Left KeysDistinct (length lines)) (
                  if b
                  then ok (result, line ∷ rest)
                  else (split_mapping literal (drop indent line) >>= λ (key, raw).
                      guard (not (has_key key result)) (duplicate_key key)
                      >> (mapping_value literal block raw indent rest >>= λ (value, behind).
                          more indent (add key value result) behind)))
          inside true = (l, d)
          inside false =
              Ends-bind Any (Left KeysDistinct (length lines))
                (split_mapping literal (drop indent line)) _
                (split_mapping-Ends literal known (drop indent line))
                (λ (key, raw) _.
                  behind_guard (not (has_key key result)) key raw (involution (has_key key result)))

  pub list_step-Ends :
      (block : ℕ → List Text → Parsed) (entries : MapParser) (more : ListParser) (n indent : ℕ)
      (result : Items) (lines : List Text)
      → BlockEnds n block
      → LoopEnds KeysDistinct n entries
      → LoopEnds AllDistinct n more
      → AllDistinct result
      → length lines ≤ suc n
      → Ends
          (Left AllDistinct (length lines))
          (list_step literal block entries more indent result lines)
  unfolding list_step
  list_step-Ends block entries more n indent result lines h f g d k =
      go (next_content lines) (length-next_content lines)
    where
      go :
          (ls : List Text)
          → length ls ≤ length lines
          → Ends {A = Items × List Text} (Left AllDistinct (length lines)) (elim ls [
            | [] ↦ ok (result, [])
            | line ∷ rest ↦ indentation line >>= λ m.
                let raw_item = strip (drop (indent + 2) line) in
                if not (m == indent) || not (is_dashed (drop indent line))
                then ok (result, line ∷ rest)
                else if not (contains raw_item (codes ":"))
                then (parse_scalar literal raw_item >>= λ value.
                    more indent (append value result) rest)
                else (keyed_item literal block entries indent raw_item rest >>= λ (item, further).
                    more indent (append item result) further)
          ])
      go [] l = (omega arith, d)
      go (line ∷ rest) l =
          Ends-bind Any (Left AllDistinct (length lines)) (indentation line) _
            (indentation-Ends line)
            (λ m _.
              inside (not (m == indent) || not (is_dashed (drop indent line)))
                (not (contains (strip (drop (indent + 2) line)) (codes ":"))))
        where
          raw_item : Text
          raw_item = strip (drop (indent + 2) line)

          inside :
              (a b : Bool)
              → Ends {A = Items × List Text} (Left AllDistinct (length lines)) (
                  if a
                  then ok (result, line ∷ rest)
                  else if b
                  then (parse_scalar literal raw_item >>= λ value.
                      more indent (append value result) rest)
                  else (keyed_item literal block entries indent raw_item rest >>= λ (item, further).
                      more indent (append item result) further))
          inside true b = (l, d)
          inside false true =
              Ends-bind IsDistinct (Left AllDistinct (length lines)) (parse_scalar literal raw_item)
                _ (parse_scalar-Ends literal known raw_item)
                (λ value v.
                  Ends-weaken AllDistinct (length rest) (length lines)
                    (more indent (append value result) rest) (omega (arith, l))
                    (g indent (append value result) rest (append-AllDistinct value result v d)
                      (omega (arith, l, k))))
          inside false false =
              Ends-bind (Left IsDistinct (length rest)) (Left AllDistinct (length lines))
                (keyed_item literal block entries indent raw_item rest) _
                (keyed_item-Ends literal known block entries n indent raw_item rest h f
                  (omega (arith, l, k)))
                (λ (item, further) e.
                  Ends-weaken AllDistinct (length further) (length lines)
                    (more indent (append item result) further) (omega (arith, e.0, l))
                    (g indent (append item result) further (append-AllDistinct item result e.1 d)
                      (omega (arith, e.0, l, k))))
