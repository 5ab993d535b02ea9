-- ===== src/Workflow/Parser/Ends.antt =====
-- The parser ends: twice as much fuel as there are lines is enough, and no line is read that is not there.
use rpmz.Base.{
  ℕ, zero, suc, ◌+◌, ◌*◌, ◌<◌, ◌≡◌, refl, true, List, [], ◌∷◌, arith, length, Text, Outcome, ok,
  raise, ◌>>=◌,
}
use rpmz.Workflow.Values.{Value, text, items, mapping, tuple, other_literal, end}
use rpmz.Workflow.Distinct.{IsDistinct, AllDistinct, KeysDistinct, empty-IsDistinct}
use rpmz.Workflow.Lines.{
  YamlError, trailing_content, split_lines, indentation, next_content, is_content,
}
use rpmz.Workflow.Scalars.Ends.{Ends, Any, Ends-bind, indentation-Ends}
use rpmz.Workflow.Parser.{
  map_step, list_step, parse_block, parse_map, parse_list, nothing_behind, parse_lines, as_document,
  parse_workflow,
}
use rpmz.Workflow.Parser.Pieces.{Left, next_content-is_content, BlockEnds, LoopEnds}
use rpmz.Workflow.Parser.Rounds.{block_step-Ends, map_step-Ends, list_step-Ends}

module _ (literal : Text → Outcome YamlError Value)
    (known : (t : Text) → Ends IsDistinct (literal t)) where
  mutual
    unfolding parse_block map_step list_step next_content

    parse_block-Ends : (fuel n : ℕ) → 2 * n + 1 < fuel → BlockEnds n (parse_block literal fuel)
    parse_block-Ends zero n h indent child rest c k = absurd (omega arith)
    parse_block-Ends (suc fuel) n h indent child rest c k =
        block_step-Ends literal known (parse_list literal fuel) (parse_map literal fuel) n
          (parse_list-Ends fuel n (omega arith)) (parse_map-Ends fuel n (omega arith)) indent child
          rest c k

    parse_map-Ends : (fuel n : ℕ) → 2 * n < fuel → LoopEnds KeysDistinct n (parse_map literal fuel)
    parse_map-Ends zero n h indent result lines d k = absurd (omega arith)
    parse_map-Ends (suc fuel) zero h indent result [] d k = (omega arith, d)
    parse_map-Ends (suc fuel) zero h indent result (line ∷ lines) d k = absurd (omega (arith, k))
    parse_map-Ends (suc fuel) (suc n) h indent result lines d k =
        map_step-Ends literal known (parse_block literal fuel) (parse_map literal fuel) n indent
          result lines (parse_block-Ends fuel n (omega arith)) (parse_map-Ends fuel n (omega arith))
          d k

    parse_list-Ends : (fuel n : ℕ) → 2 * n < fuel → LoopEnds AllDistinct n (parse_list literal fuel)
    parse_list-Ends zero n h indent result lines d k = absurd (omega arith)
    parse_list-Ends (suc fuel) zero h indent result [] d k = (omega arith, d)
    parse_list-Ends (suc fuel) zero h indent result (line ∷ lines) d k = absurd (omega (arith, k))
    parse_list-Ends (suc fuel) (suc n) h indent result lines d k =
        list_step-Ends literal known (parse_block literal fuel) (parse_map literal fuel)
          (parse_list literal fuel) n indent result lines (parse_block-Ends fuel n (omega arith))
          (parse_map-Ends fuel n (omega arith)) (parse_list-Ends fuel n (omega arith)) d k

  nothing_behind-Ends :
      (p : Value × List Text) → IsDistinct p.0 → Ends IsDistinct (nothing_behind literal p)
  unfolding nothing_behind
  nothing_behind-Ends (value, rest) d = go (next_content rest)
    where
      go :
          (ls : List Text)
          → Ends {A = Value} IsDistinct (elim ls [ [] ↦ ok value | _ ∷ _ ↦ raise trailing_content ])
      go [] = d
      go (_ ∷ _) = tt

  parse_lines-Ends : (lines : List Text) → Ends IsDistinct (parse_lines literal lines)
  unfolding parse_lines
  parse_lines-Ends lines = go (next_content lines) (next_content-is_content lines)
    where
      go :
          (ls : List Text)
          → ((line : Text) (rest : List Text) → ls ≡ line ∷ rest → is_content line ≡ true)
          → Ends {A = Value} IsDistinct (elim ls [
            | [] ↦ ok (mapping end)
            | line ∷ rest ↦ do
              indent ← indentation line
              parsed ← parse_block literal (2 * length (line ∷ rest) + 2) indent (line ∷ rest)
              nothing_behind literal parsed
          ])
      go [] c = empty-IsDistinct
      go (line ∷ rest) c =
          Ends-bind Any IsDistinct (indentation line) _ (indentation-Ends line) (λ indent _.
            Ends-bind (Left IsDistinct (length (line ∷ rest))) IsDistinct
              (parse_block literal (2 * length (line ∷ rest) + 2) indent (line ∷ rest)) _
              (parse_block-Ends (2 * length (line ∷ rest) + 2) (length (line ∷ rest)) (omega arith)
                indent line rest (c line rest refl) (omega arith))
              (λ p e. nothing_behind-Ends p e.1))

  as_document-Ends : (v : Value) → IsDistinct v → Ends KeysDistinct (as_document literal v)
  unfolding as_document IsDistinct
  as_document-Ends (mapping fields) d = d
  as_document-Ends (items xs) d = tt
  as_document-Ends (text t) d = tt
  as_document-Ends (Value.boolean b) d = tt
  as_document-Ends Value.null d = tt
  as_document-Ends (tuple xs) d = tt
  as_document-Ends (other_literal b n) d = tt

  workflow-Ends : (source : Text) → Ends KeysDistinct (parse_workflow literal source)
  unfolding parse_workflow
  workflow-Ends source =
      Ends-bind IsDistinct KeysDistinct (parse_lines literal (split_lines source))
        (as_document literal) (parse_lines-Ends (split_lines source)) (λ v d. as_document-Ends v d)

-- If what reads a quoted text ends with a value in which the keys of every dict are distinct or with one
-- of the exceptions that the parser raises itself, then `parse_workflow` does so on every text: neither
-- does the fuel run out, nor is a line read behind the last one, nor does a key overwrite an earlier one.
pub parse_workflow-Ends :
    (literal : Text → Outcome YamlError Value)
    → ((t : Text) → Ends IsDistinct (literal t))
    → (source : Text) → Ends KeysDistinct (parse_workflow literal source)
parse_workflow-Ends literal known source = workflow-Ends literal known source
