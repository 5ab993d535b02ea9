-- ===== src/Errdefer/Scan/Findings.antt =====
-- Which lines `scan` reports.
use rpmz.Base.{
  ℕ, ◌+◌, ◌≡◌, true, some, List, [], ◌∷◌, get_elem?, take, Text, strip, Outcome, ok, ◌>>=◌,
}
use rpmz.Errdefer.Strip.{strip_noise}
use rpmz.Errdefer.Signature.{has_errdefer}
use rpmz.Errdefer.Scan.{Desync, Finding, Stack, enclosing, is_dead, braces, find_open}

-- The stack behind the lines from number `i` on.
pub stack_behind : ℕ → List (ℕ × Text) → List Text → Stack → Outcome Desync Stack
stack_behind i opens [] stack = ok stack
stack_behind i opens (raw ∷ raws) stack =
    braces i (find_open i opens) (strip_noise raw) stack >>= stack_behind (i + 1) opens raws

-- The finding is for line `j` of the list, which has an `errdefer` directly in a function body whose
-- return type `r` is dead.
abbrev pub IsFinding : ℕ → List (ℕ × Text) → List Text → Stack → Finding → Type 0
IsFinding i opens raws stack f =
    (j : ℕ) × (raw : Text) × (st : Stack) × (r : Text) × (get_elem? raws j ≡ some raw)
    × (stack_behind i opens (take j raws) stack ≡ ok st)
    × (has_errdefer (strip_noise raw) ≡ true)
    × (enclosing st ≡ some r)
    × (is_dead r ≡ true)
    × (f ≡ (i + j + 1, r, strip raw))
