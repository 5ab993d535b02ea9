-- ===== src/Errdefer/Scan/Balance.antt =====
-- The stack of `scan` as a counter: whether a file is refused, and with which message, depends only
-- on how many braces are open.
use rpmz.Base.{
  ℕ, zero, suc, ◌+◌, ◌≡◌, refl, ap, ◌∙◌, inl, inr, true, false, Option, none, some, List, [], ◌∷◌,
  ◌++◌, map, ◌==◌, if◌then◌else◌, Bool-cases, length, Text, split, Outcome, ok, raise, ◌>>=◌,
}
use rpmz.Errdefer.Strip.{strip_noise}
use rpmz.Errdefer.Scan.{
  Desync, unmatched, unclosed, Finding, Stack, has_open, braces, find_open, report, scan_lines,
  scan,
}

-- The number of open braces behind a text, or none if one is closed that was not opened.
pub depth : Text → ℕ → Option ℕ
depth [] n = some n
depth (c ∷ s) n = elim (c == b'{') [
  | true ↦ depth s (suc n)
  | false ↦ elim (c == b'}') [
    | true ↦ elim n [ zero ↦ none | suc m ↦ depth s m ]
    | false ↦ depth s n
  ]
]

-- The message for the lines from number `i` on, which begin with `n` open braces.
pub verdict : ℕ → List Text → ℕ → Option Desync
verdict i [] zero = none
verdict i [] (suc n) = some (unclosed (suc n))
verdict i (line ∷ lines) n = elim (depth line n) [
  | none ↦ some (unmatched (i + 1))
  | some m ↦ verdict (i + 1) lines m
]

abbrev pub failure {ℓ} : {A : Type ℓ} → Outcome Desync A → Option Desync
failure (ok a) = none
failure (raise e) = some e

-- What `braces` does to a stack of that height.
abbrev Agrees : ℕ → Outcome Desync Stack → Option ℕ → Type 0
Agrees i (ok stack) d = d ≡ some (length stack)
Agrees i (raise e) d = (e ≡ unmatched (i + 1)) × (d ≡ none)

braces-Agrees :
    (i : ℕ) (opened : Option Text) (s : Text) (stack : Stack)
    → Agrees i (braces i opened s stack) (depth s (length stack))
unfolding braces depth
braces-Agrees i opened [] stack = refl
braces-Agrees i opened (c ∷ s) stack = elim (Bool-cases (c == b'{')) [
  | inl e ↦
      rw (e, braces, depth)
        (braces-Agrees i opened s ((if has_open s then none else opened) ∷ stack))
  | inr e ↦ elim (Bool-cases (c == b'}')) [
    | inl f ↦ rw (e, braces, depth) (rw (f, braces, depth) (pop stack (braces-Agrees i opened s)))
    | inr f ↦ rw (e, braces, depth) (rw (f, braces, depth) (braces-Agrees i opened s stack))
  ]
]
  where
    pop :
        (st : Stack)
        → ((st' : Stack) → Agrees i (braces i opened s st') (depth s (length st')))
        → Agrees i
            (elim st [ [] ↦ raise (unmatched (i + 1)) | _ ∷ below ↦ braces i opened s below ])
            (elim (length st) [ zero ↦ none | suc m ↦ depth s m ])
    pop [] h = (refl, refl)
    pop (x ∷ st) h = h st

scan_lines-verdict :
    (i : ℕ) (opens : List (ℕ × Text)) (raws : List Text) (stack : Stack)
    → failure (scan_lines i opens raws stack) ≡ verdict i (map strip_noise raws) (length stack)
unfolding scan_lines verdict
scan_lines-verdict i opens [] [] = refl
scan_lines-verdict i opens [] (x ∷ stack) = refl
scan_lines-verdict i opens (raw ∷ raws) stack =
    go (braces i (find_open i opens) (strip_noise raw) stack)
      (depth (strip_noise raw) (length stack))
      (braces-Agrees i (find_open i opens) (strip_noise raw) stack)
      (scan_lines-verdict (i + 1) opens raws)
  where
    rest : Stack → Outcome Desync (List Finding)
    rest stack' = scan_lines (i + 1) opens raws stack' >>= λ later.
        ok (report i raw (strip_noise raw) stack ++ later)

    keep :
        (m : Outcome Desync (List Finding)) (f : List Finding → List Finding)
        → failure (m >>= λ later. ok (f later)) ≡ failure m
    keep (ok a) f = refl
    keep (raise e) f = refl

    go :
        (m : Outcome Desync Stack) (d : Option ℕ)
        → Agrees i m d
        → ((st : Stack)
            → failure (scan_lines (i + 1) opens raws st)
              ≡ verdict (i + 1) (map strip_noise raws) (length st))
        → failure (m >>= rest) ≡ elim d [
          | none ↦ some (unmatched (i + 1))
          | some n ↦ verdict (i + 1) (map strip_noise raws) n
        ]
    go (ok st) d e h = rw e (keep (scan_lines (i + 1) opens raws st) _ ∙ h st)
    go (raise e) d (a, b) h = rw b (ap some a)

-- A file is refused exactly if its braces do not match: `unmatched` names the first line with a
-- closing brace that was not opened, `unclosed` tells how many are open at the end of the file,
-- and otherwise there is a report.
pub scan-verdict :
    (text : Text) → failure (scan text) ≡ verdict 0 (map strip_noise (split b'\n' text)) 0
unfolding scan
scan-verdict text = scan_lines-verdict 0 _ (split b'\n' text) []
