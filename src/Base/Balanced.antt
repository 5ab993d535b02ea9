-- ===== src/Base/Balanced.antt =====
-- Text whose parentheses match.
use Prim.Native.Nat.{ℕ}
use mathlib.Core.Path.{◌≡◌}
use mathlib.Core.Logic.{◌≢◌}
use mathlib.Core.List.{[], ◌∷◌, ◌++◌}
use rpmz.Base.Strings.{Text}

-- Text in which each parenthesis has its partner.
pub data IsBalanced : Text → Type 0 where
  nil : IsBalanced []
  plain : {c : ℕ} {s : Text} → c ≢ b'(' → c ≢ b')' → IsBalanced s → IsBalanced (c ∷ s)
  group :
      {inner more s : Text}
      → IsBalanced inner
      → IsBalanced more
      → s ≡ b'(' ∷ (inner ++ (b')' ∷ more))
      → IsBalanced s
