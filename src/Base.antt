-- ===== src/Base.antt =====
-- Names shared by the modules of this library: those of the libraries it stands on, passed on,
-- and those of three children (Boolean tests, lists under native indices, text).
mod Tests
mod Lists
mod Strings
mod Sets
mod Outcomes
mod Patterns
pub mod Balanced
pub mod Splits
pub use Tests.*
pub use Lists.*
unfoldable pub use Strings.*
unfoldable pub use Sets.*
pub use Outcomes.*
unfoldable pub use Patterns.*
pub use Prim.Native.Nat.{ℕ, zero, suc, ◌+◌, ◌-◌, ◌*◌, ◌/◌, ◌%◌, ◌^◌, ◌≤◌, ◌<◌}
pub use Prim.Native.String.{String}
pub use mathlib.Core.Path.{◌≡◌, refl, sym, ap, ◌∙◌, subst}
pub use mathlib.Core.Logic.{◌≢◌, ◌↔◌, ◌⊎◌, inl, inr}
pub use mathlib.Core.Bool.{Bool, true, false, not, ◌&&◌, ◌||◌}
pub use mathlib.Core.Option.{Option, none, some}
pub use mathlib.Core.List.{List, [], ◌∷◌, ◌++◌, map, append_assoc, append-nil}
pub use native.Mathlib.Omega.{arith}
