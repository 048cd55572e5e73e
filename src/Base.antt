-- ===== src/Base.antt =====
-- Names that the other modules share: the libraries', passed on, and Boolean tests, row selection
-- and the trimming of texts (Go's strings.TrimSpace) from the children.
mod Tests
mod Rows
mod Keys
mod All
mod Text
mod Outcome
mod Page
pub use Tests.*
unfoldable pub use Rows.*
unfoldable pub use Keys.*
unfoldable pub use All.*
unfoldable pub use Text.*
pub use Outcome.*
unfoldable pub use Page.*
pub use Prim.Native.Nat.{ℕ, zero, suc, ◌+◌, ◌-◌, ◌*◌, ◌%◌, ◌^◌, ◌≤◌, ◌<◌}
pub use Prim.Native.String.{String}
pub use mathlib.Core.Path.{◌≡◌, refl, sym, ap, ◌∙◌}
pub use mathlib.Core.Logic.{◌≢◌, ◌⊎◌, inl, inr}
pub use mathlib.Core.Bool.{Bool, true, false, not, ◌&&◌, ◌||◌}
pub use mathlib.Core.Option.{Option, none, some}
pub use mathlib.Core.List.{List, [], ◌∷◌, ◌++◌, map}
pub use text.Mathlib.Text.{◌==◌ as str_eq}
pub use text.Mathlib.TextEquality.{eq_iff}
pub use text.Mathlib.TextPositions.{eq_refl}
pub use native.Mathlib.Omega.{arith}
