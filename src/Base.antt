-- ===== src/Base.antt =====
-- The names that the modules share: the libraries', passed on, and those of the children, which
-- hold Boolean tests, lists, rows of a table, texts, and the monad of the service methods.
mod Tests
mod Integers
mod Lists
mod Rows
mod Sorting
mod Unique
mod Rekeyed
mod Actions
pub use Tests.*
pub use Integers.*
pub use Lists.*
pub use Rows.*
pub use Sorting.*
pub use Unique.*
pub use Rekeyed.*
pub use Actions.*
pub use Prim.Native.Nat.{ℕ, zero, suc, ◌+◌, ◌-◌, ◌*◌, ◌/◌, ◌%◌, ◌≤◌, ◌<◌}
pub use Prim.Native.String.{String}
pub use mathlib.Core.Path.{◌≡◌, refl, sym, ap, subst, ◌∙◌}
pub use mathlib.Core.Logic.{◌≢◌, ◌↔◌, ◌⊎◌, inl, inr}
pub use mathlib.Core.Bool.{Bool, true, false, not, ◌&&◌, ◌||◌}
pub use mathlib.Core.Option.{Option, none, some}
pub use mathlib.Core.List.{List, [], ◌∷◌, ◌++◌, map, Memᴰ}
pub use native.Mathlib.Omega.{arith}
pub use text.Mathlib.TextEquality.{eq_iff}
pub use text.Mathlib.TextPositions.{eq_refl}
unfoldable pub use text.Mathlib.Text.{◌==◌}
