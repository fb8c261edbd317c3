-- ===== src/Common.antt =====
-- The names that every module shares: the libraries', passed on, and the model's own helpers for
-- what the Python code takes from its language (comparison, `in`, truth values, dicts, sorting).
mod Equality
mod Lists
mod Exceptions
pub mod Dict
pub mod Text
pub mod Sorted
pub mod Sorting
pub mod Tally
unfoldable pub use Equality.*
pub use Lists.*
pub use Exceptions.*
pub use Prim.Native.Nat.{ℕ, zero, suc, ◌+◌, ◌-◌, ◌≤◌, ◌<◌}
pub use Prim.Native.String.{String, ◌++◌ as ◌<>◌}
pub use mathlib.Core.Path.{◌≡◌, refl, sym, ◌∙◌, ap}
pub use mathlib.Core.Logic.{◌≢◌, ◌↔◌, ◌⊎◌, inl, inr}
pub use mathlib.Core.Bool.{Bool, true, false, ◌&&◌, ◌||◌, not}
pub use mathlib.Core.Option.{Option, none, some}
pub use mathlib.Core.List.{List, [], ◌∷◌, ◌++◌, map}
pub use native.Mathlib.Omega.{arith}
