-- ===== src/Base.antt =====
-- What the other modules share: the libraries' names, passed on, and those of the children.
mod Tests
mod Lists
pub mod Int
pub mod Int32
pub mod Order
pub mod Text
pub mod Sort
pub mod Keep
pub mod Keys
pub mod Map
pub mod Float
pub mod Date
mod Errors
pub use Errors.*
pub use Tests.*
unfoldable pub use Lists.*
pub use Prim.Native.Nat.{ℕ, zero, suc, ◌+◌, ◌-◌, ◌*◌, ◌/◌, ◌%◌, ◌^◌, ◌≤◌, ◌<◌}
pub use mathlib.Core.Path.{◌≡◌, refl, sym, ap, ◌∙◌, subst}
pub use mathlib.Core.Logic.{◌≢◌, ◌↔◌, ◌⊎◌, inl, inr}
pub use mathlib.Core.Bool.{Bool, true, false, not, ◌&&◌, ◌||◌}
pub use mathlib.Core.Option.{Option, none, some}
pub use mathlib.Core.List.{List, [], ◌∷◌, ◌++◌, map, Mem, Perm}
pub use native.Mathlib.Omega.{arith}
