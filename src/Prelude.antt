-- ===== src/Prelude.antt =====
-- Names that all the other modules share: the libraries', passed on, and those of the children.
mod Tests
mod Lists
mod Runs
mod Exceptions
mod Keys
mod HashMap
pub mod Decimal
pub use Tests.*
pub use Lists.*
pub use Runs.*
pub use Exceptions.*
pub use Keys.*
pub use HashMap.*
pub use Prim.Native.Nat.{ℕ, zero, suc, ◌+◌, ◌-◌, ◌*◌, ◌/◌, ◌%◌, ◌^◌, ◌≤◌, ◌<◌}
pub use mathlib.Core.Path.{◌≡◌, refl, sym, ap, ◌∙◌, subst}
pub use mathlib.Core.Logic.{◌≢◌, ◌↔◌, ◌⊎◌, inl, inr, ⊎_elim}
pub use mathlib.Core.Bool.{Bool, true, false, ◌&&◌, ◌||◌, not}
pub use mathlib.Core.Option.{Option, none, some}
pub use mathlib.Core.List.{List, [], ◌∷◌, ◌++◌, map, Memᴰ, Permᴰ}
pub use native.Mathlib.Omega.{arith}
