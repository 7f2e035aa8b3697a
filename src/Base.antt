-- ===== src/Base.antt =====
-- Names that every module of the library shares: those of the libraries, passed on, and those of
-- the children. No file of the repository is modelled here.
mod Tests
mod Lists
mod Equality
mod Dictionary
mod Expiry
mod Sets
mod Rounding
mod Integers
mod Outcomes
pub use Tests.*
unfoldable pub use Lists.*
pub use Equality.*
unfoldable pub use Dictionary.*
unfoldable pub use Expiry.*
unfoldable pub use Sets.*
unfoldable pub use Rounding.*
unfoldable pub use Integers.*
unfoldable pub use Outcomes.*
pub use Prim.Native.Nat.{ℕ, zero, suc, ◌+◌, ◌-◌, ◌*◌, ◌/◌, ◌%◌, ◌≤◌, ◌<◌, max, min}
pub use Prim.Native.String.{String}
pub use mathlib.Core.Path.{◌≡◌, refl, sym, ap, ◌∙◌}
pub use mathlib.Core.Logic.{◌≢◌, ◌↔◌, ◌⊎◌, inl, inr}
pub use mathlib.Core.Bool.{Bool, true, false, not, ◌&&◌, ◌||◌}
pub use mathlib.Core.Option.{Option, none, some}
pub use mathlib.Core.List.{List, [], ◌∷◌, ◌++◌, map}
pub use native.Mathlib.Omega.{arith}
