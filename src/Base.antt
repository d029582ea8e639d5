-- ===== src/Base.antt =====
-- The names that the other modules share: the libraries' numbers, paths, lists and options, passed
-- on, with the Boolean tests, the list functions over native numbers and the bit operations of the
-- children.
pub mod Tests
pub mod Int
pub mod Lists
pub mod Bits
pub mod Count
pub mod Monad
pub mod Loop
pub use Tests.*
pub use Int.*
unfoldable pub use Count.*
pub use Monad.*
unfoldable pub use Loop.*
pub use Lists.*
unfoldable pub use Bits.*
pub use Prim.Native.Nat.{ℕ, zero, suc, ◌+◌, ◌-◌, ◌*◌, ◌/◌, ◌%◌, ◌^◌, ◌≤◌, ◌<◌, min}
pub use mathlib.Core.Path.{◌≡◌, refl, sym, ap, ◌∙◌, fun_ext}
pub use mathlib.Core.Logic.{◌≢◌, ◌↔◌, ◌⊎◌, inl, inr}
pub use mathlib.Core.Bool.{Bool, true, false, ◌&&◌, ◌||◌, not}
pub use mathlib.Core.Option.{Option, none, some}
pub use mathlib.Core.List.{List, [], ◌∷◌, ◌++◌, map, reverse}
pub use native.Mathlib.Omega.{arith}
