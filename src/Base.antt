-- ===== src/Base.antt =====
-- What the modules share: library names, tests on numbers, lists, integers, keys, JavaScript's
-- `Map` and `Array.sort`.
mod Tests
mod Lists
pub mod Int
pub mod Keys
pub mod Map
pub mod Sort
pub mod Sorted
pub use Tests.*
unfoldable pub use Lists.*
pub use Prim.Native.Nat.{ℕ, zero, suc, ◌+◌, ◌-◌, ◌*◌, ◌/◌, ◌%◌, ◌^◌, ◌≤◌, ◌<◌, min, max}
pub use Prim.Native.String.{String}
pub use mathlib.Core.Path.{◌≡◌, refl, sym, ap, ap₂, ◌∙◌, subst}
pub use mathlib.Core.Logic.{◌≢◌, ◌↔◌, ◌⊎◌, inl, inr}
pub use mathlib.Core.Bool.{Bool, true, false, not, ◌&&◌, ◌||◌}
pub use mathlib.Core.Option.{Option, none, some}
pub use mathlib.Core.List.{List, [], ◌∷◌, ◌++◌, map, reverse, foldl}
pub use mathlib.Core.List.{append-nil, append_assoc, reverse-cons, map-append}
pub use native.Mathlib.Omega.{arith}
