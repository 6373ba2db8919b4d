-- ===== src/Base.antt =====
-- What the components share: names of the libraries, Boolean tests, byte strings, results, decimals.
mod Tests
mod Lists
mod Results
mod Text
mod Split
mod Decimal
mod Path
unfoldable pub use Tests.*
unfoldable pub use Lists.*
unfoldable pub use Results.*
unfoldable pub use Text.*
unfoldable pub use Split.*
unfoldable pub use Decimal.*
unfoldable pub use Path.*
pub use Prim.Native.Nat.{ℕ, zero, suc, ◌+◌, ◌-◌, ◌*◌, ◌/◌, ◌%◌, ◌^◌, ◌≤◌, ◌<◌, min}
pub use Prim.Native.String.{String}
pub use mathlib.Core.Path.{◌≡◌, refl, sym, ap, ◌∙◌}
pub use mathlib.Core.Logic.{◌≢◌, ◌↔◌, ◌⊎◌, inl, inr}
pub use mathlib.Core.Bool.{Bool, true, false, not, ◌&&◌, ◌||◌}
pub use mathlib.Core.Option.{Option, none, some}
pub use mathlib.Core.List.{
  List, [], ◌∷◌, ◌++◌, map, reverse, reverse-append, reverse-reverse, foldl, foldl-append,
  append-nil, append_assoc, concat-ne-nil,
}
pub use native.Mathlib.Omega.{arith}
