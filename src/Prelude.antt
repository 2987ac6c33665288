-- ===== src/Prelude.antt =====
-- Names and helpers that every module shares: the libraries' names passed on, Boolean tests,
-- lists measured by native numbers, equality tests, results and methods.
mod Tests
mod Lists
mod Equality
mod Outcome
mod Ints
pub use Tests.*
pub use Lists.*
pub use Equality.{Eq, ◌==◌, ==_iff, ==_refl, nat_eq, string_eq}
unfoldable pub use Equality.{pair_eq}
pub use Outcome.*
pub use Ints.*
pub use Prim.Native.Nat.{ℕ, zero, suc, ◌+◌, ◌-◌, ◌*◌, ◌/◌, ◌%◌, ◌^◌, ◌≤◌, ◌<◌}
pub use Prim.Native.String.{String}
pub use mathlib.Core.Path.{◌≡◌, refl, sym, ap, ◌∙◌}
pub use mathlib.Core.Logic.{◌≢◌, ◌↔◌, ◌⊎◌, inl, inr}
pub use mathlib.Core.Bool.{Bool, true, false, not, ◌&&◌, ◌||◌}
pub use mathlib.Core.Option.{Option, none, some}
pub use mathlib.Core.List.{List, [], ◌∷◌, ◌++◌, map, reverse, append_assoc, append-nil}
pub use native.Mathlib.Omega.{arith}
