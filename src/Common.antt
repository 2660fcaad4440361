-- ===== src/Common.antt =====
-- Names that every module shares: the library's, passed on, and the tests, dictionaries and lists
-- of the children.
pub mod Tests
pub mod Dict
pub mod Lists
pub use Tests.{
  Eq, string_eq, pair_eq, if◌then◌else◌, ltb, leb, Bool-cases, Option-cases, is_some, concat,
  str_leb,
}
pub use Lists.{length, take, filter, filter_map, All, Any, map-All, pair}
pub use Prim.Native.Nat.{ℕ, zero, suc, ◌+◌, ◌-◌, ◌*◌, ◌/◌, ◌%◌, ◌^◌, ◌≤◌, ◌<◌}
pub use Prim.Native.String.{String}
pub use mathlib.Core.Path.{◌≡◌, refl, sym, ap, ◌∙◌}
pub use mathlib.Core.Logic.{◌≢◌, ◌↔◌, ◌⊎◌, inl, inr}
pub use mathlib.Core.Bool.{Bool, true, false, not, ◌&&◌, ◌||◌}
pub use mathlib.Core.Option.{Option, none, some}
pub use mathlib.Core.List.{List, [], ◌∷◌, ◌++◌, map}
pub use native.Mathlib.Omega.{arith}
pub use text.Mathlib.Text.{◌==◌}
pub use text.Mathlib.TextEquality.{eq_iff}
pub use text.Mathlib.TextPositions.{eq_refl}
