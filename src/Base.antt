-- ===== src/Base.antt =====
-- The names that every module shares: those of the libraries, passed on, and those of the children:
-- Boolean tests and case lemmas (Tests), lists over the native numbers (Lists), the interface of
-- the 32-bit floats (Floats), the results of fallible code (Results), functions of `str` (Texts) and ordered maps (Maps).
mod Tests
mod Lists
pub mod Floats
pub mod Results
pub mod Texts
pub mod Maps
unfoldable pub use Tests.*
unfoldable pub use Lists.*
pub use Prim.Native.Nat.{ℕ, zero, suc, ◌+◌, ◌-◌, ◌*◌, ◌/◌, ◌%◌, ◌^◌, ◌≤◌, ◌<◌}
pub use Prim.Native.String.{String}
pub use mathlib.Core.Path.{◌≡◌, refl, sym, ap, ◌∙◌, subst}
pub use mathlib.Core.Logic.{◌≢◌, ◌↔◌, ◌⊎◌, inl, inr}
pub use mathlib.Core.Bool.{Bool, true, false, not, ◌&&◌, ◌||◌}
pub use mathlib.Core.Option.{Option, none, some}
pub use mathlib.Core.List.{List, [], ◌∷◌, ◌++◌, map}
pub use native.Mathlib.Omega.{arith}
pub use text.Mathlib.TextEquality.{eq_iff}
