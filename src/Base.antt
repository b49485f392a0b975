-- ===== src/Base.antt =====
-- The names that the other modules share: the library's, passed on, and those of the children below.
mod Tests
mod Lists
mod Text
mod Dicts
mod Words
pub mod Http
unfoldable pub use Tests.*
unfoldable pub use Lists.*
unfoldable pub use Text.{strip, str}
unfoldable pub use Dicts.*
unfoldable pub use Words.*
pub use Text.{is_blank, or_none}
pub use Prim.Native.Nat.{ℕ, zero, suc, ◌+◌, ◌-◌, ◌*◌, ◌/◌, ◌%◌, ◌^◌, ◌≤◌, ◌<◌}
pub use Prim.Native.String.{String}
pub use mathlib.Core.Path.{◌≡◌, refl, sym, ap, ◌∙◌}
pub use mathlib.Core.Logic.{◌≢◌, ◌↔◌, ◌⊎◌, inl, inr}
pub use mathlib.Core.Bool.{Bool, true, false, ◌&&◌, ◌||◌, not}
pub use mathlib.Core.Option.{Option, none, some}
pub use mathlib.Core.List.{List, [], ◌∷◌, ◌++◌, map}
pub use native.Mathlib.Omega.{arith}
pub use text.Mathlib.Text.{◌==◌ as str_eq}
pub use text.Mathlib.TextEquality.{eq_iff}
