-- ===== src/Prelude.antt =====
-- The names that the other modules share.
pub mod Tests
pub mod Int
pub mod Strings
pub use Tests.*
pub use Int.{ℤ, pos, negsuc, neg, is_negative, abs, ◌+ℤ◌}
unfoldable pub use Strings.{text_eq, includes}
pub use Strings.{Text, length, text_eq→eq, text_eq_refl}
pub use Prim.Native.Nat.{ℕ, zero, suc, ◌+◌, ◌-◌, ◌*◌, ◌/◌, ◌%◌, ◌^◌, ◌≤◌, ◌<◌}
pub use Prim.Native.String.{String}
pub use mathlib.Core.Path.{◌≡◌, refl, sym, ap, ◌∙◌, subst}
pub use mathlib.Core.Logic.{◌≢◌, ◌↔◌, ◌⊎◌, inl, inr}
pub use mathlib.Core.Bool.{Bool, true, false, not, ◌&&◌, ◌||◌}
pub use mathlib.Core.Option.{Option, none, some}
pub use mathlib.Core.List.{List, [], ◌∷◌, ◌++◌, map}
pub use native.Mathlib.Omega.{arith}
