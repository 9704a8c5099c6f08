-- ===== src/Prelude.antt =====
-- The names that the other modules share: the libraries', passed on, and those of the children.
mod Tests
mod Int
mod Equality
mod Lists
mod Membership
pub use Tests.*
pub use Int.{ℤ, pos, negsuc, int_ltb, is_int32, int_beq_iff, c_int32_self, is_int32-c_int32}
unfoldable pub use Int.{int_beq, c_int32}
pub use Equality.*
unfoldable pub use Equality.{list_beq, contains, distinct}
pub use Lists.*
pub use Membership.*
unfoldable pub use Membership.{index_of}
pub use Prim.Native.Nat.{ℕ, zero, suc, ◌+◌, ◌-◌, ◌*◌, ◌≤◌, ◌<◌}
pub use Prim.Native.String.{String}
pub use mathlib.Core.Path.{◌≡◌, refl, sym, ap, ap₂, ◌∙◌, subst, fun_ext}
pub use mathlib.Core.Logic.{◌≢◌, ◌↔◌, ◌⊎◌, inl, inr}
pub use mathlib.Core.Bool.{Bool, true, false, ◌&&◌, ◌||◌, not}
pub use mathlib.Core.Option.{Option, none, some}
pub use mathlib.Core.List.{List, [], ◌∷◌, ◌++◌, map}
pub use native.Mathlib.Omega.{arith}
