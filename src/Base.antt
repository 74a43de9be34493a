-- ===== src/Base.antt =====
-- The names that the other modules share: the libraries', passed on, and those of the children.
mod Tests
mod Lists
mod Equality
mod Maybe
mod Strings
mod Runes
pub mod Dict
pub use Tests.*
unfoldable pub use Strings.{is_space, trim_left, trim_space, is_empty, decimal, decimal_fuel}
unfoldable pub use Runes.{runes, byte_length}
pub use Maybe.*
pub use Lists.*
pub use Equality.{Eq, ◌==◌, nat_eq, Text, codes, text_eq, ==-self, text_beq_iff}
unfoldable pub use Equality.{text_beq}
pub use Prim.Native.Nat.{ℕ, zero, suc, ◌+◌, ◌-◌, ◌*◌, ◌/◌, ◌%◌, ◌^◌, ◌≤◌, ◌<◌}
pub use mathlib.Core.Path.{◌≡◌, refl, sym, ap, subst, ◌∙◌}
pub use mathlib.Core.Logic.{◌≢◌, ◌↔◌, ◌⊎◌, inl, inr}
pub use mathlib.Core.Bool.{Bool, true, false, ◌&&◌, ◌||◌, not, false≢true}
pub use mathlib.Core.Option.{Option, none, some}
pub use mathlib.Core.List.{List, [], ◌∷◌, ◌++◌, map, reverse, append-nil, append_assoc}
pub use native.Mathlib.Omega.{arith}
