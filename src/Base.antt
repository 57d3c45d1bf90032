-- ===== src/Base.antt =====
-- The names that every module shares: library names passed on, and those of the children.
mod Tests
mod Lists
mod Texts
mod Throwing
mod Sorting
mod TextOrder
mod Maps
pub mod Int
pub use Tests.*
unfoldable pub use Tests.{discrete_beq}
pub use Lists.*
unfoldable pub use Lists.{insert, insert_all, unique}
pub use Texts.{Text, text, text_beq_iff, text_eq, text_is_empty}
unfoldable pub use Texts.{text_beq, text_compare}
pub use Throwing.*
unfoldable pub use Throwing.{fold_m, flat_map_m}
pub use Sorting.*
unfoldable pub use Sorting.{place, sort}
pub use TextOrder.*
unfoldable pub use TextOrder.{text_leb}
pub use Maps.*
unfoldable pub use Maps.{get_entry, set_entry}
pub use Prim.Native.Nat.{ℕ, zero, suc, ◌+◌, ◌-◌, ◌*◌, ◌/◌, ◌%◌, ◌^◌, ◌≤◌, ◌<◌, Ordering, compare}
pub use mathlib.Core.Path.{◌≡◌, refl, sym, ap, ◌∙◌, subst}
pub use mathlib.Core.Logic.{◌≢◌, ◌↔◌, ◌⊎◌, inl, inr}
pub use mathlib.Core.Bool.{Bool, true, false, not, ◌&&◌, ◌||◌}
pub use mathlib.Core.Option.{Option, none, some}
pub use mathlib.Core.List.{List, [], ◌∷◌, ◌++◌, map}
pub use native.Mathlib.Omega.{arith}
