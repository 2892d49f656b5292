-- ===== src/Common.antt =====
-- The names that the other modules share: the libraries', passed on, and those of the children.
pub mod Bools
pub mod Lists
pub mod Text
pub mod Sort
pub mod Int
pub mod Assoc
pub mod Find
pub mod Result
pub use Bools.*
pub use Lists.*
unfoldable pub use Text.{bytes_eq}
pub use Text.{Bytes, codes, utf8, bytes_eq_refl, bytes_eq_sound, bytes_eq_iff}
pub use Prim.Native.Nat.{ℕ, zero, suc, ◌+◌, ◌-◌, ◌*◌, ◌/◌, ◌%◌, ◌^◌, ◌≤◌, ◌<◌, min}
pub use mathlib.Core.Path.{◌≡◌, refl, sym, ap, ◌∙◌, subst}
pub use mathlib.Core.Logic.{◌≢◌, ◌↔◌, ◌⊎◌, inl, inr}
pub use mathlib.Core.Bool.{Bool, true, false, not, ◌&&◌, ◌||◌}
pub use mathlib.Core.Option.{Option, none, some}
pub use mathlib.Core.List.{List, [], ◌∷◌, ◌++◌, map, foldl, append-nil, append_assoc}
pub use native.Mathlib.Omega.{arith}
