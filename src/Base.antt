-- ===== src/Base.antt =====
-- The names that every module shares: the libraries', passed on, and those of the child modules.
mod Tests
mod Lists
pub mod Int
pub mod Words
pub mod Maps
pub mod Sort
pub mod Last
pub mod Text
pub mod Outcome
pub mod Utf8
pub mod Ip
pub mod Show
pub mod Lines
pub mod Read
pub mod Tokens
pub mod Float
pub mod Ratio
pub mod Whole
pub mod Bits
pub mod Tables
pub use Tests.*
pub use Lists.*
pub use Prim.Native.Nat.{ℕ, zero, suc, ◌+◌, ◌-◌, ◌*◌, ◌/◌, ◌%◌, ◌^◌, ◌≤◌, ◌<◌, min, max}
pub use mathlib.Core.Path.{◌≡◌, refl, sym, ap, ap₂, ◌∙◌, subst}
pub use mathlib.Core.Logic.{◌≢◌, ◌↔◌, ◌⊎◌, inl, inr, ite, if_pos, if_neg}
pub use mathlib.Core.Bool.{Bool, true, false, not, ◌&&◌, ◌||◌}
pub use mathlib.Core.Option.{Option, none, some}
pub use mathlib.Core.List.{List, [], ◌∷◌, ◌++◌, map, append-nil, append_assoc}
pub use native.Mathlib.Omega.{arith}
unfoldable pub use native.Mathlib.Decide.{dec_lt, ℕ_discrete}
