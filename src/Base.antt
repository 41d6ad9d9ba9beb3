-- ===== src/Base.antt =====
-- Names that every module of the development shares: the library's, passed on, and those of the
-- children (Boolean tests, 32-bit words, counted loops, tables, lists).
mod Tests
mod Words
mod Tables
mod Loops
mod Lists
pub use Tests.*
pub use Words.*
pub use Tables.*
pub use Loops.*
pub use Lists.*
pub use Prim.Native.Nat.{ℕ, zero, suc, ◌+◌, ◌-◌, ◌*◌, ◌/◌, ◌%◌, ◌^◌, ◌≤◌, ◌<◌}
pub use mathlib.Core.Path.{◌≡◌, refl, sym, ap, ◌∙◌, fun_ext}
pub use mathlib.Core.Logic.{◌≢◌, ◌↔◌, ◌⊎◌, inl, inr}
pub use mathlib.Core.Bool.{Bool, true, false, not, ◌&&◌, ◌||◌}
pub use mathlib.Core.Option.{Option, none, some}
pub use mathlib.Core.List.{List, [], ◌∷◌, ◌++◌}
pub use native.Mathlib.Omega.{arith}
