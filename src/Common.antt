-- ===== src/Common.antt =====
-- The names that the modules share: the libraries', passed on, and those of the children, which
-- hold tests and conditionals, lists over the native numbers, and 64-bit words. No code of the
-- program is modelled here, but for `align_up`, of which src/tl_freelist_allocator.cpp and
-- src/numa_allocator.cpp have a copy each.
mod Tests
mod Lists
pub mod Bits
pub mod Family
pub mod Words
pub use Tests.*
pub use Lists.*
pub use Prim.Native.Nat.{ℕ, zero, suc, ◌+◌, ◌-◌, ◌*◌, ◌/◌, ◌%◌, ◌^◌, ◌≤◌, ◌<◌, min}
pub use mathlib.Core.Path.{◌≡◌, refl, sym, ap, ◌∙◌}
pub use mathlib.Core.Logic.{◌≢◌, ◌↔◌, ◌⊎◌, inl, inr}
pub use mathlib.Core.Bool.{Bool, true, false, not, ◌&&◌, ◌||◌}
pub use mathlib.Core.Option.{Option, none, some}
pub use mathlib.Core.List.{List, [], ◌∷◌, ◌++◌}
pub use native.Mathlib.Omega.{arith}
unfoldable pub use native.Mathlib.Decide.{dec_lt, ℕ_discrete}
