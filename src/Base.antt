-- ===== src/Base.antt =====
-- The names that the modules of the kernel's parts share: the libraries' names, passed on, and
-- those of the children on tests, C arrays, loops, machine words and bits of a byte.
mod Tests
mod Lists
mod Words
mod Bits
mod Texts
mod Slices
unfoldable pub use Tests.*
pub use Lists.*
pub use Words.*
pub use Bits.*
pub use Texts.*
pub use Slices.*
pub use Prim.Native.Nat.{
  ℕ, zero, suc, ◌+◌, ◌-◌, ◌*◌, ◌/◌, ◌%◌, ◌^◌, ◌≤◌, ◌<◌, bit_and, bit_or, bit_xor, min, max,
}
pub use mathlib.Core.Path.{◌≡◌, refl, sym, ap, ap₂, subst, ◌∙◌}
pub use mathlib.Core.Logic.{◌≢◌, ◌↔◌, ◌⊎◌, inl, inr}
pub use mathlib.Core.Bool.{Bool, true, false, not, ◌&&◌, ◌||◌}
pub use mathlib.Core.Option.{Option, none, some}
pub use mathlib.Core.List.{List, [], ◌∷◌, ◌++◌, append-nil, append_assoc}
pub use native.Mathlib.Omega.{arith}
