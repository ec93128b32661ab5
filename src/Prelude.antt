-- ===== src/Prelude.antt =====
-- What the components share: the libraries' names, Boolean tests, C arrays as lists, and the
-- outcome of a C function that may fail or may touch memory outside its buffer.
mod Tests
mod Lists
pub mod Codes
pub mod Gives
pub mod Bits
pub use Tests.*
pub use Lists.*
pub use Codes.{
  Outcome, ok, err, fault, ◌>>=◌, >>=-ok, ok_injective, if-ok, >>=-ne-fault, if-ne-fault,
}
pub use Prim.Native.Nat.{ℕ, zero, suc, ◌+◌, ◌-◌, ◌*◌, ◌/◌, ◌%◌, ◌^◌, ◌≤◌, ◌<◌, bit_and, bit_or}
pub use mathlib.Core.Path.{◌≡◌, refl, sym, ap, ◌∙◌}
pub use mathlib.Core.Logic.{◌≢◌, ◌↔◌, ◌⊎◌, inl, inr}
pub use mathlib.Core.Bool.{Bool, true, false, not, ◌&&◌, ◌||◌}
pub use mathlib.Core.Option.{Option, none, some}
pub use mathlib.Core.List.{List, [], ◌∷◌, ◌++◌, map}
pub use native.Mathlib.Omega.{arith}
