-- ===== src/Base.antt =====
-- Shared vocabulary: the libraries' names, passed on, Boolean tests on the native numbers, lists
-- measured by native numbers, and the outcome of a C function.
mod Arrays
mod Checks
mod Lists
mod Outcome
pub mod Bits
pub mod Xor
pub use Arrays.*
pub use Checks.*
pub use Lists.*
pub use Outcome.*
pub use Prim.Native.Nat.{ℕ, zero, suc, ◌+◌, ◌-◌, ◌*◌, ◌/◌, ◌%◌, ◌^◌, ◌≤◌, ◌<◌, bit_and, bit_or}
pub use mathlib.Core.Path.{◌≡◌, refl, sym, ap, ◌∙◌, subst}
pub use mathlib.Core.Logic.{◌≢◌, ◌↔◌, ◌⊎◌, inl, inr}
pub use mathlib.Core.Bool.{Bool, true, false, not, ◌&&◌, ◌||◌}
pub use mathlib.Core.Option.{Option, none, some}
pub use mathlib.Core.List.{List, [], ◌∷◌, ◌++◌, map, append-nil, append_assoc}
pub use native.Mathlib.Omega.{arith}

-- A C string without its terminating null, or a block of memory: values below 256.
abbrev pub Bytes : Type 0
Bytes = List ℕ
