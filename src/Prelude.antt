-- ===== src/Prelude.antt =====
-- Shared by every module: library names passed on, Boolean tests, lists measured by native
-- numbers, bit operations as arithmetic, and the character classes of <cctype>.
pub mod Tests
pub mod Lists
pub mod Bits
pub mod Ascii
pub mod Word
pub mod Search
pub mod Int
pub use Tests.*
pub use Lists.*
pub use Ascii.{Bytes, codes}
pub use Word.*
pub use Int.*
pub use Prim.Native.Nat.{ℕ, zero, suc, ◌+◌, ◌-◌, ◌*◌, ◌/◌, ◌%◌, ◌^◌, ◌≤◌, ◌<◌, min}
pub use Prim.Native.Nat.{bit_and, bit_or, bit_xor}
pub use mathlib.Core.Path.{◌≡◌, refl, sym, ap, ap₂, ◌∙◌, subst}
pub use mathlib.Core.Logic.{◌≢◌, ◌↔◌, ◌⊎◌, inl, inr}
pub use mathlib.Core.Bool.{Bool, true, false, not, ◌&&◌, ◌||◌}
pub use mathlib.Core.Option.{Option, none, some, some-injective}
pub use mathlib.Core.List.{List, [], ◌∷◌, ◌++◌, map, append-nil, append_assoc}
pub use native.Mathlib.Omega.{arith}
