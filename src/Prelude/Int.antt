-- ===== src/Prelude/Int.antt =====
-- Signed integers under the library's names; std::to_string and int of the sources use them.
use Prim.Native.Nat.{ℕ}

pub data ℤ : Type 0 where
  pos negsuc : ℕ → ℤ
