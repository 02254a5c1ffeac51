-- ===== src/Common/Ints.antt =====
-- Integers over the native numbers, as the library names them.
use Prim.Native.Nat.{ℕ}

pub data ℤ : Type 0 where
  pos negsuc : ℕ → ℤ
