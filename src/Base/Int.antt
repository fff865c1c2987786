-- ===== src/Base/Int.antt =====
-- Integers over the native numbers.
use Prim.Native.Nat.{ℕ}

pub data ℤ : Type 0 where
  pos : ℕ → ℤ
  negsuc : ℕ → ℤ
