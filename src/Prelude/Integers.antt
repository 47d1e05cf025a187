-- ===== src/Prelude/Integers.antt =====
-- Integers over the native numbers, under the library's name; `negsuc n` is -(n + 1).
use Prim.Native.Nat.{ℕ}

pub data ℤ : Type 0 where
  pos negsuc : ℕ → ℤ
