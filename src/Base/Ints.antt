-- ===== src/Base/Ints.antt =====
-- The signed integers of the sources.
use Prim.Native.Nat.{ℕ}

-- `negsuc n` is -(n + 1).
pub data ℤ : Type 0 where
  pos negsuc : ℕ → ℤ

-- -1, 0 and 1, as a comparison gives them.
pub data Sign : Type 0 where
  minus nought plus : Sign
