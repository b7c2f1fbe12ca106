-- ===== src/Prelude/Codes.antt =====
-- The `int` that a C function returns, as a signed number.
use Prim.Native.Nat.{ℕ}

-- `negsuc n` is -(n + 1).
pub data ℤ : Type 0 where
  pos : ℕ → ℤ
  negsuc : ℕ → ℤ
