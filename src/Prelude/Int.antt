-- ===== src/Prelude/Int.antt =====
-- The integers as `int32_t` and `int64_t` values are read; `negsuc n` is -(n + 1).
use Prim.Native.Nat.{ℕ}

pub data ℤ : Type 0 where
  pos : ℕ → ℤ
  negsuc : ℕ → ℤ
