-- ===== src/Prelude/Int.antt =====
-- Signed integers over the native numbers: an `int` is the integer it stands for.
use defensive_systems_open_u.Prelude.{ℕ}

-- `negsuc n` is -(n + 1).
pub data ℤ : Type 0 where
  pos : ℕ → ℤ
  negsuc : ℕ → ℤ
