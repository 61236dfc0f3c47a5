-- ===== src/Prelude/Int.antt =====
-- Go's signed integers where a program's value may be negative.
use authara.Prelude.{ℕ}

-- `negsuc n` is -(n + 1).
pub data ℤ : Type 0 where
  pos : ℕ → ℤ
  negsuc : ℕ → ℤ
