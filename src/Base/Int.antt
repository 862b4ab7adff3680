-- ===== src/Base/Int.antt =====
-- Signed integers, for `time.Duration`: nanoseconds, which may be negative.
use Prim.Native.Nat.{ℕ, zero, suc, ◌*◌}
use mathlib.Core.Bool.{Bool, true, false}

-- `negsuc n` is -(n + 1).
pub data ℤ : Type 0 where
  pos : ℕ → ℤ
  negsuc : ℕ → ℤ

abbrev pub Duration : Type 0
Duration = ℤ

-- `d <= 0`
abbrev pub le_zero : Duration → Bool
le_zero (pos zero) = true
le_zero (pos (suc n)) = false
le_zero (negsuc n) = true

-- `d == 0`
abbrev pub is_zero : Duration → Bool
is_zero (pos zero) = true
is_zero (pos (suc n)) = false
is_zero (negsuc n) = false

-- `n * time.Millisecond`, `n * time.Second`
abbrev pub millis : ℕ → Duration
millis n = pos (n * 1000000)

abbrev pub seconds : ℕ → Duration
seconds n = pos (n * 1000000000)
