-- ===== src/Prelude/Int.antt =====
-- Go's signed integers where the program only tests them against a counter or zero.
use Prim.Native.Nat.{ℕ}

-- `negsuc n` is -(n + 1).
pub data ℤ : Type 0 where
  pos : ℕ → ℤ
  negsuc : ℕ → ℤ

-- The number of rounds of `for i := 0; i < n; i++`, and the nanoseconds of a positive duration.
abbrev pub pos_part : ℤ → ℕ
pos_part (pos n) = n
pos_part (negsuc n) = 0
