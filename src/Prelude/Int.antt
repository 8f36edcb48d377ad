-- ===== src/Prelude/Int.antt =====
-- Python's `int`, as far as the program compares it: `negsuc n` is -(n + 1).
use Prim.Native.Nat.{ℕ}
use mathlib.Core.Bool.{Bool, true, false}
use thunder_sandbox.Prelude.Tests.{◌==◌}

pub data ℤ : Type 0 where
  pos : ℕ → ℤ
  negsuc : ℕ → ℤ

-- `i <= 0`
abbrev pub is_non_positive : ℤ → Bool
is_non_positive (pos n) = n == 0
is_non_positive (negsuc n) = true

-- `i == k` for a literal `k`
abbrev pub is_nat : ℕ → ℤ → Bool
is_nat k (pos n) = n == k
is_nat k (negsuc n) = false
