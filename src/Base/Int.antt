-- ===== src/Base/Int.antt =====
-- The signed integers over the native numbers, with the order tests that the program makes.
use Prim.Native.Nat.{ℕ, zero, suc}
use mathlib.Core.Bool.{Bool, true, false}
use personal_mcp_gateway.Base.Tests.{ltb, leb, ◌==◌}

-- `negsuc n` is -(n + 1).
pub data ℤ : Type 0 where
  pos : ℕ → ℤ
  negsuc : ℕ → ℤ

-- a < 0
abbrev pub is_neg : ℤ → Bool
is_neg (pos n) = false
is_neg (negsuc n) = true

-- a == k, a <= k and k < a for a number k
abbrev pub eq_nat : ℤ → ℕ → Bool
eq_nat (pos n) k = n == k
eq_nat (negsuc n) k = false

abbrev pub le_nat : ℤ → ℕ → Bool
le_nat (pos n) k = leb n k
le_nat (negsuc n) k = true

abbrev pub gt_nat : ℤ → ℕ → Bool
gt_nat (pos n) k = ltb k n
gt_nat (negsuc n) k = false

-- a <= b and a - 1
abbrev pub le_int : ℤ → ℤ → Bool
le_int (pos a) (pos b) = leb a b
le_int (pos a) (negsuc b) = false
le_int (negsuc a) (pos b) = true
le_int (negsuc a) (negsuc b) = leb b a

abbrev pub pred_int : ℤ → ℤ
pred_int (pos zero) = negsuc 0
pred_int (pos (suc n)) = pos n
pred_int (negsuc n) = negsuc (suc n)
