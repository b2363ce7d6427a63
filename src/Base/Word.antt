-- ===== src/Base/Word.antt =====
-- Go's `int64` (and `int` on a 64-bit host) as its bit pattern below 2 ^ 64, in two's complement.
use Prim.Native.Nat.{ℕ, ◌+◌, ◌-◌, ◌%◌, ◌^◌, ◌≤◌, ◌<◌}
use mathlib.Core.Path.{◌≡◌}
use mathlib.Core.Logic.{◌↔◌}
use mathlib.Core.Bool.{Bool, true, false}
use native.Mathlib.Omega.{arith}
use personal_mcp_gateway.Base.Tests.{ltb}

abbrev pub word_mod : ℕ
word_mod = 2 ^ 64

abbrev pub sign_bit : ℕ
sign_bit = 2 ^ 63

-- a + b and a - b, with their wrap-around.
unfoldable pub add64 : ℕ → ℕ → ℕ
add64 a b = (a + b) % word_mod

unfoldable pub sub64 : ℕ → ℕ → ℕ
sub64 a b = (a + word_mod - b) % word_mod

-- The signed order a < b.
unfoldable pub lt64 : ℕ → ℕ → Bool
lt64 a b = ltb ((a + sign_bit) % word_mod) ((b + sign_bit) % word_mod)

-- The pattern of a number that is not negative.
abbrev pub IsNat64 : ℕ → Type 0
IsNat64 n = n < sign_bit

pub add64_lem : (a b : ℕ) → a + b < word_mod → add64 a b ≡ a + b
unfolding add64
add64_lem a b h = omega arith

pub sub64_lem : (a b : ℕ) → b ≤ a → a < word_mod → sub64 a b ≡ a - b
unfolding sub64
sub64_lem a b h k = omega arith

pub lt64_iff : (a b : ℕ) → IsNat64 a → IsNat64 b → (lt64 a b ≡ true) ↔ (a < b)
unfolding lt64
lt64_iff a b ha hb = ground arith

pub lt64-false : (a b : ℕ) → IsNat64 a → IsNat64 b → lt64 a b ≡ false → b ≤ a
unfolding lt64
lt64-false a b ha hb h = ground arith
