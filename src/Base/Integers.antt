-- ===== src/Base/Integers.antt =====
-- The integers over the native natural numbers: `negsuc n` is below 0 by `n + 1`.
use Prim.Native.Nat.{ℕ, zero, suc, ◌+◌, ◌*◌, ◌/◌, ◌<◌, ◌≤◌}
use mathlib.Core.Path.{◌≡◌}
use mathlib.Core.Bool.{Bool, true, false}
use native.Mathlib.Omega.{arith}
use ai_driven_software_defin.Base.Tests.{leb, nat_beq}

pub data ℤ : Type 0 where
  pos negsuc : ℕ → ℤ

unfoldable pub int_leb : ℤ → ℤ → Bool
int_leb (pos a) (pos b) = leb a b
int_leb (pos a) (negsuc b) = false
int_leb (negsuc a) (pos b) = true
int_leb (negsuc a) (negsuc b) = leb b a

unfoldable pub int_beq : ℤ → ℤ → Bool
int_beq (pos a) (pos b) = nat_beq a b
int_beq (pos a) (negsuc b) = false
int_beq (negsuc a) (pos b) = false
int_beq (negsuc a) (negsuc b) = nat_beq a b

unfoldable pub negative : ℕ → ℤ
negative zero = pos 0
negative (suc n) = negsuc n

-- So many tenths of a number.
unfoldable pub tenths : ℕ → ℤ → ℤ
unfolding negative
tenths k (pos n) = pos (k * n / 10)
tenths k (negsuc n) = negative (k * (n + 1) / 10)

-- `low < high`.
abbrev pub IsBelow : ℤ → ℤ → Type 0
IsBelow low high = int_leb high low ≡ false

mul_le : (k n : ℕ) → k < 10 → k * n ≤ 9 * n
mul_le k zero h = omega arith
mul_le k (suc n) h = omega (arith, mul_le k n h)

-- Less than ten tenths of a number above 0 are below it.
pub tenths-IsBelow : (k : ℕ) (z : ℤ) → k < 10 → int_leb z (pos 0) ≡ false → IsBelow (tenths k z) z
unfolding tenths int_leb
tenths-IsBelow k (pos n) h p = ground (arith, h, p, mul_le k n h)
tenths-IsBelow k (negsuc n) h p = absurd (ground (arith, p))
