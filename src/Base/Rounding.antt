-- ===== src/Base/Rounding.antt =====
-- Python's `round` of a fraction to a whole number.
use Prim.Native.Nat.{ℕ, ◌+◌, ◌*◌, ◌/◌, ◌%◌, ◌≤◌}
use mathlib.Core.Bool.{◌&&◌, ◌||◌}
use native.Mathlib.Omega.{arith}
use ai_driven_software_defin.Base.Tests.{ltb, nat_beq, if◌then◌else◌}

-- To the nearest one, a half to the even one.
unfoldable pub round_div : ℕ → ℕ → ℕ
round_div a b =
    let q = a / b in
    let r = 2 * (a % b) in if ltb b r || (nat_beq r b && nat_beq (q % 2) 1) then q + 1 else q

-- Rounding a number of 10000ths does not take it over a whole number.
pub round_div-le : (a n : ℕ) → a ≤ n * 10000 → round_div a 10000 ≤ n
unfolding round_div
round_div-le a n h = ground arith

pub round_div-ge : (a n : ℕ) → n * 10000 ≤ a → n ≤ round_div a 10000
unfolding round_div
round_div-ge a n h = ground arith
