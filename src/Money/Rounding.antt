-- ===== src/Money/Rounding.antt =====
-- Rounding to the cent: exact on whole cents, and never more than half a unit off.
use native.Mathlib.Nat.{div-add-mod, mod-lt}
use naicha_backend.Money.{cents, quantize_currency, round_half_up}
use naicha_backend.Prelude.{arith, int_laws, times, ℕ, ℤ, ◌*◌, ◌+◌, ◌<◌, ◌≡◌, ◌≤◌}

pub times_one : (z : ℤ) → times 1 z ≡ z
times_one z = omega int_laws

-- Whole cents stay what they are.
pub quantize-cents : (z : ℤ) → quantize_currency (cents z) ≡ z
unfolding quantize_currency
quantize-cents z = times_one z

-- The rounded quotient times a positive divisor is at most half a divisor above the dividend, and
-- less than half a divisor below it.
pub round_half_up_bounds :
    (n d : ℕ)
    → 0 < d
    → (2 * (d * round_half_up n d) ≤ 2 * n + d) × (2 * n < 2 * (d * round_half_up n d) + d)
unfolding round_half_up
round_half_up_bounds n d h =
    grind (arith, div-add-mod (2 * n + d) (2 * d), mod-lt (2 * n + d) {m = 2 * d} (omega arith))
