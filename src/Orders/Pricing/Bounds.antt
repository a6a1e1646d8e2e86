-- ===== src/Orders/Pricing/Bounds.antt =====
-- How far points may lower a price.
use naicha_backend.Exec.{ok}
use naicha_backend.Models.Rows.{Decimal, User}
use naicha_backend.Money.{hundredth, quantize_currency}
use naicha_backend.Money.Rounding.{quantize-cents}
use naicha_backend.Orders.Pricing.{PointsInfo, calculate_points, points_cap}
use naicha_backend.Prelude.{
  Bool-cases, Option, arith, inl, inr, leb, min, none, pos, pos_part, some, ℕ, ℤ, ◌*◌, ◌||◌, ◌≡◌,
  ◌≤◌,
}

-- The points that are used are covered by what was asked for and by what the user has, and their
-- discount of a cent a point is at most three tenths of the amount to pay, none below zero.
pub calculate_points-bounds :
    (requested : ℕ) (payable d : ℤ) (user : Option User) (info : Option PointsInfo)
    → calculate_points requested payable user ≡ ok (d, info)
    → (n : ℕ) × (d ≡ pos n)
      × (n ≤ requested)
      × (n ≤ (elim user [ none ↦ 0 | some u ↦ u.loyalty_points ]))
      × (10 * n ≤ 3 * pos_part payable)
unfolding calculate_points hundredth
calculate_points-bounds requested payable d none info e =
    (0, ground arith, ground arith, ground arith, ground arith)
calculate_points-bounds requested payable d (some u) info e =
    let actual = min (min requested u.loyalty_points) (points_cap payable) in
    let yuan : Decimal = record { coeff = pos actual; places = 0 } in
    let exact : quantize_currency (hundredth yuan) ≡ pos actual = quantize-cents (pos actual) in
    elim (Bool-cases (leb requested 0 || leb u.loyalty_points 0)) [
      | inl nothing ↦ (0, ground arith, ground arith, ground arith, ground arith)
      | inr something ↦ (actual, ground (arith, exact), omega arith, omega arith, omega arith)
    ]
