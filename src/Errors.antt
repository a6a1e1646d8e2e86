-- ===== src/Errors.antt =====
-- Exceptions that more than one service raises or catches.
use naicha_backend.Prelude.{ℕ}

-- ReservationValidationError of app/services/reservations.py, by its message.
pub data ReservationReason : Type 0 where
  disabled outside_open_hours not_in_future beyond_24_hours too_soon slot_full : ReservationReason

-- CouponNotFoundError and CouponInvalidError of app/services/loyalty.py.
pub data CouponError : Type 0 where
  coupon_not_found coupon_invalid : ℕ → CouponError
