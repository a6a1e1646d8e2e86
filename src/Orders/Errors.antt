-- ===== src/Orders/Errors.antt =====
-- The exceptions of app/services/orders.py, with the message of each `raise` as a `Reason`, and the
-- payloads of app/schemas/order.py.
use naicha_backend.Errors.{CouponError, ReservationReason}
use naicha_backend.Models.{OrderType}
use naicha_backend.Models.Rows.{Address}
use naicha_backend.Prelude.{Bool, List, Option, String, false, none, not, some, ℕ, ◌==◌}

pub data Reason : Type 0 where
  no_items address_required coupon_needs_login points_need_login : Reason
  product_not_found product_inactive product_sold_out : ℕ → Reason
  option_not_found option_sold_out : ℕ → Reason
  option_not_allowed : ℕ → ℕ → Reason
  coupon_unusable : Reason
  key_required guest_required guest_invalid guest_expired : Reason
  only_pickup_scheduled : Reason
  reservation : ReservationReason → Reason

-- OrderServiceError and its subclasses; `coupon_error` is CouponNotFoundError or
-- CouponInvalidError of app/services/loyalty.py, which are no OrderServiceError.
pub data OrderError : Type 0 where
  validation : Reason → OrderError
  scope_mismatch key_reused being_processed not_pending : OrderError
  order_not_found : OrderError
  not_owner guest_mismatch : OrderError
  service_error : OrderError
  coupon_error : CouponError → OrderError

-- OrderItemCreateSchema
pub record ItemRequest : Type 0 where
  pub product_id : ℕ
  pub quantity : ℕ
  pub spec_option_ids : List ℕ

-- OrderCalculateRequestSchema; only the presence of the address matters.
pub record CalculateRequest : Type 0 where
  pub items : List ItemRequest
  pub coupon_id : Option ℕ
  pub points_use : ℕ
  pub order_type : OrderType
  pub has_address : Bool

-- OrderCreateRequestSchema
pub record CreateRequest : Type 0 where
  pub items : List ItemRequest
  pub order_type : OrderType
  pub notes : Option String
  pub guest_session_id : Option String
  pub scheduled_at : Option ℕ
  pub address : Option Address
  pub coupon_id : Option ℕ

-- Python's truth of an optional number: zero counts as false.
abbrev pub truthy : Option ℕ → Bool
truthy none = false
truthy (some n) = not (n == 0)
