-- ===== src/Models/Status.antt =====
-- The columns whose values a CheckConstraint lists: one data type for each. `a is b` is the
-- comparison of the two strings.
use naicha_backend.Prelude.{ℕ, ◌≡◌, ◌↔◌, Bool, true, arith, ◌==◌}

-- A type of tags, told apart by a number.
pub record Tagged {ℓ} (A : Type ℓ) : Type ℓ where
  pub index : A → ℕ
  pub index_injective : (a b : A) → index a ≡ index b → a ≡ b

infix 50 ◌is◌
abbrev pub ◌is◌ {ℓ} : {A : Type ℓ} ⦃t : Tagged A⦄ → A → A → Bool
◌is◌ ⦃t⦄ a b = t.index a == t.index b

pub is_iff {ℓ} : {A : Type ℓ} ⦃t : Tagged A⦄ (a b : A) → ((a is b) ≡ true) ↔ (a ≡ b)
is_iff ⦃t⦄ a b = ground (arith, t.index_injective a b)

-- ck_orders_status
pub data OrderStatus : Type 0 where
  pending_payment paid in_production ready_for_pickup completed : OrderStatus
  cancelled refund_pending refunded : OrderStatus

-- ck_orders_payment_status
pub data PaymentStatus : Type 0 where
  pending paid : PaymentStatus

-- ck_orders_order_type; the price preview also takes `dine_in`
pub data OrderType : Type 0 where
  pickup delivery dine_in : OrderType

-- ck_products_status
pub data ProductStatus : Type 0 where
  active inactive : ProductStatus

-- ck_products_inventory_status and ck_spec_options_inventory_status
pub data InventoryStatus : Type 0 where
  in_stock sold_out : InventoryStatus

-- ck_coupons_status
pub data CouponStatus : Type 0 where
  active used expired void : CouponStatus

-- The types that the price preview knows, and any other.
pub data CouponType : Type 0 where
  amount_off percentage_off free_any_drink unsupported : CouponType

-- ck_print_jobs_status
pub data JobStatus : Type 0 where
  pending processing done failed : JobStatus

-- ck_payment_records_match_status
pub data MatchStatus : Type 0 where
  unmatched auto_matched manual_matched failed : MatchStatus

-- ck_loyalty_transactions_reason
pub data LoyaltyReason : Type 0 where
  order_paid refund_rollback coupon_grant coupon_use : LoyaltyReason

abbrev order_status_index : OrderStatus → ℕ
order_status_index OrderStatus.pending_payment = 0
order_status_index OrderStatus.paid = 1
order_status_index OrderStatus.in_production = 2
order_status_index OrderStatus.ready_for_pickup = 3
order_status_index OrderStatus.completed = 4
order_status_index OrderStatus.cancelled = 5
order_status_index OrderStatus.refund_pending = 6
order_status_index OrderStatus.refunded = 7

pub order_status_index_injective :
    (a b : OrderStatus) → order_status_index a ≡ order_status_index b → a ≡ b
order_status_index_injective a b h = ground arith

instance abbrev pub order_status_tagged : Tagged OrderStatus
order_status_tagged = record {
  index = order_status_index;
  index_injective = order_status_index_injective;
}

abbrev payment_status_index : PaymentStatus → ℕ
payment_status_index PaymentStatus.pending = 0
payment_status_index PaymentStatus.paid = 1

pub payment_status_index_injective :
    (a b : PaymentStatus) → payment_status_index a ≡ payment_status_index b → a ≡ b
payment_status_index_injective a b h = ground arith

instance abbrev pub payment_status_tagged : Tagged PaymentStatus
payment_status_tagged = record {
  index = payment_status_index;
  index_injective = payment_status_index_injective;
}

abbrev order_type_index : OrderType → ℕ
order_type_index OrderType.pickup = 0
order_type_index OrderType.delivery = 1
order_type_index OrderType.dine_in = 2

pub order_type_index_injective : (a b : OrderType) → order_type_index a ≡ order_type_index b → a ≡ b
order_type_index_injective a b h = ground arith

instance abbrev pub order_type_tagged : Tagged OrderType
order_type_tagged = record {
  index = order_type_index;
  index_injective = order_type_index_injective;
}

abbrev product_status_index : ProductStatus → ℕ
product_status_index ProductStatus.active = 0
product_status_index ProductStatus.inactive = 1

pub product_status_index_injective :
    (a b : ProductStatus) → product_status_index a ≡ product_status_index b → a ≡ b
product_status_index_injective a b h = ground arith

instance abbrev pub product_status_tagged : Tagged ProductStatus
product_status_tagged = record {
  index = product_status_index;
  index_injective = product_status_index_injective;
}

abbrev inventory_status_index : InventoryStatus → ℕ
inventory_status_index InventoryStatus.in_stock = 0
inventory_status_index InventoryStatus.sold_out = 1

pub inventory_status_index_injective :
    (a b : InventoryStatus) → inventory_status_index a ≡ inventory_status_index b → a ≡ b
inventory_status_index_injective a b h = ground arith

instance abbrev pub inventory_status_tagged : Tagged InventoryStatus
inventory_status_tagged = record {
  index = inventory_status_index;
  index_injective = inventory_status_index_injective;
}

abbrev coupon_status_index : CouponStatus → ℕ
coupon_status_index CouponStatus.active = 0
coupon_status_index CouponStatus.used = 1
coupon_status_index CouponStatus.expired = 2
coupon_status_index CouponStatus.void = 3

pub coupon_status_index_injective :
    (a b : CouponStatus) → coupon_status_index a ≡ coupon_status_index b → a ≡ b
coupon_status_index_injective a b h = ground arith

instance abbrev pub coupon_status_tagged : Tagged CouponStatus
coupon_status_tagged = record {
  index = coupon_status_index;
  index_injective = coupon_status_index_injective;
}

abbrev coupon_type_index : CouponType → ℕ
coupon_type_index CouponType.amount_off = 0
coupon_type_index CouponType.percentage_off = 1
coupon_type_index CouponType.free_any_drink = 2
coupon_type_index CouponType.unsupported = 3

pub coupon_type_index_injective :
    (a b : CouponType) → coupon_type_index a ≡ coupon_type_index b → a ≡ b
coupon_type_index_injective a b h = ground arith

instance abbrev pub coupon_type_tagged : Tagged CouponType
coupon_type_tagged = record {
  index = coupon_type_index;
  index_injective = coupon_type_index_injective;
}

abbrev job_status_index : JobStatus → ℕ
job_status_index JobStatus.pending = 0
job_status_index JobStatus.processing = 1
job_status_index JobStatus.done = 2
job_status_index JobStatus.failed = 3

pub job_status_index_injective : (a b : JobStatus) → job_status_index a ≡ job_status_index b → a ≡ b
job_status_index_injective a b h = ground arith

instance abbrev pub job_status_tagged : Tagged JobStatus
job_status_tagged = record {
  index = job_status_index;
  index_injective = job_status_index_injective;
}

abbrev match_status_index : MatchStatus → ℕ
match_status_index MatchStatus.unmatched = 0
match_status_index MatchStatus.auto_matched = 1
match_status_index MatchStatus.manual_matched = 2
match_status_index MatchStatus.failed = 3

pub match_status_index_injective :
    (a b : MatchStatus) → match_status_index a ≡ match_status_index b → a ≡ b
match_status_index_injective a b h = ground arith

instance abbrev pub match_status_tagged : Tagged MatchStatus
match_status_tagged = record {
  index = match_status_index;
  index_injective = match_status_index_injective;
}

abbrev loyalty_reason_index : LoyaltyReason → ℕ
loyalty_reason_index LoyaltyReason.order_paid = 0
loyalty_reason_index LoyaltyReason.refund_rollback = 1
loyalty_reason_index LoyaltyReason.coupon_grant = 2
loyalty_reason_index LoyaltyReason.coupon_use = 3

pub loyalty_reason_index_injective :
    (a b : LoyaltyReason) → loyalty_reason_index a ≡ loyalty_reason_index b → a ≡ b
loyalty_reason_index_injective a b h = ground arith

instance abbrev pub loyalty_reason_tagged : Tagged LoyaltyReason
loyalty_reason_tagged = record {
  index = loyalty_reason_index;
  index_injective = loyalty_reason_index_injective;
}
