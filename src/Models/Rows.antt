-- ===== src/Models/Rows.antt =====
-- The tables of app/models/{catalog,accounts,orders,reservations}.py that the services write.
use naicha_backend.Models.Status.{
  CouponStatus, CouponType, InventoryStatus, JobStatus, LoyaltyReason, MatchStatus, OrderStatus,
  OrderType, PaymentStatus, ProductStatus,
}
use naicha_backend.Prelude.{Bool, List, Option, String, ℕ, ℤ}

pub record Product : Type 0 where
  pub product_id : ℕ
  pub name : String
  pub base_price : ℤ
  pub status : ProductStatus
  pub inventory_status : InventoryStatus
  pub stock_quantity : Option ℕ
  pub updated_at : ℕ

pub record SpecGroup : Type 0 where
  pub group_id : ℕ
  pub name : String

pub record SpecOption : Type 0 where
  pub option_id : ℕ
  pub group_id : ℕ
  pub name : String
  pub price_modifier : ℤ
  pub inventory_status : InventoryStatus

pub record ProductSpecMapping : Type 0 where
  pub product_id : ℕ
  pub group_id : ℕ

pub record User : Type 0 where
  pub user_id : ℕ
  pub loyalty_points : ℕ

-- A decimal number from a JSON document: coeff / 10 ^ places.
pub record Decimal : Type 0 where
  pub coeff : ℤ
  pub places : ℕ

-- meta_json of a coupon
pub record CouponMeta : Type 0 where
  pub min_order_amount : Option Decimal
  pub discount_amount : Option Decimal
  pub discount_percentage : Option Decimal
  pub max_discount_amount : Option Decimal

pub record Coupon : Type 0 where
  pub coupon_id : ℕ
  pub user_id : ℕ
  pub type_tag : CouponType
  pub status : CouponStatus
  pub meta : CouponMeta
  pub issued_at : Option ℕ
  pub used_at : Option ℕ
  pub used_in_order_id : Option ℕ

pub record LoyaltyTransaction : Type 0 where
  pub user_id : ℕ
  pub order_id : Option ℕ
  pub delta_points : ℤ
  pub reason : LoyaltyReason

pub record SpecSelection : Type 0 where
  pub group_id : ℕ
  pub group_name : Option String
  pub option_id : ℕ
  pub option_name : String
  pub price_modifier : ℤ

pub record Address : Type 0 where
  pub contact_name : String
  pub phone : String
  pub address_line : String

pub record Order : Type 0 where
  pub order_id : ℕ
  pub order_number : String
  pub user_id : Option ℕ
  pub guest_session_id : Option String
  pub total_price : ℤ
  pub notes : Option String
  pub status : OrderStatus
  pub order_type : OrderType
  pub address : Option Address
  pub payment_channel : Option String
  pub payment_status : PaymentStatus
  pub is_scheduled : Bool
  pub scheduled_at : Option ℕ
  pub reminder_sent_at : Option ℕ
  pub pickup_code : Option String
  pub reservation_slot_id : Option ℕ
  pub coupon_id : Option ℕ
  pub created_at : ℕ
  pub updated_at : ℕ

pub record OrderItem : Type 0 where
  pub item_id : ℕ
  pub order_id : ℕ
  pub product_id : Option ℕ
  pub product_name : String
  pub quantity : ℕ
  pub unit_price : ℤ
  pub selected_specs : List SpecSelection

pub record PaymentRecord : Type 0 where
  pub pay_id : ℕ
  pub is_refund : Bool
  pub channel : String
  pub amount : ℤ
  pub txn_id : Option String
  pub qr_session_id : Option String
  pub matched_order_id : Option ℕ
  pub match_status : MatchStatus
  pub matched_by_admin_id : Option ℕ
  pub paid_at : ℕ

-- The messages that go into last_error, without the text of the exception or of the response.
pub data JobFailure : Type 0 where
  retry_limit : ℕ → JobFailure
  order_missing timed_out transport_error unexpected_error : JobFailure
  server_error client_error : ℕ → JobFailure

pub record PrintJob : Type 0 where
  pub job_id : ℕ
  pub order_id : ℕ
  pub status : JobStatus
  pub try_count : ℕ
  pub next_try_at : Option ℕ
  pub last_error : Option JobFailure
  pub printed_at : Option ℕ

pub record ReservationSlot : Type 0 where
  pub slot_id : ℕ
  pub slot_start : ℕ
  pub slot_end : ℕ
  pub capacity : ℕ
  pub reserved_count : ℕ
  pub updated_at : ℕ

-- A range of opening hours as the JSON document has it: the two texts, or something else.
pub data RawRange : Type 0 where
  texts : String → String → RawRange
  malformed : RawRange

-- An entry of open_hours_json; the weekday is `none` where `int` refuses it.
pub record DayHours : Type 0 where
  pub weekday : Option ℕ
  pub ranges : List RawRange

pub record ShopProfile : Type 0 where
  pub is_open : Bool
  pub open_hours : List DayHours
  pub timezone : String
