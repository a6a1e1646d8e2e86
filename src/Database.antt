-- ===== src/Database.antt =====
-- The database that the services share, one table after the other, as a session with row locks sees
-- it; the settings of app/core/settings.py; and what a request takes from outside the program.
use naicha_backend.Models.{InventoryStatus, MatchStatus, OrderStatus, OrderType, PaymentStatus}
use naicha_backend.Models.Rows.{
  Coupon, Decimal, JobFailure, LoyaltyTransaction, Order, OrderItem, PaymentRecord, PrintJob,
  Product, ProductSpecMapping, ReservationSlot, ShopProfile, SpecGroup, SpecOption, User,
}
use naicha_backend.Prelude.{Bool, List, Option, String, ℕ, ℤ}

-- `_format_eta_text`: "about n minutes", or the instant of the appointment.
pub data EtaText : Type 0 where
  about_minutes : ℕ → EtaText
  expected_at : ℕ → EtaText

-- What `create_order` answers and keeps for a replay.
pub record OrderResponse : Type 0 where
  pub order_id : ℕ
  pub order_number : String
  pub status : OrderStatus
  pub order_type : OrderType
  pub total_price : ℤ
  pub created_at : ℕ
  pub is_scheduled : Bool
  pub scheduled_at : Option ℕ
  pub reminder_sent_at : Option ℕ
  pub eta_minutes : ℕ
  pub eta_text : EtaText
  pub pickup_code : Option String
  pub items : List OrderItem

-- IdempotencyKey of app/models/orders.py
pub record IdempotencyKey : Type 0 where
  pub key : String
  pub scope : String
  pub request_hash : Option String
  pub response_snapshot : Option OrderResponse
  pub expire_at : Option ℕ

-- One entry of the summary that `restore_from_order_items` returns.
pub record StockChange : Type 0 where
  pub product_id : ℕ
  pub restored_quantity : ℕ
  pub stock_before : ℕ
  pub stock_after : ℕ

-- The actions that AuditLog records, with what goes into before_json and after_json.
pub data AuditLog : Type 0 where
  order_auto_cancel :
      ℕ
      → OrderStatus
      → PaymentStatus
      → OrderStatus
      → PaymentStatus
      → String
      → List StockChange
      → AuditLog
  payment_match : ℕ → ℕ → ℕ → MatchStatus → AuditLog
  print_job_failed : PrintJob → Option Order → JobFailure → AuditLog
  product_inventory_update : ℕ → ℕ → InventoryStatus → InventoryStatus → AuditLog
  option_inventory_update : ℕ → ℕ → InventoryStatus → InventoryStatus → AuditLog

pub record Db : Type 0 where
  pub products : List Product
  pub spec_groups : List SpecGroup
  pub spec_options : List SpecOption
  pub spec_mappings : List ProductSpecMapping
  pub users : List User
  pub coupons : List Coupon
  pub loyalty_transactions : List LoyaltyTransaction
  pub orders : List Order
  pub order_items : List OrderItem
  pub payment_records : List PaymentRecord
  pub print_jobs : List PrintJob
  pub slots : List ReservationSlot
  pub shop_profile : Option ShopProfile
  pub idempotency_keys : List IdempotencyKey
  pub audit_logs : List AuditLog
  -- the sequences of the primary keys
  pub next_order_id : ℕ
  pub next_item_id : ℕ
  pub next_coupon_id : ℕ
  pub next_pay_id : ℕ
  pub next_job_id : ℕ
  pub next_slot_id : ℕ

pub record Settings : Type 0 where
  pub reservation_enabled : Bool
  pub reservation_reminder_minutes : ℕ
  pub reservation_slot_granularity_minutes : ℕ
  pub reservation_slot_capacity : ℕ
  pub static_match_time_window_min : ℕ
  pub print_retry_max : ℕ
  pub print_recovery_interval_seconds : ℕ
  pub order_pending_timeout_minutes : ℕ
  pub loyalty_points_ratio : Decimal
  pub guest_session_ttl_minutes : ℕ
  pub reconciliation_csv_enabled : Bool
  pub reconciliation_report_dir : Option String
  pub order_pending_cleanup_interval_seconds : ℕ
  pub want_enabled : Bool
  pub secret_key : String
  pub public_config_cache_ttl_seconds : ℕ
  pub menu_cache_ttl_seconds : ℕ
  pub multi_category_enabled : Bool
  -- the dialect of `database_url`
  pub on_sqlite : Bool

-- Microseconds in a second, a minute.
abbrev pub second : ℕ
second = 1000000

abbrev pub minute : ℕ
minute = 60000000
