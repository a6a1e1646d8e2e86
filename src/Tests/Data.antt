-- ===== src/Tests/Data.antt =====
-- The rows and the shop_settings of the runs.
use naicha_backend.Database.{Db, Settings}
use naicha_backend.Models.{InventoryStatus, OrderStatus, OrderType, PaymentStatus, ProductStatus}
use naicha_backend.Models.Rows.{Order, OrderItem, Product, User}
use naicha_backend.Prelude.{[], false, none, pos, some, true, ◌∷◌}
use naicha_backend.Reservations.Plan.{Zone}

abbrev pub shop_settings : Settings
shop_settings = record {
  reservation_enabled = true;
  reservation_reminder_minutes = 15;
  reservation_slot_granularity_minutes = 10;
  reservation_slot_capacity = 3;
  static_match_time_window_min = 5;
  print_retry_max = 2;
  print_recovery_interval_seconds = 60;
  order_pending_timeout_minutes = 15;
  loyalty_points_ratio = record { coeff = pos 1; places = 0 };
  guest_session_ttl_minutes = 60;
  reconciliation_csv_enabled = true;
  reconciliation_report_dir = some "reports";
  order_pending_cleanup_interval_seconds = 60;
  want_enabled = true;
  secret_key = "salt";
  public_config_cache_ttl_seconds = 300;
  menu_cache_ttl_seconds = 240;
  multi_category_enabled = true;
  on_sqlite = true;
}

abbrev pub milk_tea : Product
milk_tea = record {
  product_id = 1;
  name = "milk tea";
  base_price = pos 1500;
  status = ProductStatus.active;
  inventory_status = InventoryStatus.in_stock;
  stock_quantity = some 5;
  updated_at = 0;
}

abbrev pub ann : User
ann = record { user_id = 7; loyalty_points = 9 }

abbrev pub empty_db : Db
empty_db = record {
  products = milk_tea ∷ [];
  spec_groups = [];
  spec_options = [];
  spec_mappings = [];
  users = ann ∷ [];
  coupons = [];
  loyalty_transactions = [];
  orders = [];
  order_items = [];
  payment_records = [];
  print_jobs = [];
  slots = [];
  shop_profile = none;
  idempotency_keys = [];
  audit_logs = [];
  next_order_id = 1;
  next_item_id = 1;
  next_coupon_id = 1;
  next_pay_id = 1;
  next_job_id = 1;
  next_slot_id = 1;
}

abbrev pub utc : Zone
utc = record { to_local = λ t. t; to_utc = λ t. t }

-- An order of two milk teas that waits for its payment.
abbrev pub pending_order : Order
pending_order = record {
  order_id = 1;
  order_number = "NC1";
  user_id = some 7;
  guest_session_id = none;
  total_price = pos 3000;
  notes = none;
  status = OrderStatus.pending_payment;
  order_type = OrderType.pickup;
  address = none;
  payment_channel = none;
  payment_status = PaymentStatus.pending;
  is_scheduled = false;
  scheduled_at = none;
  reminder_sent_at = none;
  pickup_code = some "001";
  reservation_slot_id = none;
  coupon_id = none;
  created_at = 100;
  updated_at = 100;
}

abbrev pub paid_order : Order
paid_order = record pending_order {
  order_id = 2;
  order_number = "NC2";
  status = OrderStatus.paid;
  payment_status = PaymentStatus.paid;
}

abbrev pub two_teas : OrderItem
two_teas = record {
  item_id = 1;
  order_id = 1;
  product_id = some 1;
  product_name = "milk tea";
  quantity = 2;
  unit_price = pos 1500;
  selected_specs = [];
}

abbrev pub busy_db : Db
busy_db = record empty_db {
  orders = pending_order ∷ paid_order ∷ [];
  order_items = two_teas ∷ [];
  next_order_id = 3;
  next_item_id = 2;
}
