-- ===== src/Reconciliation.antt =====
-- ReconciliationService of app/services/reconciliation.py: the orders and the payment records of the
-- previous local day, against each other.
pub mod Reports
pub mod Notified
use naicha_backend.Database.{Db, Settings}
use naicha_backend.Models.{
  MatchStatus, OrderStatus, PaymentStatus, match_status_tagged, order_status_tagged,
  payment_status_tagged, ◌is◌,
}
use naicha_backend.Models.Rows.{Order, PaymentRecord}
use naicha_backend.Orders.Errors.{truthy}
use naicha_backend.Prelude.{
  Bool, List, Option, String, [], contains, if◌then◌else◌, leb, length, ltb, map, none, not, select,
  some, str_eq, ℕ, ℤ, ◌&&◌, ◌*◌, ◌++◌, ◌+◌, ◌-◌, ◌/◌, ◌==◌, ◌||◌, ◌∷◌,
}
use naicha_backend.Reservations.Hours.{day}
use naicha_backend.Reservations.Plan.{Zone}

abbrev pub in_range : ℕ → ℕ → ℕ → Bool
in_range start end t = leb start t && ltb t end

-- `_serialize_order`
pub record OrderEntry : Type 0 where
  pub order_id : ℕ
  pub order_number : String
  pub status : OrderStatus
  pub payment_status : PaymentStatus
  pub total_price : ℤ

abbrev pub serialize_order : Order → OrderEntry
serialize_order o = record {
  order_id = o.order_id;
  order_number = o.order_number;
  status = o.status;
  payment_status = o.payment_status;
  total_price = o.total_price;
}

-- `_serialize_payment`
pub record PaymentEntry : Type 0 where
  pub payment_record_id : ℕ
  pub amount : ℤ
  pub is_refund : Bool
  pub match_status : MatchStatus
  pub matched_order_id : Option ℕ

abbrev pub serialize_payment : PaymentRecord → PaymentEntry
serialize_payment r = record {
  payment_record_id = r.pay_id;
  amount = r.amount;
  is_refund = r.is_refund;
  match_status = r.match_status;
  matched_order_id = r.matched_order_id;
}

pub record ReconciliationResult : Type 0 where
  pub range_start : ℕ
  pub range_end : ℕ
  pub orders_without_payment : List OrderEntry
  pub orders_without_refund : List OrderEntry
  pub unmatched_payments : List PaymentEntry

-- `_fetch_orders`; `payment_status` is never "refunded", which ck_orders_payment_status rules out.
abbrev pub is_fetched : ℕ → ℕ → Order → Bool
is_fetched start end o =
    in_range start end o.created_at
    && ((o.payment_status is PaymentStatus.paid) || (o.status is OrderStatus.refunded))

unfoldable pub fetch_orders : ℕ → ℕ → Db → List Order
fetch_orders start end db = select (is_fetched start end) db.orders

-- `_fetch_payments` and `_fetch_refunds`
unfoldable pub fetch_payments : ℕ → ℕ → Db → List PaymentRecord
fetch_payments start end db =
    select (λ r. not r.is_refund && in_range start end r.paid_at) db.payment_records

unfoldable pub fetch_refunds : ℕ → ℕ → Db → List PaymentRecord
fetch_refunds start end db =
    select (λ r. r.is_refund && in_range start end r.paid_at) db.payment_records

-- The set of `matched_order_id` where it is truthy.
unfoldable pub matched_order_ids : List PaymentRecord → List ℕ
matched_order_ids [] = []
matched_order_ids (r ∷ rs) =
    let rest = matched_order_ids rs in
    elim r.matched_order_id [ none ↦ rest | some id ↦ if id == 0 then rest else id ∷ rest ]

abbrev pub is_unmatched : PaymentRecord → Bool
is_unmatched r =
    not (truthy r.matched_order_id)
    || (r.match_status is MatchStatus.unmatched)
    || (r.match_status is MatchStatus.failed)

-- The three differences.
unfoldable pub compare_records : ℕ → ℕ → Db → ReconciliationResult
unfolding fetch_orders fetch_payments fetch_refunds matched_order_ids
compare_records start end db =
    let orders = fetch_orders start end db in
    let payments = fetch_payments start end db in
    let paid_ids = matched_order_ids payments in
    let refunded_ids = matched_order_ids (fetch_refunds start end db) in
    record {
      range_start = start;
      range_end = end;
      orders_without_payment = map serialize_order (
          select
            (λ o. (o.payment_status is PaymentStatus.paid) && not (contains o.order_id paid_ids))
            orders);
      orders_without_refund = map serialize_order (
          select (λ o. (o.status is OrderStatus.refunded) && not (contains o.order_id refunded_ids))
            orders);
      unmatched_payments = map serialize_payment (select is_unmatched payments);
    }

-- `total_differences`
unfoldable pub total_differences : ReconciliationResult → ℕ
total_differences r =
    length r.orders_without_payment + length r.orders_without_refund + length r.unmatched_payments

-- The start of the previous local day, in UTC, and its end.
unfoldable pub previous_day : Zone → ℕ → ℕ × ℕ
previous_day zone reference =
    let start_local = (zone.to_local reference / day - 1) * day in
    (zone.to_utc start_local, zone.to_utc (start_local + day))

-- A row of the report: the order of a difference, or its payment.
pub data CsvRow : Type 0 where
  without_payment without_refund : OrderEntry → CsvRow
  unmatched : PaymentEntry → CsvRow

-- `_compose_csv_rows`
unfoldable pub compose_csv_rows : ReconciliationResult → List CsvRow
compose_csv_rows r =
    map without_payment r.orders_without_payment
    ++ (map without_refund r.orders_without_refund ++ map CsvRow.unmatched r.unmatched_payments)

abbrev pub or_else_setting : Option Bool → Bool → Bool
or_else_setting none setting = setting
or_else_setting (some b) setting = b

-- `_export_csv`: the rows of the file, if one is written.
unfoldable pub export_csv : Settings → ReconciliationResult → Option (List CsvRow)
unfolding compose_csv_rows
export_csv settings r = elim settings.reconciliation_report_dir [
  | none ↦ none
  | some dir ↦ if str_eq dir "" then none else some (compose_csv_rows r)
]

-- `run_daily`: the result, and the rows of the report.
unfoldable pub run_daily :
    Settings → Zone → ℕ → Option Bool → Db → ReconciliationResult × Option (List CsvRow)
unfolding compare_records previous_day export_csv
run_daily settings zone reference csv_enabled db =
    let (start, end) = previous_day zone reference in
    let result = compare_records start end db in
    (
      result,
      if or_else_setting csv_enabled settings.reconciliation_csv_enabled
          then export_csv settings result
          else none,
    )
