-- ===== src/Reconciliation/Reports.antt =====
-- Which orders and records a reconciliation reports, told from the tables.
use naicha_backend.Database.{Db, Settings}
use naicha_backend.Models.{
  OrderStatus, PaymentStatus, order_status_tagged, payment_status_tagged, ◌is◌,
}
use naicha_backend.Models.Rows.{Order, PaymentRecord}
use naicha_backend.Prelude.{
  Bool, Bool-cases, List, Option, Option-cases, [], any, any_cong, ap, arith, contains,
  contains-map-select, false, inl, inr, map, none, not, refl, select, select-select, some, ℕ, ◌&&◌,
  ◌==◌, ◌∙◌, ◌∷◌, ◌≡◌,
}
use naicha_backend.Reconciliation.{
  OrderEntry, compare_records, in_range, is_fetched, matched_order_ids, previous_day, run_daily,
  serialize_order,
}
use naicha_backend.Reservations.Plan.{Zone}

abbrev pub matches : ℕ → PaymentRecord → Bool
matches order_id r = elim r.matched_order_id [
  | none ↦ false
  | some id ↦ id == order_id && not (id == 0)
]

-- A payment, or a refund, of a range of time that is matched with an order.
abbrev pub is_paid_in : ℕ → ℕ → ℕ → PaymentRecord → Bool
is_paid_in start end order_id r =
    (not r.is_refund && in_range start end r.paid_at) && matches order_id r

abbrev pub is_refunded_in : ℕ → ℕ → ℕ → PaymentRecord → Bool
is_refunded_in start end order_id r =
    (r.is_refund && in_range start end r.paid_at) && matches order_id r

contains-matched_order_ids :
    (k : ℕ) (p : PaymentRecord → Bool) (rs : List PaymentRecord)
    → contains k (matched_order_ids (select p rs)) ≡ any (λ r. p r && matches k r) rs
unfolding matched_order_ids
contains-matched_order_ids k p [] = refl
contains-matched_order_ids k p (r ∷ rs) = elim (Bool-cases (p r)) [
  | inl taken ↦ rw taken (elim (Option-cases r.matched_order_id) [
    | inl absent ↦ ground (arith, absent, contains-matched_order_ids k p rs)
    | inr (id, there) ↦ ground (arith, there, contains-matched_order_ids k p rs)
  ])
  | inr left ↦ rw left (ground (arith, contains-matched_order_ids k p rs))
]

-- The orders without a payment
abbrev pub lacks_payment : ℕ → ℕ → Db → Order → Bool
lacks_payment start end db o =
    in_range start end o.created_at
    && (o.payment_status is PaymentStatus.paid)
    && not (any (is_paid_in start end o.order_id) db.payment_records)

abbrev pub lacks_refund : ℕ → ℕ → Db → Order → Bool
lacks_refund start end db o =
    in_range start end o.created_at
    && (o.status is OrderStatus.refunded)
    && not (any (is_refunded_in start end o.order_id) db.payment_records)

module _ (start end : ℕ) (db : Db) (k : ℕ) where
  reported_without_payment :
      contains k
        (map (λ (e : OrderEntry). e.order_id) (compare_records start end db).orders_without_payment)
      ≡ any (λ o. k == o.order_id && lacks_payment start end db o) db.orders
  unfolding compare_records
  reported_without_payment =
      let paid = λ (r : PaymentRecord). not r.is_refund && in_range start end r.paid_at in
      let missing = λ (o : Order).
        (o.payment_status is PaymentStatus.paid)
        && not (contains o.order_id (matched_order_ids (select paid db.payment_records))) in
      let both = λ (o : Order). is_fetched start end o && missing o in
      ap (λ xs. contains k (map (λ (e : OrderEntry). e.order_id) (map serialize_order xs)))
        (select-select missing (is_fetched start end) db.orders)
      ∙ contains-map-select k (λ (e : OrderEntry). e.order_id) serialize_order both db.orders
      ∙ any_cong (λ o. k == o.order_id && both o)
          (λ o. k == o.order_id && lacks_payment start end db o) db.orders
          (λ o. ground (arith, contains-matched_order_ids o.order_id paid db.payment_records))

  reported_without_refund :
      contains k
        (map (λ (e : OrderEntry). e.order_id) (compare_records start end db).orders_without_refund)
      ≡ any (λ o. k == o.order_id && lacks_refund start end db o) db.orders
  unfolding compare_records
  reported_without_refund =
      let refunded = λ (r : PaymentRecord). r.is_refund && in_range start end r.paid_at in
      let missing = λ (o : Order).
        (o.status is OrderStatus.refunded)
        && not (contains o.order_id (matched_order_ids (select refunded db.payment_records))) in
      let both = λ (o : Order). is_fetched start end o && missing o in
      ap (λ xs. contains k (map (λ (e : OrderEntry). e.order_id) (map serialize_order xs)))
        (select-select missing (is_fetched start end) db.orders)
      ∙ contains-map-select k (λ (e : OrderEntry). e.order_id) serialize_order both db.orders
      ∙ any_cong (λ o. k == o.order_id && both o)
          (λ o. k == o.order_id && lacks_refund start end db o) db.orders
          (λ o. ground (arith, contains-matched_order_ids o.order_id refunded db.payment_records))

-- For the previous day of the shop, an order of some id is reported as one without payment just if
-- there is such an order that was created within the day and is paid, and no payment of that same
-- day is matched with it; and as one without refund just if it was created within the day and is
-- refunded, and no refund of that day is matched with it.
pub run_daily-reports :
    (settings : Settings) (zone : Zone) (reference : ℕ) (csv_enabled : Option Bool) (db : Db)
    (k : ℕ)
    → let (start, end) = previous_day zone reference in
      let result = (run_daily settings zone reference csv_enabled db).0 in
      (contains k (map (λ (e : OrderEntry). e.order_id) result.orders_without_payment)
        ≡ any (λ o. k == o.order_id && lacks_payment start end db o) db.orders)
      × (contains k (map (λ (e : OrderEntry). e.order_id) result.orders_without_refund)
          ≡ any (λ o. k == o.order_id && lacks_refund start end db o) db.orders)
unfolding run_daily
run_daily-reports settings zone reference csv_enabled db k =
    let (start, end) = previous_day zone reference in
    (reported_without_payment start end db k, reported_without_refund start end db k)
