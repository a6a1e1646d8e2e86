-- ===== src/Reconciliation/Notified.antt =====
-- Notifications and the reconciliation of their day.
use naicha_backend.Database.{Db, Settings}
use naicha_backend.Exec.{ok}
use naicha_backend.Models.Rows.{Order}
use naicha_backend.Payments.Notify.{
  Dispatch, Notification, Surroundings, handle_wechat_notification, insert_record, record_of,
}
use naicha_backend.Payments.Notify.Pays.{notify-Settled}
use naicha_backend.Payments.Records.{find_order_number, find_txn}
use naicha_backend.Prelude.{
  ==_iff, Bool, Bool-cases, Option, String, [], any, any-append, any-never, ap, arith, contains,
  false, inl, inr, map, none, some, subst, true, ℕ, ◌&&◌, ◌==◌, ◌∙◌, ◌∷◌, ◌≡◌, ◌≢◌,
}
use naicha_backend.Reconciliation.{OrderEntry, in_range, previous_day, run_daily}
use naicha_backend.Reconciliation.Reports.{is_paid_in, lacks_payment, run_daily-reports}
use naicha_backend.Reservations.Hours.{day}
use naicha_backend.Reservations.Plan.{Zone}

-- A payment of the range that is on record clears every row of its order.
not-lacks_payment :
    (start end : ℕ) (db : Db) (k : ℕ)
    → any (is_paid_in start end k) db.payment_records ≡ true
    → (o : Order) → (k == o.order_id && lacks_payment start end db o) ≡ false
not-lacks_payment start end db k paid o = elim (Bool-cases (k == o.order_id)) [
  | inr other ↦ ground (arith, other)
  | inl same ↦
      (let here : any (is_paid_in start end o.order_id) db.payment_records ≡ true =
          subst (λ i. any (is_paid_in start end i) db.payment_records ≡ true)
            ((==_iff k o.order_id).0 same) paid in
        ground (arith, here))
]

recorded :
    (n : Notification) (id start end : ℕ) (db : Db)
    → find_txn n.transaction_id db.payment_records ≡ none
    → in_range start end n.paid_at ≡ true
    → id ≢ 0
    → any (is_paid_in start end id) (insert_record n id db).payment_records ≡ true
unfolding insert_record
recorded n id start end db new day positive = ground (
  arith,
  new,
  day,
  positive,
  any-append (is_paid_in start end id) db.payment_records (record_of n id db.next_pay_id ∷ []),
)

-- An order whose payment was notified, under a transaction that was not on record before, is not
-- reported as one without payment by the reconciliation of the day that the notification names as
-- the day of the payment.
pub handle_wechat_notification-reconciled :
    (s : Surroundings) (n : Notification) (signature : String) (db db' : Db) (d : Dispatch)
    (order : Order) (settings : Settings) (zone : Zone) (reference : ℕ) (csv_enabled : Option Bool)
    → handle_wechat_notification s n signature db ≡ (ok d, db')
    → find_order_number n.order_number db.orders ≡ some order
    → order.order_id ≢ 0
    → find_txn n.transaction_id db.payment_records ≡ none
    → in_range (previous_day zone reference).0 (previous_day zone reference).1 n.paid_at ≡ true
    → contains order.order_id (
        map
          (λ (e : OrderEntry). e.order_id)
          (run_daily settings zone reference csv_enabled db').0.orders_without_payment)
      ≡ false
handle_wechat_notification-reconciled s n signature db db' d order settings zone reference
      csv_enabled e found positive new day =
    let (order', found', right, signed_, settled) = notify-Settled s n signature db db' d e in
    let (start, end) = previous_day zone reference in
    let same : order' ≡ order = ground (arith, found, found') in
    let records : db'.payment_records ≡ (insert_record n order.order_id db).payment_records =
      settled.records ∙ ap (λ (o : Order). (insert_record n o.order_id db).payment_records) same in
    let paid : any (is_paid_in start end order.order_id) db'.payment_records ≡ true =
      ap (any (is_paid_in start end order.order_id)) records
      ∙ recorded n order.order_id start end db new day positive in
    (run_daily-reports settings zone reference csv_enabled db' order.order_id).0
    ∙ any-never (λ o. order.order_id == o.order_id && lacks_payment start end db' o) db'.orders
        (not-lacks_payment start end db' order.order_id paid)
