-- ===== src/Payments/Notify/Pays.antt =====
-- What a notification that returns has done.
use naicha_backend.Database.{Db}
use naicha_backend.Exec.{Result-cases, ok}
use naicha_backend.Menu.Fresh.{settled}
use naicha_backend.Models.{
  OrderStatus, PaymentStatus, order_status_tagged, payment_status_tagged, ◌is◌,
}
use naicha_backend.Models.Rows.{Order}
use naicha_backend.Money.{cents, eq_decimal}
use naicha_backend.Orders.Access.{get_order}
use naicha_backend.Payments.Notify.{
  Dispatch, Notification, Surroundings, ensure_amount_matches, handle_wechat_notification,
  mark_paid, notify, settle, verify_signature,
}
use naicha_backend.Payments.Notify.Effect.{Settled, find_txn-insert_record, settle-Settled}
use naicha_backend.Payments.Records.{find_order_number, find_txn, job_of}
use naicha_backend.Prelude.{
  Option-cases, String, ap, arith, eq_iff, if◌then◌else◌, inl, inr, is_some, none, refl, some, true,
  ℕ, ◌==◌, ◌∙◌, ◌≡◌,
}
use naicha_backend.Table.{find, find-update, map_some}

-- A notification that returns has found its order, with the amount and the signature right.
pub notify-Settled :
    (s : Surroundings) (n : Notification) (signature : String) (db db' : Db) (d : Dispatch)
    → handle_wechat_notification s n signature db ≡ (ok d, db')
    → (order : Order) × (find_order_number n.order_number db.orders ≡ some order)
      × (ensure_amount_matches order n.amount n.currency ≡ ok tt)
      × (verify_signature s.expected_signature signature ≡ true)
      × Settled s n order db db' d
unfolding handle_wechat_notification notify
notify-Settled s n signature db db' d e =
    elim (Option-cases (find_order_number n.order_number db.orders)) [
      | inl absent ↦ absurd (ground arith)
      | inr (order, found) ↦ elim (Result-cases (ensure_amount_matches order n.amount n.currency)) [
        | inl (x, refused) ↦ absurd (ground arith)
        | inr (_, right) ↦
            (let run : settle s n order db ≡ (ok d, db') = ground (arith, found, right) in
              (order, found, right, ground arith, settle-Settled s n order db db' d run))
      ]
    ]

-- A notification that returns had the right signature, the amount of the order of its number, and
-- the currency CNY. The row with the id of that order is then paid in both columns and every other row stays;
-- there is a payment record of the transaction and a print job of the order; and the side effects
-- of a payment are handed on just if the order was not paid before.
pub handle_wechat_notification-pays :
    (s : Surroundings) (n : Notification) (signature : String) (db db' : Db) (d : Dispatch)
    → handle_wechat_notification s n signature db ≡ (ok d, db')
    → (order : Order) × (find_order_number n.order_number db.orders ≡ some order)
      × (eq_decimal (cents order.total_price) n.amount ≡ true)
      × (n.currency ≡ "CNY")
      × (verify_signature s.expected_signature signature ≡ true)
      × ((j : ℕ)
          → get_order db' j ≡ (
              if order.order_id == j
              then map_some (mark_paid s.now n.channel) (get_order db j)
              else get_order db j))
      × ((mark_paid s.now n.channel order).status ≡ OrderStatus.paid)
      × ((mark_paid s.now n.channel order).payment_status ≡ PaymentStatus.paid)
      × (is_some (find_txn n.transaction_id db'.payment_records) ≡ true)
      × (is_some (job_of order.order_id db') ≡ true)
      × (d.side_effects ≡ (if order.status is OrderStatus.paid then none else some order.order_id))
unfolding ensure_amount_matches mark_paid
handle_wechat_notification-pays s n signature db db' d e =
    let (order, found, right, signed_, settled) = notify-Settled s n signature db db' d e in
    let pay = mark_paid s.now n.channel in
    (
      order,
      found,
      ground arith,
      (eq_iff n.currency "CNY").0 (ground arith),
      signed_,
      λ j.
          ap (find (λ (o : Order). o.order_id) j) settled.orders
          ∙ find-update (λ (o : Order). o.order_id) order.order_id j pay db.orders (λ o. refl),
      refl,
      refl,
      ap (λ rs. is_some (find_txn n.transaction_id rs)) settled.records
          ∙ find_txn-insert_record n order.order_id db,
      settled.job,
      settled.effects,
    )
