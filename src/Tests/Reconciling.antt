-- ===== src/Tests/Reconciling.antt =====
-- The reconciliation of the day of a notification.
use naicha_backend.Payments.Records.{find_order_number, find_txn}
use naicha_backend.Prelude.{
  any, arith, contains, false, map, none, refl, some, true, ◌&&◌, ◌==◌, ◌≡◌,
}
use naicha_backend.Reconciliation.{OrderEntry, in_range, previous_day, run_daily}
use naicha_backend.Reconciliation.Notified.{handle_wechat_notification-reconciled}
use naicha_backend.Reconciliation.Reports.{lacks_payment, lacks_refund, run_daily-reports}
use naicha_backend.Tests.Data.{busy_db, pending_order, shop_settings, utc}
use naicha_backend.Tests.Paying.{dispatched, notification, notified, notified-ok, surroundings}

reconciled_day :
    in_range (previous_day utc 90000000000).0 (previous_day utc 90000000000).1 700 ≡ true
unfolding previous_day
reconciled_day = refl

run_daily-reports_example :
    let (start, end) = previous_day utc 90000000000 in
    let result = (run_daily shop_settings utc 90000000000 none busy_db).0 in
    (contains 1 (map (λ (e : OrderEntry). e.order_id) result.orders_without_payment)
      ≡ any (λ o. 1 == o.order_id && lacks_payment start end busy_db o) busy_db.orders)
    × (contains 1 (map (λ (e : OrderEntry). e.order_id) result.orders_without_refund)
        ≡ any (λ o. 1 == o.order_id && lacks_refund start end busy_db o) busy_db.orders)
run_daily-reports_example = run_daily-reports shop_settings utc 90000000000 none busy_db 1

its_order : find_order_number "NC1" busy_db.orders ≡ some pending_order
unfolding find_order_number
its_order = refl

unknown_txn : find_txn notification.transaction_id busy_db.payment_records ≡ none
unfolding find_txn
unknown_txn = refl

handle_wechat_notification-reconciled_example :
    contains pending_order.order_id (
      map
        (λ (e : OrderEntry). e.order_id)
        (run_daily shop_settings utc 90000000000 none notified.1).0.orders_without_payment)
    ≡ false
handle_wechat_notification-reconciled_example =
    handle_wechat_notification-reconciled (surroundings 800) notification "AB12" busy_db notified.1
      dispatched pending_order shop_settings utc 90000000000 none notified-ok its_order
      (omega arith) unknown_txn reconciled_day
