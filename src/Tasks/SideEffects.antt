-- ===== src/Tasks/SideEffects.antt =====
-- What a notification hands on, and the task that takes it.
use naicha_backend.Advertisements.Configs.{before}
use naicha_backend.Database.{Db, Settings}
use naicha_backend.Exec.{ok}
use naicha_backend.Loyalty.{award_on_payment}
use naicha_backend.Models.{OrderStatus}
use naicha_backend.Models.Rows.{Order}
use naicha_backend.Orders.Access.{get_order}
use naicha_backend.Payments.Notify.{
  Dispatch, Notification, Surroundings, handle_wechat_notification, mark_paid,
}
use naicha_backend.Payments.Notify.Pays.{handle_wechat_notification-pays}
use naicha_backend.Payments.Records.{find_order_number}
use naicha_backend.Prelude.{List, String, [], ap, arith, is_some, refl, some, true, ℕ, ◌∷◌, ◌≡◌}
use naicha_backend.Table.{find, is_some-inv, key-find}
use naicha_backend.Tasks.{PaidMessage, paid_message, process_payment_side_effects}

found_by_id :
    (n : String) (os : List Order) {o : Order}
    → find_order_number n os ≡ some o
    → is_some (find (λ (o : Order). o.order_id) o.order_id os) ≡ true
unfolding find_order_number find
found_by_id n [] found = absurd (ground (arith, found))
found_by_id n (x ∷ os) {o} found = ground (arith, found, found_by_id n os {o = o})

-- The side effects of a payment that a notification hands on do not fail for want of the order: right
-- after the notification the task finds it, the message that it broadcasts has the id, the number and
-- the total of that order, shows it as paid and dates that by its last update, and the rows are those
-- that the award of its points leaves.
pub handle_wechat_notification-side_effects :
    (s : Surroundings) (n : Notification) (signature : String) (db db' : Db) (d : Dispatch)
    (settings : Settings) (now k : ℕ)
    → handle_wechat_notification s n signature db ≡ (ok d, db')
    → d.side_effects ≡ some k
    → (order : Order) × (get_order db' k ≡ some order)
      × (message : PaidMessage) × (process_payment_side_effects settings now k db'
          ≡ (ok message, award_on_payment settings now order true db'))
      × (message.order_id ≡ k)
      × (message.status ≡ OrderStatus.paid)
      × (message.order_number ≡ order.order_number)
      × (message.total_price ≡ order.total_price)
      × (message.paid_at ≡ order.updated_at)
unfolding process_payment_side_effects
handle_wechat_notification-side_effects s n signature db db' d settings now k e handed =
    let (order, found, right, currency, signed_, orders, paid, paid', record_, job, effects) =
      handle_wechat_notification-pays s n signature db db' d e in
    let id : order.order_id ≡ k = ground (arith, effects, handed) in
    let (before, there) =
      is_some-inv (get_order db order.order_id) (found_by_id n.order_number db.orders found) in
    let after : get_order db' k ≡ some (mark_paid s.now n.channel before) =
      ground (arith, orders k, there, id, ap (get_order db) id) in
    (
      mark_paid s.now n.channel before,
      after,
      paid_message (mark_paid s.now n.channel before),
      ground (arith, after),
      key-find (λ (o : Order). o.order_id) k db'.orders after,
      unfold mark_paid in refl,
      refl,
      refl,
      refl,
    )
