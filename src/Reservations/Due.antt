-- ===== src/Reservations/Due.antt =====
-- `send_due_reminders` and `activate_due_orders` of app/services/reservations.py.
use naicha_backend.Database.{Db, Settings, minute}
use naicha_backend.Models.{
  OrderStatus, PaymentStatus, order_status_tagged, payment_status_tagged, ◌is◌,
}
use naicha_backend.Models.Rows.{Order}
use naicha_backend.Prelude.{
  Bool, List, [], false, if◌then◌else◌, is_some, leb, ltb, none, not, some, ℕ, ◌&&◌, ◌*◌, ◌+◌, ◌∷◌,
}

-- `_load_scheduled_orders`
abbrev is_loaded : Order → Bool
is_loaded o = o.is_scheduled && is_some o.scheduled_at

abbrev is_paid_up : Order → Bool
is_paid_up o = (o.payment_status is PaymentStatus.paid) && (o.status is OrderStatus.paid)

-- `reminder_time <= now < scheduled_utc`, behind `scheduled_utc <= now: continue`.
unfoldable pub reminder_due : Settings → ℕ → Order → Bool
reminder_due settings now o =
    is_loaded o && not (is_some o.reminder_sent_at) && is_paid_up o && elim o.scheduled_at [
      | none ↦ false
      | some at ↦ ltb now at && leb at (now + settings.reservation_reminder_minutes * minute)
    ]

unfoldable pub activation_due : ℕ → Order → Bool
activation_due now o =
    is_loaded o && is_paid_up o && elim o.scheduled_at [ none ↦ false | some at ↦ leb at now ]

-- The rows, each one changed where the test holds, and the ids of those that were.
unfoldable pub touch_due : (Order → Bool) → (Order → Order) → List Order → List Order × List ℕ
touch_due due set [] = ([], [])
touch_due due set (o ∷ os) =
    let (rest, ids) = touch_due due set os in
    if due o then (set o ∷ rest, o.order_id ∷ ids) else (o ∷ rest, ids)

-- `send_due_reminders`
unfoldable pub send_due_reminders : Settings → ℕ → Db → List ℕ × Db
send_due_reminders settings now db =
    if not settings.reservation_enabled
    then ([], db)
    else (let mark = λ (o : Order). record o { reminder_sent_at = some now } in
        let (orders, ids) = touch_due (reminder_due settings now) mark db.orders in
        (ids, record db { orders = orders }))

-- `activate_due_orders`
unfoldable pub activate_due_orders : Settings → ℕ → Db → List ℕ × Db
activate_due_orders settings now db =
    if not settings.reservation_enabled
    then ([], db)
    else (let start =
          λ (o : Order). record o { status = OrderStatus.in_production; updated_at = now } in
        let (orders, ids) = touch_due (activation_due now) start db.orders in
        (ids, record db { orders = orders }))
