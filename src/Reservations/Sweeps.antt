-- ===== src/Reservations/Sweeps.antt =====
-- The sweeps over the scheduled orders change just the rows that are due, once.
use naicha_backend.Database.{Db, Settings}
use naicha_backend.Models.{OrderStatus}
use naicha_backend.Models.Rows.{Order}
use naicha_backend.Orders.Access.{get_order}
use naicha_backend.Prelude.{
  Bool, List, [], arith, false, if◌then◌else◌, refl, some, true, ℕ, ◌∷◌, ◌≡◌,
}
use naicha_backend.Reservations.Due.{
  activate_due_orders, activation_due, reminder_due, send_due_reminders, touch_due,
}
use naicha_backend.Table.{find, map_some}

module _ (due : Order → Bool) (set : Order → Order) where
  -- The row, changed where it is due.
  abbrev pub touched : Order → Order
  touched o = if due o then set o else o

  find-touch_due :
      (j : ℕ) (os : List Order)
      → ((o : Order) → (set o).order_id ≡ o.order_id)
      → find (λ (o : Order). o.order_id) j (touch_due due set os).0
        ≡ map_some touched (find (λ (o : Order). o.order_id) j os)
  unfolding touch_due find
  find-touch_due j [] key = refl
  find-touch_due j (o ∷ os) key = ground (arith, key o, find-touch_due j os key)

  touch_due_again :
      (os : List Order)
      → ((o : Order) → due (set o) ≡ false)
      → touch_due due set (touch_due due set os).0 ≡ ((touch_due due set os).0, [])
  unfolding touch_due
  touch_due_again [] settled = refl
  touch_due_again (o ∷ os) settled = ground (arith, settled o, touch_due_again os settled)

-- The row as the sweep for reminders leaves it.
abbrev pub reminded : Settings → ℕ → Order → Order
reminded settings now =
    touched (reminder_due settings now) (λ o. record o { reminder_sent_at = some now })

abbrev pub activated : ℕ → Order → Order
activated now =
    touched (activation_due now)
      (λ o. record o { status = OrderStatus.in_production; updated_at = now })

-- With reservations enabled, the sweep for reminders marks just the orders that are due, and the
-- same sweep once more sends none and changes nothing.
pub send_due_reminders-once :
    (settings : Settings) (now : ℕ) (db : Db)
    → settings.reservation_enabled ≡ true
    → let db' = (send_due_reminders settings now db).1 in
      ((j : ℕ) → get_order db' j ≡ map_some (reminded settings now) (get_order db j))
      × (send_due_reminders settings now db' ≡ ([], db'))
unfolding send_due_reminders reminder_due
send_due_reminders-once settings now db enabled =
    let due = reminder_due settings now in
    let mark = λ (o : Order). record o { reminder_sent_at = some now } in
    (
      λ j. ground (arith, enabled, find-touch_due due mark j db.orders (λ o. refl)),
      ground (arith, enabled, touch_due_again due mark db.orders (λ o. ground arith)),
    )

-- With reservations enabled, the sweep for activation puts just the orders that are due into
-- production, and the same sweep once more activates none and changes nothing.
pub activate_due_orders-once :
    (settings : Settings) (now : ℕ) (db : Db)
    → settings.reservation_enabled ≡ true
    → let db' = (activate_due_orders settings now db).1 in
      ((j : ℕ) → get_order db' j ≡ map_some (activated now) (get_order db j))
      × (activate_due_orders settings now db' ≡ ([], db'))
unfolding activate_due_orders activation_due
activate_due_orders-once settings now db enabled =
    let due = activation_due now in
    let start = λ (o : Order). record o { status = OrderStatus.in_production; updated_at = now } in
    (
      λ j. ground (arith, enabled, find-touch_due due start j db.orders (λ o. refl)),
      ground (arith, enabled, touch_due_again due start db.orders (λ o. ground arith)),
    )
