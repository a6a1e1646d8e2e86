-- ===== src/Orders/Cancel.antt =====
-- `cancel_pending_order` and `cancel_stale_pending_orders` of app/services/orders.py.
pub mod Effect
pub mod Sweep
use naicha_backend.Database.{Db, order_auto_cancel}
use naicha_backend.Inventory.{restore_from_order_items}
use naicha_backend.Models.{
  OrderStatus, PaymentStatus, order_status_tagged, payment_status_tagged, ◌is◌,
}
use naicha_backend.Models.Rows.{Order}
use naicha_backend.Orders.Access.{get_order, items_of}
use naicha_backend.Orders.Errors.{truthy}
use naicha_backend.Prelude.{
  Bool, List, String, [], false, if◌then◌else◌, leb, map, none, not, select, some, sort_by, take,
  true, ℕ, ◌&&◌, ◌++◌, ◌∷◌,
}
use naicha_backend.Reservations.Slots.{release_slot}
use naicha_backend.Table.{update}

abbrev pub is_cancellable : Order → Bool
is_cancellable o =
    (o.status is OrderStatus.pending_payment) && (o.payment_status is PaymentStatus.pending)

abbrev pub set_cancelled : ℕ → Order → Order
set_cancelled now o = record o { status = OrderStatus.cancelled; updated_at = now }

abbrev clear_slot : Order → Order
clear_slot o = record o { reservation_slot_id = none; is_scheduled = false }

abbrev update_order : ℕ → (Order → Order) → Db → Db
update_order order_id f db = record db { orders = update (λ o. o.order_id) order_id f db.orders }

-- The stock, the status and the audit log.
unfoldable pub write_cancellation : ℕ → String → Order → Db → Db
write_cancellation now reason order db =
    let items = items_of order.order_id db.order_items in
    let (changes, restored) = restore_from_order_items now items db in
    let cancelled = update_order order.order_id (set_cancelled now) restored in
    record cancelled {
      audit_logs =
          cancelled.audit_logs
          ++ order_auto_cancel order.order_id order.status order.payment_status
              OrderStatus.cancelled order.payment_status reason changes
            ∷ [];
    }

-- The reservation slot of a scheduled order.
unfoldable pub free_slot : ℕ → Order → Db → Db
free_slot now order db =
    if truthy order.reservation_slot_id
    then update_order order.order_id clear_slot (release_slot now order.reservation_slot_id db)
    else db

-- The writes for an order that may be cancelled.
unfoldable pub cancel_order : ℕ → String → Order → Db → Db
cancel_order now reason order db = free_slot now order (write_cancellation now reason order db)

-- `cancel_pending_order`
unfoldable pub cancel_pending_order : ℕ → String → ℕ → Db → Bool × Db
cancel_pending_order now reason order_id db = elim (get_order db order_id) [
  | none ↦ (false, db)
  | some order ↦
      if not (is_cancellable order) then (false, db) else (true, cancel_order now reason order db)
]

-- The loop of `cancel_stale_pending_orders`.
unfoldable pub cancel_each : ℕ → String → List ℕ → Db → List ℕ × Db
cancel_each now reason [] db = ([], db)
cancel_each now reason (id ∷ ids) db =
    let (success, db') = cancel_pending_order now reason id db in
    let (cancelled, db'') = cancel_each now reason ids db' in
    (if success then id ∷ cancelled else cancelled, db'')

abbrev is_stale : ℕ → Order → Bool
is_stale cutoff o = is_cancellable o && leb o.created_at cutoff

-- The query: the oldest pending orders up to a limit.
unfoldable pub stale_orders : ℕ → ℕ → List Order → List ℕ
stale_orders cutoff limit orders =
    take limit
      (map (λ o. o.order_id) (sort_by (λ o. o.created_at) (select (is_stale cutoff) orders)))

-- `cancel_stale_pending_orders`
unfoldable pub cancel_stale_pending_orders : ℕ → ℕ → ℕ → String → Db → List ℕ × Db
unfolding stale_orders cancel_each
cancel_stale_pending_orders now cutoff limit reason db =
    cancel_each now reason (stale_orders cutoff limit db.orders) db
