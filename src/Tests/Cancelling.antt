-- ===== src/Tests/Cancelling.antt =====
-- Pending orders are cancelled, one by one and by the sweep.
use naicha_backend.Database.{Db}
use naicha_backend.Inventory.Count.{held, stock}
use naicha_backend.Inventory.Restore.{plus}
use naicha_backend.Models.{OrderStatus}
use naicha_backend.Models.Rows.{Order}
use naicha_backend.Orders.Access.{get_order, items_of}
use naicha_backend.Orders.Cancel.{cancel_pending_order, cancel_stale_pending_orders, is_cancellable}
use naicha_backend.Orders.Cancel.Effect.{cancel_pending_order-restores, cancelled_row}
use naicha_backend.Orders.Cancel.Sweep.{IsKeyed, cancel_stale_pending_orders-named}
use naicha_backend.Prelude.{
  All, List, contains, false, if◌then◌else◌, length, refl, some, true, ℕ, ◌==◌, ◌≡◌, ◌≤◌,
}
use naicha_backend.Table.{find}
use naicha_backend.Tests.Data.{busy_db, paid_order, pending_order}

found_pending : get_order busy_db 1 ≡ some pending_order
unfolding find
found_pending = refl

found_paid : get_order busy_db 2 ≡ some paid_order
unfolding find
found_paid = refl

cancel_pending_order-restores_example :
    let (success, db') = cancel_pending_order 500 "timeout" 1 busy_db in
    (success ≡ true)
    × ((j : ℕ)
        → get_order db' j
          ≡ (if 1 == j then some (cancelled_row 500 pending_order) else get_order busy_db j))
    × ((cancelled_row 500 pending_order).status ≡ OrderStatus.cancelled)
    × ((k : ℕ) → stock k db' ≡ plus (held k (items_of 1 busy_db.order_items)) (stock k busy_db))
cancel_pending_order-restores_example =
    cancel_pending_order-restores 500 "timeout" 1 busy_db pending_order found_pending refl

abbrev sweep : List ℕ × Db
sweep = cancel_stale_pending_orders 500 200 10 "timeout" busy_db

busy_db-IsKeyed : IsKeyed busy_db
unfolding find
busy_db-IsKeyed = (refl, (refl, tt))

cancel_stale_pending_orders-named_example :
    (length sweep.0 ≤ 10)
    × All
        (λ j.
          (o : Order) × (get_order busy_db j ≡ some o)
          × (is_cancellable o ≡ true)
          × (o.created_at ≤ 200)
          × (get_order sweep.1 j ≡ some (cancelled_row 500 o)))
        sweep.0
    × ((j : ℕ) → contains j sweep.0 ≡ false → get_order sweep.1 j ≡ get_order busy_db j)
cancel_stale_pending_orders-named_example =
    cancel_stale_pending_orders-named 500 200 10 "timeout" busy_db busy_db-IsKeyed
