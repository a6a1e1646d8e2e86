-- ===== src/Orders/Cancel/Effect.antt =====
-- What the cancellation of a pending order does to the order, to the other orders and to the stock.
use naicha_backend.Database.{Db}
use naicha_backend.Inventory.{restore_from_order_items}
use naicha_backend.Inventory.Count.{held, stock}
use naicha_backend.Inventory.Restore.{plus, stock-restore_from_order_items}
use naicha_backend.Models.{OrderStatus}
use naicha_backend.Models.Rows.{Order}
use naicha_backend.Orders.Access.{get_order, items_of}
use naicha_backend.Orders.Cancel.{
  cancel_order, cancel_pending_order, clear_slot, free_slot, is_cancellable, set_cancelled,
  write_cancellation,
}
use naicha_backend.Orders.Errors.{truthy}
use naicha_backend.Prelude.{
  Bool-cases, Option, Option-cases, String, ap, arith, false, if◌then◌else◌, inl, inr, none, refl,
  some, true, ℕ, ◌&&◌, ◌==◌, ◌∙◌, ◌≡◌,
}
use naicha_backend.Reservations.Slots.{release_slot}
use naicha_backend.Table.{find-update, key-find, map_some}

-- The row as a cancellation leaves it.
abbrev pub cancelled_row : ℕ → Order → Order
cancelled_row now o =
    if truthy o.reservation_slot_id then clear_slot (set_cancelled now o) else set_cancelled now o

orders-release_slot :
    (now : ℕ) (slot : Option ℕ) (db : Db) → (release_slot now slot db).orders ≡ db.orders
unfolding release_slot
orders-release_slot now none db = refl
orders-release_slot now (some slot) db = ground arith

products-release_slot :
    (now : ℕ) (slot : Option ℕ) (db : Db) → (release_slot now slot db).products ≡ db.products
unfolding release_slot
products-release_slot now none db = refl
products-release_slot now (some slot) db = ground arith

get_order-write_cancellation :
    (now : ℕ) (reason : String) (order : Order) (db : Db) (j : ℕ)
    → get_order db order.order_id ≡ some order
    → get_order (write_cancellation now reason order db) j
      ≡ (if order.order_id == j then some (set_cancelled now order) else get_order db j)
unfolding write_cancellation restore_from_order_items
get_order-write_cancellation now reason order db j found = ground (
  arith,
  find-update (λ (o : Order). o.order_id) order.order_id j (set_cancelled now) db.orders
      (λ o. refl),
)

get_order-free_slot :
    (now : ℕ) (order : Order) (db : Db) (j : ℕ)
    → get_order (free_slot now order db) j ≡ (
        if truthy order.reservation_slot_id && order.order_id == j
        then map_some clear_slot (get_order db j)
        else get_order db j)
unfolding free_slot
get_order-free_slot now order db j = ground (
  arith,
  orders-release_slot now order.reservation_slot_id db,
  find-update (λ (o : Order). o.order_id) order.order_id j clear_slot db.orders (λ o. refl),
)

pub get_order-cancel_order :
    (now : ℕ) (reason : String) (order : Order) (db : Db) (j : ℕ)
    → get_order db order.order_id ≡ some order
    → get_order (cancel_order now reason order db) j
      ≡ (if order.order_id == j then some (cancelled_row now order) else get_order db j)
unfolding cancel_order
get_order-cancel_order now reason order db j found = ground (
  arith,
  get_order-free_slot now order (write_cancellation now reason order db) j,
  get_order-write_cancellation now reason order db j,
)

stock-cancel_order :
    (now : ℕ) (reason : String) (order : Order) (db : Db) (k : ℕ)
    → stock k (cancel_order now reason order db)
      ≡ plus (held k (items_of order.order_id db.order_items)) (stock k db)
unfolding cancel_order free_slot write_cancellation
stock-cancel_order now reason order db k = ground (
  arith,
  products-release_slot now order.reservation_slot_id (write_cancellation now reason order db),
  stock-restore_from_order_items now (items_of order.order_id db.order_items) db k,
)

pub key_of_order :
    (id : ℕ) (db : Db) (order : Order) → get_order db id ≡ some order → order.order_id ≡ id
key_of_order id db order found = key-find (λ (o : Order). o.order_id) id db.orders found

module _ (now : ℕ) (reason : String) (id : ℕ) (db : Db) (order : Order)
    (found : get_order db id ≡ some order) where
  cancel_pending_order-yes :
      is_cancellable order ≡ true
      → cancel_pending_order now reason id db ≡ (true, cancel_order now reason order db)
  unfolding cancel_pending_order
  cancel_pending_order-yes pending = ground arith

  pub cancel_pending_order-no :
      is_cancellable order ≡ false → cancel_pending_order now reason id db ≡ (false, db)
  unfolding cancel_pending_order
  cancel_pending_order-no other = ground arith

  -- The cancellation of an order that is pending in both columns succeeds. It changes the row of that
  -- order to cancelled, keeps every other order, and gives back to every counted stock what the
  -- items of the order hold of it.
  pub cancel_pending_order-restores :
      is_cancellable order ≡ true
      → let (success, db') = cancel_pending_order now reason id db in
        (success ≡ true)
        × ((j : ℕ)
            → get_order db' j
              ≡ (if id == j then some (cancelled_row now order) else get_order db j))
        × ((cancelled_row now order).status ≡ OrderStatus.cancelled)
        × ((k : ℕ) → stock k db' ≡ plus (held k (items_of id db.order_items)) (stock k db))
  cancel_pending_order-restores pending =
      let key = key_of_order id db order found in
      rw (cancel_pending_order-yes pending) (
        refl,
        λ j. ground (arith, key, get_order-cancel_order now reason order db j),
        ground arith,
        λ k.
            stock-cancel_order now reason order db k
            ∙ ap (λ n. plus (held k (items_of n db.order_items)) (stock k db)) key,
      )

pub cancel_pending_order-absent :
    (now : ℕ) (reason : String) (id : ℕ) (db : Db)
    → get_order db id ≡ none
    → cancel_pending_order now reason id db ≡ (false, db)
unfolding cancel_pending_order
cancel_pending_order-absent now reason id db absent = ground arith

pub cancelled_row_final : (now : ℕ) (o : Order) → is_cancellable (cancelled_row now o) ≡ false
cancelled_row_final now o = ground arith

get_order_self :
    (now : ℕ) (reason : String) (id : ℕ) (db : Db) (order : Order)
    → get_order db id ≡ some order
    → get_order (cancel_order now reason order db) id ≡ some (cancelled_row now order)
get_order_self now reason id db order found =
    ground (arith, key_of_order id db order found, get_order-cancel_order now reason order db id)

-- A second cancellation of the same order is refused and changes nothing, whenever it comes.
pub cancel_twice :
    (now later : ℕ) (reason reason' : String) (id : ℕ) (db : Db)
    → let db' = (cancel_pending_order now reason id db).1 in
      cancel_pending_order later reason' id db' ≡ (false, db')
cancel_twice now later reason reason' id db = elim (Option-cases (get_order db id)) [
  | inl absent ↦
      rw (cancel_pending_order-absent now reason id db absent)
        (cancel_pending_order-absent later reason' id db absent)
  | inr (order, found) ↦ elim (Bool-cases (is_cancellable order)) [
    | inl pending ↦ rw (cancel_pending_order-yes now reason id db order found pending) (
        cancel_pending_order-no later reason' id (cancel_order now reason order db)
          (cancelled_row now order) (get_order_self now reason id db order found)
          (cancelled_row_final now order))
    | inr other ↦
        rw (cancel_pending_order-no now reason id db order found other)
          (cancel_pending_order-no later reason' id db order found other)
  ]
]
