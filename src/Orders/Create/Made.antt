-- ===== src/Orders/Create/Made.antt =====
-- The state that a call of `create_order` leaves when it has made an order.
use naicha_backend.Database.{Db, OrderResponse, Settings}
use naicha_backend.Inventory.Count.{held, stock, stock_in}
use naicha_backend.Models.Rows.{Order, User}
use naicha_backend.Orders.Access.{build_order_response, get_order, items_of}
use naicha_backend.Orders.Cancel.{is_cancellable}
use naicha_backend.Orders.Create.Frame.{
  KeepsOrders, KeepsOrders-trans, create_lines-keeps, ensure_idempotency-keeps,
  plan_reservation-OnlySlots,
}
use naicha_backend.Orders.Create.Items.{held-create_lines, items_of-append}
use naicha_backend.Orders.Create.Placed.{Placed, place_order-Placed}
use naicha_backend.Orders.Create.Run.{Created}
use naicha_backend.Orders.Errors.{CreateRequest}
use naicha_backend.Orders.Lines.Stock.{create_lines-takes_stock, ordered}
use naicha_backend.Orders.Placing.{Context, new_order, number_items}
use naicha_backend.Prelude.{
  Option, String, [], ap, arith, none, refl, some, sym, true, ℕ, ◌++◌, ◌-◌, ◌∙◌, ◌≡◌, ◌≤◌,
}
use naicha_backend.Table.{find-append}

-- No row has the next id of the sequence yet.
pub record IsFresh (db : Db) : Type 0 where
  pub no_order : get_order db db.next_order_id ≡ none
  pub no_items : items_of db.next_order_id db.order_items ≡ []

module _ (settings : Settings) (c : Context) (payload : CreateRequest) (k : String)
    (user : Option User) (db db' : Db) (result : OrderResponse)
    (run : Created settings c payload k user db db' result) where
  pub placed : Placed c payload k user run.reservation_plan run.drafts run.taken db' result
  placed =
      place_order-Placed c payload k user run.reservation_plan run.drafts run.taken db' result
        run.places

  keeps_until_taken : KeepsOrders db run.taken
  keeps_until_taken =
      let claims = ensure_idempotency-keeps c.waiting c.now k c.payload_hash db in
      let plans = plan_reservation-OnlySlots settings c payload run.claimed in
      let takes = create_lines-keeps payload.items run.planned run.taken run.drafts run.takes in
      KeepsOrders-trans
        (KeepsOrders-trans (rw run.claims at (claims.0)) (rw run.plans at (plans.0))) takes.0

  products_until_planned : run.planned.products ≡ db.products
  products_until_planned =
      let claims = ensure_idempotency-keeps c.waiting c.now k c.payload_hash db in
      let plans = plan_reservation-OnlySlots settings c payload run.claimed in
      (rw run.plans at (plans.1)) ∙ (rw run.claims at (claims.1))

  -- The row of the new order.
  pub row : Order
  row = new_order c payload user run.reservation_plan placed.total run.taken

  pub row_id : row.order_id ≡ db.next_order_id
  unfolding row new_order
  row_id = keeps_until_taken.next_order_id

  pub row_pending : is_cancellable row ≡ true
  unfolding row new_order
  row_pending = refl

  pub result_id : result.order_id ≡ db.next_order_id
  unfolding build_order_response row
  result_id =
      ap (λ (r : OrderResponse). r.order_id) placed.answer
      ∙ ap (λ (o : Order). o.order_id) placed.order_is
      ∙ row_id

  pub result_total : row.total_price ≡ result.total_price
  unfolding build_order_response row
  result_total =
      ap (λ (o : Order). o.total_price) (sym placed.order_is)
      ∙ sym (ap (λ (r : OrderResponse). r.total_price) placed.answer)

  pub get_order-created : IsFresh db → get_order db' db.next_order_id ≡ some row
  unfolding row
  get_order-created fresh =
      let kept = keeps_until_taken in
      let before : get_order run.taken db.next_order_id ≡ none = rw kept.orders fresh.no_order in
      let added = find-append (λ (o : Order). o.order_id) db.next_order_id run.taken.orders row in
      ground (arith, placed.orders, placed.order_is, added, before, row_id)

  pub items_of-created :
      (j : ℕ)
      → IsFresh db
      → held j (items_of db.next_order_id db'.order_items) ≡ ordered j payload.items
  items_of-created j fresh =
      let kept = keeps_until_taken in
      let items = number_items run.taken.next_order_id run.taken.next_item_id run.drafts in
      let old : items_of run.taken.next_order_id run.taken.order_items ≡ [] =
        rw (kept.next_order_id, kept.order_items) fresh.no_items in
      let all =
        items_of-append run.taken.next_order_id run.taken.next_item_id run.taken.order_items
          run.drafts old in
      ap (λ l. held j (items_of db.next_order_id l)) placed.order_items
      ∙ ap (λ n. held j (items_of n (run.taken.order_items ++ items))) (sym kept.next_order_id)
      ∙ ap (held j) all
      ∙ held-create_lines j run.taken.next_order_id run.taken.next_item_id payload.items run.planned
          run.taken run.drafts run.takes

  pub stock-created :
      (j n : ℕ)
      → stock j db ≡ some n
      → (ordered j payload.items ≤ n) × (stock j db' ≡ some (n - ordered j payload.items))
  stock-created j n h =
      let (enough, left) =
        create_lines-takes_stock payload.items run.planned run.taken run.drafts j n run.takes
          (ap (λ ps. stock_in ps j) products_until_planned ∙ h) in
      (enough, ap (λ ps. stock_in ps j) placed.products ∙ left)
