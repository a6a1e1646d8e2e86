-- ===== src/Orders/Guarantees.antt =====
-- What `create_order` and `cancel_pending_order` promise together.
use naicha_backend.Database.{Db, OrderResponse, Settings}
use naicha_backend.Exec.{Result-cases, err, ok}
use naicha_backend.Inventory.Count.{held, stock}
use naicha_backend.Inventory.Restore.{plus}
use naicha_backend.Models.Rows.{Order, User}
use naicha_backend.Notifier.{run}
use naicha_backend.Orders.Access.{get_order, items_of}
use naicha_backend.Orders.Cancel.{cancel_pending_order, is_cancellable}
use naicha_backend.Orders.Cancel.Effect.{cancel_pending_order-restores}
use naicha_backend.Orders.Create.{Transaction, check_guest, create_order, rolled_back}
use naicha_backend.Orders.Create.Frame.{
  create_lines-keeps, ensure_idempotency-keeps, plan_reservation-OnlySlots,
}
use naicha_backend.Orders.Create.Made.{
  IsFresh, get_order-created, items_of-created, placed, result_id, result_total, row, row_pending,
  stock-created,
}
use naicha_backend.Orders.Create.Run.{Created, create_order-run, create_order_internal-replay}
use naicha_backend.Orders.Errors.{CreateRequest, OrderError}
use naicha_backend.Orders.Idempotency.{ensure_idempotency, find_key, idempotency_ttl}
use naicha_backend.Orders.Idempotency.Replay.{
  IsAnswer, IsAnswer-keep, IsAnswer-replay, ensure_idempotency-IsClaim, unknown_key,
}
use naicha_backend.Orders.Lines.Stock.{ordered}
use naicha_backend.Orders.Placing.{Context}
use naicha_backend.Prelude.{
  Option, String, ap, arith, inl, inr, none, some, true, ℕ, ◌+◌, ◌-◌, ◌<◌, ◌∙◌, ◌≡◌, ◌≤◌,
}

module _ (settings : Settings) (c : Context) (transaction : Transaction) (payload : CreateRequest)
    (k : String) (user : Option User) (db db' : Db) (result : OrderResponse)
    (unknown : find_key k db.idempotency_keys ≡ none)
    (returned : create_order settings c transaction payload k user none db ≡ (ok result, db')) where
  created : Created settings c payload k user db db' result
  created = elim (create_order-run settings c payload k user db db' result transaction returned) [
    | inl run ↦ run
    | inr replay ↦ absurd (
        ground (
          arith,
          unknown_key c.waiting c.now k c.payload_hash db db' (some result) unknown replay.claims,
        ))
  ]

  -- A call of `create_order` without a `post_create` callback (as a customer makes it, not the point of
  -- sale), with a new key and in a session whose ids are fresh, that returns has made one order: its row
  -- is pending in both columns and has the id and the total of the answer. The stock of a product,
  -- where it is counted, covered what the request asks for and is less by that.
  pub create_order-takes_stock :
      (j n : ℕ)
      → IsFresh db
      → stock j db ≡ some n
      → (order : Order) × (get_order db' result.order_id ≡ some order)
        × (is_cancellable order ≡ true)
        × (order.total_price ≡ result.total_price)
        × (ordered j payload.items ≤ n)
        × (stock j db' ≡ some (n - ordered j payload.items))
  create_order-takes_stock j n fresh counted =
      let id = result_id settings c payload k user db db' result created in
      let left = stock-created settings c payload k user db db' result created j n counted in
      (
        row settings c payload k user db db' result created,
        ap (get_order db') id
            ∙ get_order-created settings c payload k user db db' result created fresh,
        row_pending settings c payload k user db db' result created,
        result_total settings c payload k user db db' result created,
        left.0,
        left.1,
      )

  -- The cancellation of the order that `create_order` has just made without a `post_create` callback,
  -- with a new key and in a session whose ids are fresh, succeeds at any later time and brings the stock
  -- of a product, where it is counted, back to what it was before the creation.
  pub create_cancel :
      (later : ℕ) (reason : String) (j n : ℕ)
      → IsFresh db
      → stock j db ≡ some n
      → let (success, undone) = cancel_pending_order later reason result.order_id db' in
        (success ≡ true) × (stock j undone ≡ some n)
  create_cancel later reason j n fresh h =
      let id = result_id settings c payload k user db db' result created in
      let order = row settings c payload k user db db' result created in
      let found : get_order db' result.order_id ≡ some order =
        ap (get_order db') id
        ∙ get_order-created settings c payload k user db db' result created fresh in
      let (success, _, _, restored) =
        cancel_pending_order-restores later reason result.order_id db' order found
          (row_pending settings c payload k user db db' result created) in
      let (enough, left) = stock-created settings c payload k user db db' result created j n h in
      let items = items_of-created settings c payload k user db db' result created j fresh in
      let back : (n - ordered j payload.items) + ordered j payload.items ≡ n =
        omega (arith, enough) in
      (
        success,
        restored j
            ∙ ap (λ i. plus (held j (items_of i db'.order_items)) (stock j db')) id
            ∙ ap (λ h. plus h (stock j db')) items
            ∙ ap (plus (ordered j payload.items)) left
            ∙ ap some back,
      )

  kept-IsAnswer : IsAnswer k c.payload_hash result db'.idempotency_keys
  kept-IsAnswer =
      let made = placed settings c payload k user db db' result created in
      let claim =
        ensure_idempotency-IsClaim c.waiting c.now k c.payload_hash db created.claimed none
          created.claims in
      let plans = plan_reservation-OnlySlots settings c payload created.claimed in
      let planned : created.planned.idempotency_keys ≡ created.claimed.idempotency_keys =
        rw created.plans at (plans.2) in
      let takes =
        create_lines-keeps payload.items created.planned created.taken created.drafts
          created.takes in
      let same : created.taken.idempotency_keys ≡ created.claimed.idempotency_keys =
        takes.1 ∙ planned in
      rw (made.keys, same)
        (IsAnswer-keep k c.payload_hash result created.claimed.idempotency_keys claim)

  -- The same request with the same key, sent once more within the 24 hours that a key lives, gets the
  -- same answer, whatever its random numbers and the settings are by then, while its guest session, if
  -- it names one, is valid; no order, item or product changes. The key was new the first time, and both
  -- calls are without a `post_create` callback.
  pub create_order_again :
      (settings' : Settings) (c' : Context) (transaction' : Transaction)
      → c'.payload_hash ≡ c.payload_hash
      → c'.now ≤ c.now + idempotency_ttl
      → check_guest c'.now payload.guest_session_id db' ≡ ok tt
      → let (answer, again) = create_order settings' c' transaction' payload k user none db' in
        (answer ≡ ok result)
        × (again.orders ≡ db'.orders)
        × (again.order_items ≡ db'.order_items)
        × (again.products ≡ db'.products)
  unfolding create_order
  create_order_again settings' c' transaction' same_hash in_time guest =
      let kept = kept-IsAnswer in
      let replayed : (ensure_idempotency c'.waiting c'.now k c'.payload_hash db').0
          ≡ ok (some result) =
        rw same_hash (IsAnswer-replay c'.waiting c'.now k c.payload_hash db' result kept) in
      let (unchanged, same_products) =
        ensure_idempotency-keeps c'.waiting c'.now k c'.payload_hash db' in
      let again =
        create_order_internal-replay settings' c' payload k user db' result guest replayed in
      ground (arith, returned, again, unchanged, same_products)

create_order-err :
    (settings : Settings) (c : Context) (payload : CreateRequest) (k : String) (user : Option User)
    (db : Db) (e : OrderError)
    → (create_order settings c Transaction.not_begun payload k user none db).0 ≡ err e
    → create_order settings c Transaction.not_begun payload k user none db ≡ (err e, db)
unfolding create_order rolled_back
create_order-err settings c payload k user db e failed = ground arith

-- A request with a new key that asks, over all its lines together, for more of a product than its
-- counted stock is refused with an error, and the transaction that `create_order` began is rolled
-- back: every row is as it was.
pub create_order-oversold :
    (settings : Settings) (c : Context) (payload : CreateRequest) (k : String) (user : Option User)
    (db : Db) (j n : ℕ)
    → find_key k db.idempotency_keys ≡ none
    → stock j db ≡ some n
    → n < ordered j payload.items
    → (e : OrderError) × (create_order settings c Transaction.not_begun payload k user none db
        ≡ (err e, db))
create_order-oversold settings c payload k user db j n unknown counted short =
    let (r, db') = create_order settings c Transaction.not_begun payload k user none db in
    elim (Result-cases r) [
      | inl (e, failed) ↦ (e, create_order-err settings c payload k user db e failed)
      | inr (result, returned) ↦
          (let run =
              created settings c Transaction.not_begun payload k user db db' result unknown
                (ground (arith, returned)) in
            absurd (
              ground
                (arith, (stock-created settings c payload k user db db' result run j n counted).0)))
    ]
