-- ===== src/Orders/Create/Placed.antt =====
-- The order that `create_order` makes, where it returns: its row, its items, and the stock.
use naicha_backend.Database.{Db, OrderResponse}
use naicha_backend.Exec.{Result-cases, ok}
use naicha_backend.Loyalty.{use_coupon}
use naicha_backend.Models.Rows.{Order, User}
use naicha_backend.Orders.Access.{build_order_response}
use naicha_backend.Orders.Create.Frame.{OnlySlots}
use naicha_backend.Orders.Errors.{CreateRequest}
use naicha_backend.Orders.Idempotency.{update_key}
use naicha_backend.Orders.Lines.{DraftItem, drafts_total}
use naicha_backend.Orders.Placing.{
  Context, apply_coupon, finish_order, insert_order, keep_response, new_order, number_items,
  place_order, redeem_coupon,
}
use naicha_backend.Prelude.{
  List, Option, String, [], arith, inl, inr, none, refl, some, sum_by, ℕ, ℤ, ◌++◌, ◌∷◌, ◌≡◌,
}
use naicha_backend.Reservations.Plan.{ReservationPlan}

redeem_coupon-keeps :
    (now : ℕ) (coupon_id : Option ℕ) (user : Option User) (order_id : ℕ) (db : Db)
    → OnlySlots db (redeem_coupon now coupon_id user order_id db).1
unfolding redeem_coupon use_coupon
redeem_coupon-keeps now coupon_id user order_id db = ground arith

-- What `place_order` has done when it returns, with no callback.
pub record Placed (c : Context) (payload : CreateRequest) (k : String) (user : Option User)
    (reservation_plan : Option ReservationPlan) (drafts : List DraftItem) (before after : Db)
    (response : OrderResponse) : Type 0 where
  pub total : ℤ
  pub order : Order
  pub priced : apply_coupon payload.coupon_id user drafts (drafts_total drafts) before ≡ ok total
  pub order_is : order ≡ new_order c payload user reservation_plan total before
  pub orders : after.orders ≡ before.orders ++ order ∷ []
  pub order_items :
      after.order_items
      ≡ before.order_items ++ number_items before.next_order_id before.next_item_id drafts
  pub products : after.products ≡ before.products
  pub answer :
      response
      ≡ build_order_response c.now order
          (number_items before.next_order_id before.next_item_id drafts)
          (sum_by (λ i. i.quantity) payload.items)
  pub keys :
      after.idempotency_keys
      ≡ update_key k (λ r. record r { response_snapshot = some response }) before.idempotency_keys

pub place_order-Placed :
    (c : Context) (payload : CreateRequest) (k : String) (user : Option User)
    (reservation_plan : Option ReservationPlan) (drafts : List DraftItem) (db db' : Db)
    (response : OrderResponse)
    → place_order c payload k user none reservation_plan drafts db ≡ (ok response, db')
    → Placed c payload k user reservation_plan drafts db db' response
unfolding place_order finish_order insert_order keep_response new_order
place_order-Placed c payload k user reservation_plan drafts db db' response e =
    elim (Result-cases (apply_coupon payload.coupon_id user drafts (drafts_total drafts) db)) [
      | inl (x, refused) ↦ absurd (ground arith)
      | inr (total, priced) ↦
          (let order = new_order c payload user reservation_plan total db in
            let inserted = insert_order order drafts db in
            let kept = redeem_coupon-keeps c.now payload.coupon_id user order.order_id inserted in
            record {
              total = total;
              order = order;
              priced = priced;
              order_is = refl;
              orders = ground (arith, kept);
              order_items = ground (arith, kept);
              products = ground (arith, kept);
              answer = ground (arith, kept);
              keys = ground (arith, kept);
            })
    ]
