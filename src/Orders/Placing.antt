-- ===== src/Orders/Placing.antt =====
-- The parts of `_create_order_internal` of app/services/orders.py behind the idempotency key: the
-- reservation, the discount of a coupon, the new rows and the answer.
use naicha_backend.Database.{Db, OrderResponse, Settings}
use naicha_backend.Exec.{Exec, Result, err, gets, modify, ok, pure, ◌>>=◌, ◌>>◌}
use naicha_backend.Loyalty.{use_coupon}
use naicha_backend.Models.{
  CouponType, OrderStatus, OrderType, PaymentStatus, coupon_type_tagged, order_status_tagged,
  order_type_tagged, payment_status_tagged, ◌is◌,
}
use naicha_backend.Models.Rows.{Coupon, Order, OrderItem, User}
use naicha_backend.Money.{cents, quantize_currency}
use naicha_backend.Orders.Access.{build_order_response, get_order, items_of}
use naicha_backend.Orders.Errors.{
  CreateRequest, OrderError, coupon_error, coupon_unusable, only_pickup_scheduled, reservation,
  service_error, validation,
}
use naicha_backend.Orders.Idempotency.{Waiting, update_key}
use naicha_backend.Orders.Lines.{DraftItem, drafts_total}
use naicha_backend.Orders.Pricing.{active_coupon, min_price}
use naicha_backend.Prelude.{
  List, Option, String, [], if◌then◌else◌, is_some, length, map, max_ℤ, none, not, pos, some,
  sum_by, ℕ, ℤ, ◌++◌, ◌+◌, ◌-ℤ◌, ◌==◌, ◌∷◌,
}
use naicha_backend.Reservations.Plan.{ReservationPlan, Zone, plan}

-- What a request takes from outside: the clock, the random order number and pickup code, the hash of
-- the payload, the session's dialect, and the time zone of the shop.
pub record Context : Type 0 where
  pub now : ℕ
  pub order_number : String
  pub pickup_code : String
  pub payload_hash : String
  pub waiting : Waiting
  pub zone : Zone

-- The reservation of a scheduled order.
unfoldable pub plan_reservation :
    Settings → Context → CreateRequest → Exec Db OrderError (Option ReservationPlan)
plan_reservation settings c payload db = elim payload.scheduled_at [
  | none ↦ (ok none, db)
  | some at ↦
      if not (payload.order_type is OrderType.pickup)
      then (err (validation only_pickup_scheduled), db)
      else (let (r, db') = plan settings c.zone c.now at db in
          elim r [ err e ↦ (err (validation (reservation e)), db') | ok p ↦ (ok (some p), db') ])
]

abbrev cheapest : List DraftItem → Option ℤ
cheapest [] = none
cheapest (d ∷ ds) = some (min_price d.unit_price (map (λ d. d.unit_price) ds))

-- The coupon's effect on the total: only a free drink takes something off.
unfoldable pub discounted : Coupon → List DraftItem → ℤ → ℤ
discounted coupon drafts total =
    if coupon.type_tag is CouponType.free_any_drink
    then elim (cheapest drafts) [ none ↦ total | some p ↦ max_ℤ (pos 0) (total -ℤ p) ]
    else total

-- `if payload.coupon_id and user:` around the discount.
unfoldable pub apply_coupon : Option ℕ → Option User → List DraftItem → ℤ → Db → Result OrderError ℤ
unfolding discounted
apply_coupon coupon_id user drafts total db = elim coupon_id [
  | none ↦ ok total
  | some id ↦ elim user [
    | none ↦ ok total
    | some u ↦ if id == 0 then ok total else elim (active_coupon db id u.user_id) [
      | none ↦ err (validation coupon_unusable)
      | some coupon ↦ ok (discounted coupon drafts total)
    ]
  ]
]

-- `_build_order_entity` and the insert: the new row of `orders`.
unfoldable pub new_order :
    Context → CreateRequest → Option User → Option ReservationPlan → ℤ → Db → Order
new_order c payload user reservation_plan total db = record {
  order_id = db.next_order_id;
  order_number = c.order_number;
  user_id = elim user [ none ↦ none | some u ↦ some u.user_id ];
  guest_session_id = if is_some user then none else payload.guest_session_id;
  total_price = quantize_currency (cents total);
  notes = payload.notes;
  status = OrderStatus.pending_payment;
  order_type = payload.order_type;
  address = payload.address;
  payment_channel = none;
  payment_status = PaymentStatus.pending;
  is_scheduled = is_some reservation_plan;
  scheduled_at = elim reservation_plan [ none ↦ none | some p ↦ some p.scheduled_at_utc ];
  reminder_sent_at = none;
  pickup_code = some c.pickup_code;
  reservation_slot_id = elim reservation_plan [ none ↦ none | some p ↦ some p.slot_id ];
  coupon_id = payload.coupon_id;
  created_at = c.now;
  updated_at = c.now;
}

-- The rows of `order_items` for an order, with ids from the sequence.
unfoldable pub number_items : ℕ → ℕ → List DraftItem → List OrderItem
number_items order_id item_id [] = []
number_items order_id item_id (d ∷ ds) =
    record {
      item_id = item_id;
      order_id = order_id;
      product_id = some d.product_id;
      product_name = d.product_name;
      quantity = d.quantity;
      unit_price = d.unit_price;
      selected_specs = d.selected_specs;
    }
    ∷ number_items order_id (item_id + 1) ds

-- The two inserts.
unfoldable pub insert_order : Order → List DraftItem → Db → Db
unfolding number_items
insert_order order drafts db = record db {
  orders = db.orders ++ order ∷ [];
  next_order_id = db.next_order_id + 1;
  order_items = db.order_items ++ number_items order.order_id db.next_item_id drafts;
  next_item_id = db.next_item_id + length drafts;
}

-- `if payload.coupon_id and user:` around `use_coupon`, whose exceptions are no OrderServiceError.
unfoldable pub redeem_coupon : ℕ → Option ℕ → Option User → ℕ → Exec Db OrderError (Unit {0})
redeem_coupon now coupon_id user order_id db = elim coupon_id [
  | none ↦ (ok tt, db)
  | some id ↦ elim user [
    | none ↦ (ok tt, db)
    | some u ↦
        if id == 0
        then (ok tt, db)
        else (let (r, db') = use_coupon now id u.user_id order_id db in
            elim r [ err e ↦ (err (coupon_error e), db') | ok _ ↦ (ok tt, db') ])
  ]
]

-- The callback of the point of sale, on the id of the order that was made.
abbrev pub PostCreate : Type 0
PostCreate = ℕ → Exec Db OrderError (Unit {0})

-- The answer: from the row that was inserted, or from the rows as the callback left them.
unfoldable pub finish_order :
    ℕ → Option PostCreate → Order → List OrderItem → ℕ → Exec Db OrderError OrderResponse
finish_order now none order items count db = (ok (build_order_response now order items count), db)
finish_order now (some post_create) order items count db = elim (get_order db order.order_id) [
  | none ↦ (err service_error, db)
  | some _ ↦
      (let (r, db') = post_create order.order_id db in
        elim r [
          | err e ↦ (err e, db')
          | ok _ ↦ elim (get_order db' order.order_id) [
            | none ↦ (err service_error, db')
            | some o ↦ (
              ok (build_order_response now o (items_of order.order_id db'.order_items) count),
              db',
            )
          ]
        ])
]

-- `idempotency_record.response_snapshot = response_payload`
unfoldable pub keep_response : String → OrderResponse → Db → Db
keep_response k response db = record db {
  idempotency_keys =
      update_key k (λ r. record r { response_snapshot = some response }) db.idempotency_keys;
}

-- The part of `_create_order_internal` behind the loop over the items.
unfoldable pub place_order :
    Context
    → CreateRequest
    → String
    → Option User
    → Option PostCreate
    → Option ReservationPlan
    → List DraftItem
    → Exec Db OrderError OrderResponse
place_order c payload k user post_create reservation_plan drafts = do
  total ← λ db. (apply_coupon payload.coupon_id user drafts (drafts_total drafts) db, db)
  order ← gets (new_order c payload user reservation_plan total)
  item_id ← gets (λ db. db.next_item_id)
  modify (insert_order order drafts)
  redeem_coupon c.now payload.coupon_id user order.order_id
  response ←
      finish_order c.now post_create order (number_items order.order_id item_id drafts)
        (sum_by (λ i. i.quantity) payload.items)
  modify (keep_response k response)
  pure response
