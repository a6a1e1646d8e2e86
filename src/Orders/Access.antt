-- ===== src/Orders/Access.antt =====
-- `_ensure_order_access`, `_ensure_order_pending` and the methods that only read an order.
use naicha_backend.Database.{Db, OrderResponse}
use naicha_backend.Exec.{Result, bind, err, ok}
use naicha_backend.Models.{OrderStatus, order_status_tagged, ◌is◌}
use naicha_backend.Models.Rows.{Order, OrderItem, User}
use naicha_backend.Orders.Errors.{
  OrderError, guest_mismatch, not_owner, not_pending, order_not_found,
}
use naicha_backend.Orders.Pricing.Eta.{estimate_eta_minutes, format_eta_text}
use naicha_backend.Prelude.{
  Bool, List, Option, String, drop, false, if◌then◌else◌, map, none, not, select, some, sort_by,
  str_eq, sum_by, take, ℕ, ◌&&◌, ◌-◌, ◌==◌,
}
use naicha_backend.Table.{find}

-- `not guest_session_id or order.guest_session_id != guest_session_id`, the other way round.
abbrev same_guest : Option String → Option String → Bool
same_guest none given = false
same_guest (some g) none = false
same_guest (some g) (some given) = not (str_eq given "") && str_eq g given

unfoldable pub ensure_order_access :
    Order → Option User → Option String → Result OrderError (Unit {0})
ensure_order_access order (some actor) guest =
    if elim order.user_id [ none ↦ false | some u ↦ u == actor.user_id ]
    then ok tt
    else err not_owner
ensure_order_access order none guest =
    if same_guest order.guest_session_id guest then ok tt else err guest_mismatch

unfoldable pub ensure_order_pending : Order → Result OrderError (Unit {0})
ensure_order_pending order =
    if order.status is OrderStatus.pending_payment then ok tt else err not_pending

abbrev pub get_order : Db → ℕ → Option Order
get_order db order_id = find (λ o. o.order_id) order_id db.orders

-- The guards of `initiate_wechat_jsapi_payment` and `initiate_wechat_native_payment`, and the order
-- for which they make out the payment.
unfoldable pub initiate_payment : Db → ℕ → Option User → Option String → Result OrderError Order
unfolding ensure_order_access ensure_order_pending
initiate_payment db order_id actor guest = elim (get_order db order_id) [
  | none ↦ err order_not_found
  | some order ↦
      bind (ensure_order_access order actor guest)
        λ _. bind (ensure_order_pending order) λ _. ok order
]

abbrev pub items_of : ℕ → List OrderItem → List OrderItem
items_of order_id = select (λ i. i.order_id == order_id)

-- `_estimate_eta_for_order`, `_build_order_response` and `_build_order_response_from_row`. An item
-- count of zero falls back on the sum over the items.
unfoldable pub build_order_response : ℕ → Order → List OrderItem → ℕ → OrderResponse
build_order_response now order items count_override =
    let count = if count_override == 0 then sum_by (λ i. i.quantity) items else count_override in
    let eta =
      estimate_eta_minutes now order.order_type count order.is_scheduled order.scheduled_at in
    record {
      order_id = order.order_id;
      order_number = order.order_number;
      status = order.status;
      order_type = order.order_type;
      total_price = order.total_price;
      created_at = order.created_at;
      is_scheduled = order.is_scheduled;
      scheduled_at = order.scheduled_at;
      reminder_sent_at = order.reminder_sent_at;
      eta_minutes = eta;
      eta_text = format_eta_text eta (if order.is_scheduled then order.scheduled_at else none);
      pickup_code = order.pickup_code;
      items = items;
    }

-- `get_order_detail`
unfoldable pub get_order_detail :
    Db → ℕ → ℕ → Option User → Option String → Result OrderError OrderResponse
unfolding ensure_order_access build_order_response
get_order_detail db now order_id actor guest = elim (get_order db order_id) [
  | none ↦ err order_not_found
  | some order ↦
      bind (ensure_order_access order actor guest)
        λ _. ok (build_order_response now order (items_of order.order_id db.order_items) 0)
]

abbrev belongs_to : ℕ → Order → Bool
belongs_to user_id o = elim o.user_id [ none ↦ false | some u ↦ u == user_id ]

-- `list_orders`: newest first, so sorted by the time left until the end of time `horizon`.
unfoldable pub list_orders : Db → ℕ → ℕ → User → ℕ → ℕ → List OrderResponse
unfolding build_order_response
list_orders db now horizon actor limit offset =
    let mine = select (belongs_to actor.user_id) db.orders in
    let newest_first = sort_by (λ o. horizon - o.created_at) mine in
    map (λ o. build_order_response now o (items_of o.order_id db.order_items) 0)
      (take limit (drop offset newest_first))
