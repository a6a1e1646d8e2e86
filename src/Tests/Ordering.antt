-- ===== src/Tests/Ordering.antt =====
-- A user orders milk tea.
use naicha_backend.Database.{Db, OrderResponse, about_minutes}
use naicha_backend.Exec.{Result, err, ok}
use naicha_backend.Inventory.Count.{stock}
use naicha_backend.Models.{OrderStatus, OrderType}
use naicha_backend.Models.Rows.{Order}
use naicha_backend.Money.{quantize_currency}
use naicha_backend.Orders.Access.{build_order_response, get_order}
use naicha_backend.Orders.Cancel.{cancel_pending_order, is_cancellable}
use naicha_backend.Orders.Create.{
  Transaction, check_guest, check_request, create_order, create_order_internal, proceed,
}
use naicha_backend.Orders.Create.Made.{IsFresh}
use naicha_backend.Orders.Errors.{CreateRequest, OrderError}
use naicha_backend.Orders.Guarantees.{
  create_cancel, create_order-oversold, create_order-takes_stock, create_order_again,
}
use naicha_backend.Orders.Idempotency.{ensure_idempotency, find_key, update_key}
use naicha_backend.Orders.Lines.{
  DraftItem, create_line, create_lines, deduct, drafts_total, take_stock,
}
use naicha_backend.Orders.Lines.Price.{create_lines-price}
use naicha_backend.Orders.Placing.{
  Context, apply_coupon, finish_order, insert_order, keep_response, new_order, number_items,
  place_order, plan_reservation, redeem_coupon,
}
use naicha_backend.Orders.Preview.{PriceLine, price_line, price_lines, sum_lines}
use naicha_backend.Orders.Pricing.{calculate_unit_price, pick_spec_options}
use naicha_backend.Orders.Pricing.Eta.{estimate_eta_minutes, format_eta_text}
use naicha_backend.Prelude.{
  List, [], arith, false, map, none, pos, refl, some, times, true, ℕ, ◌+ℤ◌, ◌-ℤ◌, ◌∷◌, ◌≡◌, ◌≤◌,
}
use naicha_backend.Table.{find, update}
use naicha_backend.Tests.Data.{ann, empty_db, shop_settings, utc}

abbrev context : Context
context = record {
  now = 1000;
  payload_hash = "h";
  order_number = "NC9";
  pickup_code = "042";
  waiting = record { is_sqlite = false; awaited = none };
  zone = utc;
}

abbrev later_context : Context
later_context = record context { now = 5000; order_number = "NC10"; pickup_code = "043" }

abbrev teas : ℕ → ℕ → CreateRequest
teas a b = record {
  items =
      record { product_id = 1; quantity = a; spec_option_ids = [] }
      ∷ record { product_id = 1; quantity = b; spec_option_ids = [] }
      ∷ [];
  order_type = OrderType.pickup;
  notes = none;
  guest_session_id = none;
  scheduled_at = none;
  address = none;
  coupon_id = none;
}

abbrev no_answer : OrderResponse
no_answer = record {
  order_id = 0;
  order_number = "";
  status = OrderStatus.cancelled;
  order_type = OrderType.pickup;
  total_price = pos 0;
  created_at = 0;
  is_scheduled = false;
  scheduled_at = none;
  reminder_sent_at = none;
  eta_minutes = 0;
  eta_text = about_minutes 0;
  pickup_code = none;
  items = [];
}

abbrev run : Result OrderError OrderResponse × Db
run =
    create_order shop_settings context Transaction.not_begun (teas 2 1) "k" (some ann) none empty_db

abbrev answer : OrderResponse
answer = elim run.0 [ ok r ↦ r | err e ↦ no_answer ]

run-ok : run ≡ (ok answer, run.1)
unfolding create_order check_request create_order_internal proceed check_guest ensure_idempotency
    find_key update_key plan_reservation create_lines create_line pick_spec_options
    calculate_unit_price quantize_currency take_stock deduct update find drafts_total place_order
    apply_coupon new_order number_items insert_order redeem_coupon finish_order build_order_response
    estimate_eta_minutes format_eta_text keep_response times ◌+ℤ◌ ◌-ℤ◌ price_line
run-ok = refl

abbrev lines : Result OrderError (List DraftItem) × Db
lines = create_lines (teas 2 1).items empty_db

abbrev drafts : List DraftItem
drafts = elim lines.0 [ ok ds ↦ ds | err e ↦ [] ]

abbrev priced : List PriceLine
priced = elim (price_lines empty_db (teas 2 1).items) [ ok ls ↦ ls | err e ↦ [] ]

lines-ok : lines ≡ (ok drafts, lines.1)
unfolding create_lines create_line pick_spec_options calculate_unit_price quantize_currency
    take_stock deduct update find times ◌+ℤ◌
lines-ok = refl

priced-ok : price_lines empty_db (teas 2 1).items ≡ ok priced
unfolding price_lines price_line pick_spec_options calculate_unit_price quantize_currency find times
    ◌+ℤ◌
priced-ok = refl

no_guest : check_guest later_context.now (teas 2 1).guest_session_id run.1 ≡ ok tt
unfolding check_guest
no_guest = refl

empty_db-IsFresh : IsFresh empty_db
unfolding find
empty_db-IsFresh = record { no_order = refl; no_items = refl }

new_key : find_key "k" empty_db.idempotency_keys ≡ none
unfolding find_key
new_key = refl

five_teas : stock 1 empty_db ≡ some 5
unfolding find
five_teas = refl

create_order-takes_stock_example :
    (order : Order) × (get_order run.1 answer.order_id ≡ some order)
    × (is_cancellable order ≡ true)
    × (order.total_price ≡ answer.total_price)
    × (3 ≤ 5)
    × (stock 1 run.1 ≡ some 2)
create_order-takes_stock_example =
    create_order-takes_stock shop_settings context Transaction.not_begun (teas 2 1) "k" (some ann)
      empty_db run.1 answer new_key run-ok 1 5 empty_db-IsFresh five_teas

create_cancel_example :
    let (success, undone) = cancel_pending_order 9000 "timeout" answer.order_id run.1 in
    (success ≡ true) × (stock 1 undone ≡ some 5)
create_cancel_example =
    create_cancel shop_settings context Transaction.not_begun (teas 2 1) "k" (some ann) empty_db
      run.1 answer new_key run-ok 9000 "timeout" 1 5 empty_db-IsFresh five_teas

create_order_again_example :
    let (again, db') =
      create_order shop_settings later_context Transaction.not_begun
        (teas 2 1)
        "k"
        (some ann)
        none
        run.1 in
    (again ≡ ok answer)
    × (db'.orders ≡ run.1.orders)
    × (db'.order_items ≡ run.1.order_items)
    × (db'.products ≡ run.1.products)
create_order_again_example =
    create_order_again shop_settings context Transaction.not_begun (teas 2 1) "k" (some ann)
      empty_db run.1 answer new_key run-ok shop_settings later_context Transaction.not_begun refl
      (omega arith) no_guest

create_order-oversold_example :
    (e : OrderError) × (create_order shop_settings context Transaction.not_begun
        (teas 4 4)
        "k"
        (some ann)
        none
        empty_db
      ≡ (err e, empty_db))
create_order-oversold_example =
    create_order-oversold shop_settings context (teas 4 4) "k" (some ann) empty_db 1 5 new_key
      five_teas (omega arith)

create_lines-price_example :
    (drafts_total drafts ≡ sum_lines priced)
    × (map (λ (d : DraftItem). d.unit_price) drafts ≡ map (λ (l : PriceLine). l.unit_price) priced)
create_lines-price_example =
    create_lines-price (teas 2 1).items empty_db lines.1 drafts priced lines-ok priced-ok
