-- ===== src/Tests/Paying.antt =====
-- The pending order is paid, by a notification and by a match.
use naicha_backend.Database.{Db}
use naicha_backend.Exec.{Result, ok}
use naicha_backend.Models.{
  OrderStatus, PaymentStatus, order_status_tagged, payment_status_tagged, ◌is◌,
}
use naicha_backend.Models.Rows.{Order, PaymentRecord}
use naicha_backend.Money.{cents, eq_decimal, quantize_currency, quantize_even}
use naicha_backend.Orders.Access.{get_order}
use naicha_backend.Payments.Acquire.{
  MatchError, MatchRequest, acquire_by_query, acquire_payment_record, eq_ℤ, record_fits,
}
use naicha_backend.Payments.Match.{
  Matched, check_order, choose_order, do_match, ensure_print_job, find_candidate_orders,
  match_payment, order_fits, record_match, set_paid,
}
use naicha_backend.Payments.Match.Acquired.{by_id}
use naicha_backend.Payments.Match.Pays.{match_payment-pays}
use naicha_backend.Payments.Notify.{
  Dispatch, Notification, PaymentError, Surroundings, ensure_amount_matches,
  handle_wechat_notification, insert_record, mark_paid, notify, prepare_job, same_text, settle,
  upsert_job, verify_signature,
}
use naicha_backend.Payments.Notify.Again.{handle_wechat_notification-again}
use naicha_backend.Payments.Notify.Pays.{handle_wechat_notification-pays}
use naicha_backend.Payments.Records.{find_order_number, find_txn, job_of}
use naicha_backend.Prelude.{
  [], arith, false, if◌then◌else◌, insert_by, is_some, none, pos, refl, some, sort_by, subst, times,
  true, ℕ, ◌==◌, ◌∷◌, ◌≡◌, ◌⊎◌,
}
use naicha_backend.Table.{find, map_some, update}
use naicha_backend.Tests.Data.{busy_db, pending_order, shop_settings}

abbrev pub surroundings : ℕ → Surroundings
surroundings t = record { now = t; expected_signature = "ab12"; raced_job = none; is_stale = false }

abbrev pub notification : Notification
notification = record {
  order_number = "NC1";
  transaction_id = "tx1";
  amount = record { coeff = pos 30; places = 0 };
  currency = "CNY";
  channel = "wechat";
  paid_at = 700;
}

abbrev pub notified : Result PaymentError Dispatch × Db
notified = handle_wechat_notification (surroundings 800) notification "AB12" busy_db

abbrev pub dispatched : Dispatch
dispatched = record { print_job = some 1; side_effects = some 1 }

pub notified-ok : notified ≡ (ok dispatched, notified.1)
unfolding handle_wechat_notification notify verify_signature same_text find_order_number
    ensure_amount_matches eq_decimal settle mark_paid insert_record prepare_job upsert_job update
    find find_txn times quantize_currency
notified-ok = refl

handle_wechat_notification-pays_example :
    (order : Order) × (find_order_number "NC1" busy_db.orders ≡ some order)
    × (eq_decimal (cents order.total_price) notification.amount ≡ true)
    × (notification.currency ≡ "CNY")
    × (verify_signature "ab12" "AB12" ≡ true)
    × ((j : ℕ)
        → get_order notified.1 j ≡ (
            if order.order_id == j
            then map_some (mark_paid 800 "wechat") (get_order busy_db j)
            else get_order busy_db j))
    × ((mark_paid 800 "wechat" order).status ≡ OrderStatus.paid)
    × ((mark_paid 800 "wechat" order).payment_status ≡ PaymentStatus.paid)
    × (is_some (find_txn "tx1" notified.1.payment_records) ≡ true)
    × (is_some (job_of order.order_id notified.1) ≡ true)
    × (dispatched.side_effects
        ≡ (if order.status is OrderStatus.paid then none else some order.order_id))
handle_wechat_notification-pays_example =
    handle_wechat_notification-pays (surroundings 800) notification "AB12" busy_db notified.1
      dispatched notified-ok

is_pending :
    (order : Order) → find_order_number "NC1" busy_db.orders ≡ some order → pending_order ≡ order
unfolding find_order_number
is_pending order found = ground (arith, found)

the_only_one :
    (order : Order)
    → find_order_number "NC1" busy_db.orders ≡ some order
    → get_order busy_db order.order_id ≡ some order
unfolding find_order_number find
the_only_one order found =
    subst (λ (o : Order). get_order busy_db o.order_id ≡ some o) (is_pending order found) refl

handle_wechat_notification-again_example :
    (d' : Dispatch) × (db'' : Db) × (handle_wechat_notification
        (surroundings 900)
        notification
        "AB12"
        notified.1
      ≡ (ok d', db''))
    × (d'.side_effects ≡ none)
    × (db''.orders ≡ notified.1.orders)
    × (db''.payment_records ≡ notified.1.payment_records)
handle_wechat_notification-again_example =
    handle_wechat_notification-again (surroundings 800) (surroundings 900) notification "AB12"
      busy_db notified.1 dispatched notified-ok the_only_one refl refl

abbrev request : MatchRequest
request = record {
  amount = record { coeff = pos 3000; places = 2 };
  paid_at = 700;
  transaction_id = none;
  qr_session_id = none;
  force_order_id = none;
}

abbrev matching : Result MatchError Matched × Db
matching = match_payment shop_settings true 800 5 request busy_db

abbrev matched : Matched
matched = record {
  pay_id = 1;
  order_id = 1;
  dispatch = record { print_job = some 1; side_effects = some 1 };
}

matching-ok : matching ≡ (ok matched, matching.1)
unfolding match_payment do_match quantize_even acquire_payment_record acquire_by_query record_fits
    choose_order find_candidate_orders order_fits check_order record_match ensure_print_job update
    find times sort_by insert_by
matching-ok = refl

match_payment-pays_example :
    (order : Order) × (((request.force_order_id ≡ some order.order_id)
        × (get_order busy_db order.order_id ≡ some order))
      ⊎ ((request.force_order_id ≡ none)
          × (find_candidate_orders shop_settings request (quantize_even request.amount) busy_db
              ≡ order ∷ [])))
    × (eq_ℤ order.total_price (quantize_even request.amount) ≡ true)
    × ((order.payment_status is PaymentStatus.paid) ≡ false)
    × ((j : ℕ)
        → get_order matching.1 j ≡ (
            if order.order_id == j
            then map_some (set_paid 800) (get_order busy_db j)
            else get_order busy_db j))
    × ((set_paid 800 order).status ≡ OrderStatus.paid)
    × ((set_paid 800 order).payment_status ≡ PaymentStatus.paid)
    × ((r : PaymentRecord) × (by_id matched.pay_id matching.1 ≡ some r)
        × (r.matched_order_id ≡ some order.order_id))
    × (is_some (job_of order.order_id matching.1) ≡ true)
match_payment-pays_example =
    match_payment-pays shop_settings true 800 5 request busy_db matching.1 matched matching-ok
