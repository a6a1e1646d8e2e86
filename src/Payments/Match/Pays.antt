-- ===== src/Payments/Match/Pays.antt =====
-- What a match of a payment with an order has done when it succeeds.
use naicha_backend.Database.{Db, Settings}
use naicha_backend.Exec.{Result-cases, ok}
use naicha_backend.Models.{
  MatchStatus, OrderStatus, PaymentStatus, match_status_tagged, order_status_tagged,
  payment_status_tagged, ◌is◌,
}
use naicha_backend.Models.Rows.{Order, PaymentRecord}
use naicha_backend.Money.{quantize_even}
use naicha_backend.Orders.Access.{get_order}
use naicha_backend.Payments.Acquire.{MatchRequest, acquire_payment_record, eq_ℤ}
use naicha_backend.Payments.Match.{
  Matched, check_order, choose_order, do_match, find_candidate_orders, match_payment, record_match,
  set_matched, set_paid,
}
use naicha_backend.Payments.Match.Acquired.{acquire-Acquired, by_id}
use naicha_backend.Payments.Match.Writes.{
  choose_order-is, orders_until_match, record_match-job, record_match-orders, record_match-record,
}
use naicha_backend.Payments.Records.{job_of}
use naicha_backend.Prelude.{
  Bool, [], ap, arith, false, if◌then◌else◌, inl, inr, is_some, none, refl, some, sym, true, ℕ,
  ◌==◌, ◌∙◌, ◌∷◌, ◌≡◌, ◌⊎◌,
}
use naicha_backend.Table.{find, is_some-inv, map_some}

-- The steps of a match that succeeds.
record Run (settings : Settings) (now admin_id : ℕ) (m : MatchRequest) (db db' : Db) (x : Matched)
    : Type 0 where
  db1 : Db
  order : Order
  status : MatchStatus
  acquired : acquire_payment_record settings m (quantize_even m.amount) db ≡ (ok x.pay_id, db1)
  chosen : choose_order settings m (quantize_even m.amount) db1 ≡ ok (order, status)
  checked : check_order order (quantize_even m.amount) ≡ ok tt
  after : db' ≡ (record_match now admin_id m x.pay_id order status db1).1

match_payment-Run :
    (settings : Settings) (lock_acquired : Bool) (now admin_id : ℕ) (m : MatchRequest) (db db' : Db)
    (x : Matched)
    → match_payment settings lock_acquired now admin_id m db ≡ (ok x, db')
    → Run settings now admin_id m db db' x
unfolding match_payment do_match
match_payment-Run settings lock_acquired now admin_id m db db' x e =
    let amount = quantize_even m.amount in
    let (acquired, db1) = acquire_payment_record settings m amount db in
    elim (Result-cases acquired) [
      | inl (y, failed) ↦ absurd (ground arith)
      | inr (pay_id, made) ↦ elim (Result-cases (choose_order settings m amount db1)) [
        | inl (y, failed) ↦ absurd (ground arith)
        | inr ((order, status), chosen) ↦ elim (Result-cases (check_order order amount)) [
          | inl (y, failed) ↦ absurd (ground arith)
          | inr (_, right) ↦ record {
            db1 = db1;
            order = order;
            status = status;
            acquired = ground (arith, made, chosen, right);
            chosen = chosen;
            checked = ground (arith, right);
            after = ground (arith, made, chosen, right);
          }
        ]
      ]
    ]

-- A match that succeeds has found one order: the one that the administrator forced, or else the only
-- one that is pending, has the amount and was made within the window of time. Its total is the
-- amount and it was not paid. The row of its id is then paid in both columns and every other row stays; the
-- payment record is matched with it, and it has a print job.
pub match_payment-pays :
    (settings : Settings) (lock_acquired : Bool) (now admin_id : ℕ) (m : MatchRequest) (db db' : Db)
    (x : Matched)
    → match_payment settings lock_acquired now admin_id m db ≡ (ok x, db')
    → (order : Order) × (((m.force_order_id ≡ some order.order_id)
          × (get_order db order.order_id ≡ some order))
        ⊎ ((m.force_order_id ≡ none)
            × (find_candidate_orders settings m (quantize_even m.amount) db ≡ order ∷ [])))
      × (eq_ℤ order.total_price (quantize_even m.amount) ≡ true)
      × ((order.payment_status is PaymentStatus.paid) ≡ false)
      × ((j : ℕ)
          → get_order db' j ≡ (
              if order.order_id == j
              then map_some (set_paid now) (get_order db j)
              else get_order db j))
      × ((set_paid now order).status ≡ OrderStatus.paid)
      × ((set_paid now order).payment_status ≡ PaymentStatus.paid)
      × ((r : PaymentRecord) × (by_id x.pay_id db' ≡ some r)
          × (r.matched_order_id ≡ some order.order_id))
      × (is_some (job_of order.order_id db') ≡ true)
unfolding check_order
match_payment-pays settings lock_acquired now admin_id m db db' x e =
    let run = match_payment-Run settings lock_acquired now admin_id m db db' x e in
    let amount = quantize_even m.amount in
    let kept = acquire-Acquired settings m amount db run.db1 x.pay_id run.acquired in
    let same = orders_until_match settings m amount db run.db1 kept.orders in
    let (r, found) = is_some-inv (by_id x.pay_id run.db1) kept.found in
    let choice = choose_order-is settings m amount run.db1 run.order run.status run.chosen in
    (
      run.order,
      elim choice [
        | inl (forced, there) ↦ inl (
          forced,
          ap (find (λ (o : Order). o.order_id) run.order.order_id) (sym kept.orders) ∙ there,
        )
        | inr (unforced, only) ↦ inr (unforced, sym same ∙ only)
      ],
      ground (arith, run.checked),
      ground (arith, run.checked),
      λ j.
          ap (λ (d : Db). get_order d j) run.after
          ∙ record_match-orders now admin_id m x.pay_id run.order run.status run.db1 j
          ∙ ap
              (λ os.
                let old = find (λ (o : Order). o.order_id) j os in
                if run.order.order_id == j then map_some (set_paid now) old else old)
              kept.orders,
      refl,
      refl,
      (
        set_matched admin_id run.order.order_id run.status m r,
        ap (by_id x.pay_id) run.after
            ∙ record_match-record now admin_id m x.pay_id run.order run.status run.db1
            ∙ ap (map_some (set_matched admin_id run.order.order_id run.status m)) found,
        refl,
      ),
      ap (λ (d : Db). is_some (job_of run.order.order_id d)) run.after
          ∙ record_match-job now admin_id m x.pay_id run.order run.status run.db1,
    )
