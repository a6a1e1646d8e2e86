-- ===== src/Payments/Match.antt =====
-- `match_payment` of app/services/payment_match.py: an administrator matches a payment by a static
-- QR code with a pending order of the same amount and about the same time.
pub mod Acquired
pub mod Writes
pub mod Pays
use naicha_backend.Database.{Db, Settings, payment_match}
use naicha_backend.Exec.{Exec, Result, err, ok}
use naicha_backend.Models.{
  JobStatus, MatchStatus, OrderStatus, PaymentStatus, job_status_tagged, match_status_tagged,
  order_status_tagged, payment_status_tagged, ◌is◌,
}
use naicha_backend.Models.Rows.{Order, PaymentRecord}
use naicha_backend.Money.{quantize_even}
use naicha_backend.Payments.Acquire.{
  MatchError, MatchRequest, acquire_payment_record, already_paid, ambiguous, eq_ℤ, in_window,
  lock_taken, no_candidate, no_such_order, or_present, static_qr, update_record, wrong_amount,
}
use naicha_backend.Payments.Notify.{Dispatch}
use naicha_backend.Payments.Records.{insert_job, job_of, schedule, update_job, update_order}
use naicha_backend.Prelude.{
  Bool, List, Option, [], if◌then◌else◌, none, not, select, some, sort_by, str_eq, ℕ, ℤ, ◌&&◌, ◌++◌,
  ◌||◌, ◌∷◌,
}
use naicha_backend.Table.{find}

unfoldable pub order_fits : Settings → MatchRequest → ℤ → Order → Bool
order_fits settings m amount o =
    (o.payment_status is PaymentStatus.pending)
    && (o.status is OrderStatus.pending_payment)
    && in_window settings m.paid_at o.created_at
    && eq_ℤ o.total_price amount

-- `_find_candidate_orders`
unfoldable pub find_candidate_orders : Settings → MatchRequest → ℤ → Db → List Order
unfolding order_fits
find_candidate_orders settings m amount db =
    sort_by (λ o. o.created_at) (select (order_fits settings m amount) db.orders)

-- The order: the one that is forced, or the only candidate.
unfoldable pub choose_order :
    Settings → MatchRequest → ℤ → Db → Result MatchError (Order × MatchStatus)
choose_order settings m amount db = elim m.force_order_id [
  | some id ↦ elim (find (λ o. o.order_id) id db.orders) [
    | none ↦ err no_such_order
    | some o ↦ ok (o, MatchStatus.manual_matched)
  ]
  | none ↦ elim (find_candidate_orders settings m amount db) [
    | [] ↦ err no_candidate
    | o ∷ [] ↦ ok (o, MatchStatus.auto_matched)
    | o ∷ p ∷ rest ↦ err (ambiguous (o ∷ p ∷ rest))
  ]
]

-- The checks of the chosen order.
unfoldable pub check_order : Order → ℤ → Result MatchError (Unit {0})
check_order o amount =
    if not (eq_ℤ o.total_price amount)
    then err wrong_amount
    else if o.payment_status is PaymentStatus.paid
    then err already_paid
    else ok tt

abbrev pub set_matched : ℕ → ℕ → MatchStatus → MatchRequest → PaymentRecord → PaymentRecord
set_matched admin_id order_id status m r = record r {
  match_status = status;
  matched_order_id = some order_id;
  matched_by_admin_id = some admin_id;
  channel = if str_eq r.channel "" then static_qr else r.channel;
  qr_session_id = or_present m.qr_session_id r.qr_session_id;
}

abbrev pub set_paid : ℕ → Order → Order
set_paid now o = record o {
  status = OrderStatus.paid;
  payment_status = PaymentStatus.paid;
  payment_channel = some static_qr;
  updated_at = now;
}

-- `_ensure_print_job`, and the rescheduling of a job that waits or failed.
unfoldable pub ensure_print_job : ℕ → ℕ → Db → Option ℕ × Db
ensure_print_job now order_id db = elim (job_of order_id db) [
  | none ↦ (some db.next_job_id, update_job order_id (schedule now) (insert_job order_id db))
  | some j ↦
      if (j.status is JobStatus.pending) || (j.status is JobStatus.failed)
      then (some j.job_id, update_job order_id (schedule now) db)
      else (none, db)
]

-- The writes of a match: the record, the order, the print job and the audit log.
unfoldable pub record_match : ℕ → ℕ → MatchRequest → ℕ → Order → MatchStatus → Db → Option ℕ × Db
unfolding ensure_print_job
record_match now admin_id m pay_id order status db =
    let db1 = update_record pay_id (set_matched admin_id order.order_id status m) db in
    let db2 = update_order order.order_id (set_paid now) db1 in
    let (job, db3) = ensure_print_job now order.order_id db2 in
    (
      job,
      record db3 {
        audit_logs = db3.audit_logs ++ payment_match order.order_id pay_id admin_id status ∷ [];
      },
    )

pub record Matched : Type 0 where
  pub pay_id : ℕ
  pub order_id : ℕ
  pub dispatch : Dispatch

-- The body of the transaction of `_do_match_payment`.
unfoldable pub do_match : Settings → ℕ → ℕ → MatchRequest → Exec Db MatchError Matched
unfolding choose_order check_order
do_match settings now admin_id m db =
    let amount = quantize_even m.amount in
    let (acquired, db1) = acquire_payment_record settings m amount db in
    elim acquired [
      | err e ↦ (err e, db1)
      | ok pay_id ↦ elim (choose_order settings m amount db1) [
        | err e ↦ (err e, db1)
        | ok (order, status) ↦ elim (check_order order amount) [
          | err e ↦ (err e, db1)
          | ok _ ↦
              (let (job, db2) = record_match now admin_id m pay_id order status db1 in
                (
                  ok (record {
                    pay_id = pay_id;
                    order_id = order.order_id;
                    dispatch = record { print_job = job; side_effects = some order.order_id };
                  }),
                  db2,
                ))
        ]
      ]
    ]

-- `match_payment`: refused where the lock of the payment is taken, and rolled back where it raises.
unfoldable pub match_payment : Settings → Bool → ℕ → ℕ → MatchRequest → Exec Db MatchError Matched
match_payment settings lock_acquired now admin_id m db =
    if not lock_acquired
    then (err lock_taken, db)
    else (let (r, db') = do_match settings now admin_id m db in
        elim r [ ok x ↦ (ok x, db') | err e ↦ (err e, db) ])
