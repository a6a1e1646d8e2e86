-- ===== src/Payments/Notify.antt =====
-- `handle_wechat_notification` of app/services/payments.py. It runs in one transaction, whose rows
-- are rolled back where it raises.
pub mod Effect
pub mod Pays
pub mod Again
use naicha_backend.Database.{Db}
use naicha_backend.Exec.{Exec, Result, err, ok}
use naicha_backend.Models.{
  JobStatus, MatchStatus, OrderStatus, PaymentStatus, job_status_tagged, match_status_tagged,
  order_status_tagged, payment_status_tagged, ◌is◌,
}
use naicha_backend.Models.Rows.{Decimal, Order, PaymentRecord, PrintJob}
use naicha_backend.Money.{cents, eq_decimal, quantize_currency}
use naicha_backend.Payments.Records.{
  find_order_number, find_txn, insert_job, job_of, schedule, update_job, update_order,
}
use naicha_backend.Prelude.{
  Bool, List, Option, String, [], codes, false, if◌then◌else◌, leb, none, not, some, str_eq, true,
  ℕ, ◌&&◌, ◌++◌, ◌+◌, ◌==◌, ◌||◌, ◌∷◌,
}

-- WechatPaymentNotifySchema
pub record Notification : Type 0 where
  pub order_number : String
  pub transaction_id : String
  pub amount : Decimal
  pub currency : String
  pub channel : String
  pub paid_at : ℕ

pub data PaymentError : Type 0 where
  bad_signature order_missing unsupported_currency amount_mismatch : PaymentError
  concurrent_update job_missing : PaymentError

-- What the handler does not control: the clock, the HMAC of the body, a print job that another
-- session has inserted for the order since it was looked up, and whether the version of the order
-- has moved on by the time of the flush (StaleDataError).
pub record Surroundings : Type 0 where
  pub now : ℕ
  pub expected_signature : String
  pub raced_job : Option PrintJob
  pub is_stale : Bool

-- What the handler hands to the queues: a print job, and an order for its side effects.
pub record Dispatch : Type 0 where
  pub print_job : Option ℕ
  pub side_effects : Option ℕ

-- `lower` on the characters of a hexadecimal digest.
abbrev lower : ℕ → ℕ
lower c = if leb b'A' c && leb c b'Z' then c + 32 else c

unfoldable pub same_text : List ℕ → List ℕ → Bool
same_text [] [] = true
same_text [] (d ∷ ds) = false
same_text (c ∷ cs) [] = false
same_text (c ∷ cs) (d ∷ ds) = lower c == lower d && same_text cs ds

-- `_verify_signature`
unfoldable pub verify_signature : String → String → Bool
unfolding same_text
verify_signature expected signature =
    not (str_eq signature "") && same_text (codes signature) (codes expected)

-- `_ensure_amount_matches`
unfoldable pub ensure_amount_matches : Order → Decimal → String → Result PaymentError (Unit {0})
ensure_amount_matches order amount currency =
    if not (str_eq currency "CNY")
    then err unsupported_currency
    else if not (eq_decimal (cents order.total_price) amount)
    then err amount_mismatch
    else ok tt

-- The writes to the order.
unfoldable pub mark_paid : ℕ → String → Order → Order
mark_paid now channel o =
    let status_changed = not (o.status is OrderStatus.paid) in
    record o {
      payment_status = PaymentStatus.paid;
      status = OrderStatus.paid;
      updated_at = if status_changed then now else o.updated_at;
      payment_channel = elim o.payment_channel [ none ↦ some channel | some c ↦ some c ];
    }

-- The record of a notification.
abbrev pub record_of : Notification → ℕ → ℕ → PaymentRecord
record_of n order_id pay_id = record {
  pay_id = pay_id;
  is_refund = false;
  channel = n.channel;
  amount = quantize_currency n.amount;
  txn_id = some n.transaction_id;
  qr_session_id = none;
  matched_order_id = some order_id;
  match_status = MatchStatus.auto_matched;
  matched_by_admin_id = none;
  paid_at = n.paid_at;
}

-- `_build_payment_record_insert` and its execution: nothing for a transaction that is known.
unfoldable pub insert_record : Notification → ℕ → Db → Db
insert_record n order_id db = elim (find_txn n.transaction_id db.payment_records) [
  | some r ↦ db
  | none ↦ record db {
    payment_records = db.payment_records ++ record_of n order_id db.next_pay_id ∷ [];
    next_pay_id = db.next_pay_id + 1;
  }
]

-- The upsert of the print job, where none was found with the order: the insert, unless another
-- session was faster.
unfoldable pub upsert_job : Option PrintJob → ℕ → Db → Db
upsert_job none order_id db = insert_job order_id db
upsert_job (some j) order_id db = record db { print_jobs = db.print_jobs ++ j ∷ [] }

-- The id to enqueue for a job that was there before.
abbrev pub to_enqueue : PrintJob → Option ℕ
to_enqueue j =
    if (j.status is JobStatus.failed) || (j.status is JobStatus.pending)
    then some j.job_id
    else none

-- A job that was there before: one that failed or waits is due now.
abbrev pub reschedule : ℕ → PrintJob → PrintJob
reschedule now j =
    if (j.status is JobStatus.failed) || (j.status is JobStatus.pending) then schedule now j else j

-- The print job of the order, and which id to enqueue.
unfoldable pub prepare_job : Surroundings → ℕ → Option PrintJob → Exec Db PaymentError (Option ℕ)
unfolding upsert_job
prepare_job s order_id (some j) db = (ok (to_enqueue j), update_job order_id (reschedule s.now) db)
prepare_job s order_id none db =
    let db' = upsert_job s.raced_job order_id db in
    elim s.raced_job [
      | none ↦ (ok (some db.next_job_id), update_job order_id (schedule s.now) db')
      | some _ ↦ elim (job_of order_id db') [
        | none ↦ (err job_missing, db')
        | some j ↦ (ok (to_enqueue j), update_job order_id (reschedule s.now) db')
      ]
    ]

-- The writes of the transaction, for the order that was found.
unfoldable pub settle : Surroundings → Notification → Order → Exec Db PaymentError Dispatch
unfolding mark_paid insert_record prepare_job
settle s n order db =
    let existing = job_of order.order_id db in
    let db1 = update_order order.order_id (mark_paid s.now n.channel) db in
    let db2 = insert_record n order.order_id db1 in
    let (r, db3) = prepare_job s order.order_id existing db2 in
    elim r [
      | err e ↦ (err e, db3)
      | ok job ↦ if s.is_stale then (err concurrent_update, db3) else (
        ok (record {
          print_job = job;
          side_effects = if order.status is OrderStatus.paid then none else some order.order_id;
        }),
        db3,
      )
    ]

-- The body of the transaction.
unfoldable pub notify : Surroundings → Notification → String → Exec Db PaymentError Dispatch
unfolding ensure_amount_matches verify_signature
notify s n signature db =
    if not (verify_signature s.expected_signature signature)
    then (err bad_signature, db)
    else elim (find_order_number n.order_number db.orders) [
      | none ↦ (err order_missing, db)
      | some order ↦ elim (ensure_amount_matches order n.amount n.currency) [
        | err e ↦ (err e, db)
        | ok _ ↦ settle s n order db
      ]
    ]

-- `handle_wechat_notification`
unfoldable pub handle_wechat_notification :
    Surroundings → Notification → String → Exec Db PaymentError Dispatch
handle_wechat_notification s n signature db =
    let (r, db') = notify s n signature db in elim r [ ok d ↦ (ok d, db') | err e ↦ (err e, db) ]
