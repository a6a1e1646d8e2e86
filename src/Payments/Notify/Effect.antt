-- ===== src/Payments/Notify/Effect.antt =====
-- What a notification of a payment does to the order, the payment records and the print jobs.
use naicha_backend.Database.{Db}
use naicha_backend.Exec.{Result-cases, ok}
use naicha_backend.Models.{OrderStatus, order_status_tagged, ◌is◌}
use naicha_backend.Models.Rows.{Order, PaymentRecord, PrintJob}
use naicha_backend.Payments.Notify.{
  Dispatch, Notification, Surroundings, insert_record, mark_paid, prepare_job, record_of,
  reschedule, settle, upsert_job,
}
use naicha_backend.Payments.Records.{
  find_txn, insert_job, job_of, new_job, same_txn, schedule, update_job, update_order,
}
use naicha_backend.Prelude.{
  List, Option, Option-cases, String, [], ap, arith, eq_iff, if◌then◌else◌, inl, inr, is_some, none,
  refl, some, true, ℕ, ◌++◌, ◌∷◌, ◌≡◌,
}
use naicha_backend.Table.{find, find-append, find-update, update}

insert_record-keeps :
    (n : Notification) (id : ℕ) (db : Db)
    → let db' = insert_record n id db in (db'.orders ≡ db.orders) × (db'.print_jobs ≡ db.print_jobs)
unfolding insert_record
insert_record-keeps n id db = ground arith

find_txn-append :
    (txn : String) (rs : List PaymentRecord) (r : PaymentRecord)
    → find_txn txn rs ≡ none
    → find_txn txn (rs ++ r ∷ []) ≡ (if same_txn txn r then some r else none)
unfolding find_txn
find_txn-append txn [] r e = refl
find_txn-append txn (x ∷ rs) r e = ground (arith, find_txn-append txn rs r)

pub find_txn-insert_record :
    (n : Notification) (id : ℕ) (db : Db)
    → is_some (find_txn n.transaction_id (insert_record n id db).payment_records) ≡ true
unfolding insert_record
find_txn-insert_record n id db =
    let mine = (eq_iff n.transaction_id n.transaction_id).1 refl in
    ground (
      arith,
      mine,
      find_txn-append n.transaction_id db.payment_records (record_of n id db.next_pay_id),
    )

pub insert_record-known :
    (n : Notification) (id : ℕ) (db : Db)
    → is_some (find_txn n.transaction_id db.payment_records) ≡ true
    → insert_record n id db ≡ db
unfolding insert_record
insert_record-known n id db known = ground arith

records-insert_record :
    (n : Notification) (id : ℕ) (f : Order → Order) (db : Db)
    → (insert_record n id (update_order id f db)).payment_records
      ≡ (insert_record n id db).payment_records
unfolding insert_record
records-insert_record n id f db = ground arith

prepare_job-keeps :
    (s : Surroundings) (id : ℕ) (existing : Option PrintJob) (db : Db)
    → let db' = (prepare_job s id existing db).1 in
      (db'.orders ≡ db.orders) × (db'.payment_records ≡ db.payment_records)
unfolding prepare_job upsert_job
prepare_job-keeps s id none db = ground arith
prepare_job-keeps s id (some j) db = ground arith

job_of-update_job :
    (id : ℕ) (f : PrintJob → PrintJob) (db : Db)
    → ((j : PrintJob) → (f j).order_id ≡ j.order_id)
    → is_some (job_of id (update_job id f db)) ≡ is_some (job_of id db)
job_of-update_job id f db key =
    ground (arith, find-update (λ (j : PrintJob). j.order_id) id id f db.print_jobs key)

job_of-insert_job : (id : ℕ) (db : Db) → is_some (job_of id (insert_job id db)) ≡ true
job_of-insert_job id db =
    ground (
      arith,
      find-append (λ (j : PrintJob). j.order_id) id db.print_jobs (new_job db.next_job_id id),
    )

prepare_job-job :
    (s : Surroundings) (id : ℕ) (existing : Option PrintJob) (db db' : Db) (job : Option ℕ)
    → job_of id db ≡ existing
    → prepare_job s id existing db ≡ (ok job, db')
    → is_some (job_of id db') ≡ true
unfolding prepare_job upsert_job
prepare_job-job s id (some j) db db' job h e =
    ground (arith, job_of-update_job id (reschedule s.now) db (λ j. ground arith))
prepare_job-job s id none db db' job h e = elim (Option-cases s.raced_job) [
  | inl alone ↦ ground (
    arith,
    job_of-update_job id (schedule s.now) (insert_job id db) (λ j. refl),
    job_of-insert_job id db,
  )
  | inr (j, raced) ↦
      (let db'' = upsert_job s.raced_job id db in
        ground (arith, job_of-update_job id (reschedule s.now) db'' (λ j. ground arith)))
]

-- What the transaction has written for the order that it found.
pub record Settled (s : Surroundings) (n : Notification) (order : Order) (before after : Db)
    (d : Dispatch) : Type 0 where
  pub orders :
      after.orders
      ≡ update (λ o. o.order_id) order.order_id (mark_paid s.now n.channel) before.orders
  pub records : after.payment_records ≡ (insert_record n order.order_id before).payment_records
  pub job : is_some (job_of order.order_id after) ≡ true
  pub effects :
      d.side_effects ≡ (if order.status is OrderStatus.paid then none else some order.order_id)

pub settle-Settled :
    (s : Surroundings) (n : Notification) (order : Order) (db db' : Db) (d : Dispatch)
    → settle s n order db ≡ (ok d, db')
    → Settled s n order db db' d
unfolding settle
settle-Settled s n order db db' d e =
    let id = order.order_id in
    let db1 = update_order id (mark_paid s.now n.channel) db in
    let db2 = insert_record n id db1 in
    let existing = job_of id db in
    let inserted = insert_record-keeps n id db1 in
    let kept = prepare_job-keeps s id existing db2 in
    let prepared = prepare_job s id existing db2 in
    elim (Result-cases prepared.0) [
      | inl (x, failed) ↦ absurd (ground arith)
      | inr (job, made) ↦
          (let same : job_of id db2 ≡ existing =
              ap (find (λ (j : PrintJob). j.order_id) id) inserted.1 in
            let run : prepare_job s id existing db2 ≡ (ok job, prepared.1) = ground (arith, made) in
            record {
              orders = ground (arith, made, kept, inserted);
              records =
                  ground
                    (arith, made, kept, records-insert_record n id (mark_paid s.now n.channel) db);
              job = ground (arith, made, prepare_job-job s id existing db2 prepared.1 job same run);
              effects = ground (arith, made);
            })
    ]
