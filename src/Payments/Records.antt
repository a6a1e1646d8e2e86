-- ===== src/Payments/Records.antt =====
-- The rows that both payment services write: the order by its number, the payment record by its
-- transaction, and the print job of an order.
use naicha_backend.Database.{Db}
use naicha_backend.Models.{JobStatus}
use naicha_backend.Models.Rows.{Order, PaymentRecord, PrintJob}
use naicha_backend.Prelude.{
  Bool, List, Option, String, [], false, if◌then◌else◌, none, some, str_eq, ℕ, ◌++◌, ◌+◌, ◌∷◌,
}
use naicha_backend.Table.{find, update}

unfoldable pub find_order_number : String → List Order → Option Order
find_order_number n [] = none
find_order_number n (o ∷ os) = if str_eq o.order_number n then some o else find_order_number n os

abbrev pub same_txn : String → PaymentRecord → Bool
same_txn txn r = elim r.txn_id [ none ↦ false | some t ↦ str_eq t txn ]

unfoldable pub find_txn : String → List PaymentRecord → Option PaymentRecord
find_txn txn [] = none
find_txn txn (r ∷ rs) = if same_txn txn r then some r else find_txn txn rs

-- The job of an order; order_id is unique in print_jobs.
abbrev pub job_of : ℕ → Db → Option PrintJob
job_of order_id db = find (λ j. j.order_id) order_id db.print_jobs

abbrev pub update_order : ℕ → (Order → Order) → Db → Db
update_order order_id f db = record db { orders = update (λ o. o.order_id) order_id f db.orders }

abbrev pub update_job : ℕ → (PrintJob → PrintJob) → Db → Db
update_job order_id f db = record db {
  print_jobs = update (λ j. j.order_id) order_id f db.print_jobs;
}

abbrev pub new_job : ℕ → ℕ → PrintJob
new_job job_id order_id = record {
  job_id = job_id;
  order_id = order_id;
  status = JobStatus.pending;
  try_count = 0;
  next_try_at = none;
  last_error = none;
  printed_at = none;
}

-- A print job for an order, with the id of the sequence.
abbrev pub insert_job : ℕ → Db → Db
insert_job order_id db = record db {
  print_jobs = db.print_jobs ++ new_job db.next_job_id order_id ∷ [];
  next_job_id = db.next_job_id + 1;
}

abbrev pub schedule : ℕ → PrintJob → PrintJob
schedule now j = record j { status = JobStatus.pending; next_try_at = some now }
