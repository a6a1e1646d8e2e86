-- ===== src/Payments/Match/Writes.antt =====
-- The choice of the order, and the writes of a match.
use naicha_backend.Database.{Db, Settings}
use naicha_backend.Exec.{ok}
use naicha_backend.Models.{MatchStatus}
use naicha_backend.Models.Rows.{Order, PaymentRecord, PrintJob}
use naicha_backend.Orders.Access.{get_order}
use naicha_backend.Payments.Acquire.{MatchRequest, update_record}
use naicha_backend.Payments.Match.{
  choose_order, ensure_print_job, find_candidate_orders, order_fits, record_match, set_matched,
  set_paid,
}
use naicha_backend.Payments.Match.Acquired.{by_id}
use naicha_backend.Payments.Records.{insert_job, job_of, new_job, schedule, update_order}
use naicha_backend.Prelude.{
  List, Option-cases, [], ap, arith, if◌then◌else◌, inl, inr, is_some, none, refl, select, some,
  sort_by, true, ℕ, ℤ, ◌==◌, ◌∷◌, ◌≡◌, ◌⊎◌,
}
use naicha_backend.Table.{find, find-append, find-update, key-find, map_some}

only_candidate :
    (settings : Settings) (m : MatchRequest) (amount : ℤ) (db : Db) (order : Order)
    (status : MatchStatus) (os : List Order)
    → find_candidate_orders settings m amount db ≡ os
    → m.force_order_id ≡ none
    → choose_order settings m amount db ≡ ok (order, status)
    → find_candidate_orders settings m amount db ≡ order ∷ []
unfolding choose_order
only_candidate settings m amount db order status [] f u e = absurd (ground arith)
only_candidate settings m amount db order status (o ∷ []) f u e = ground arith
only_candidate settings m amount db order status (o ∷ p ∷ rest) f u e = absurd (ground arith)

-- The order was forced, or is the only candidate.
pub choose_order-is :
    (settings : Settings) (m : MatchRequest) (amount : ℤ) (db : Db) (order : Order)
    (status : MatchStatus)
    → choose_order settings m amount db ≡ ok (order, status)
    → ((m.force_order_id ≡ some order.order_id) × (get_order db order.order_id ≡ some order))
      ⊎ ((m.force_order_id ≡ none) × (find_candidate_orders settings m amount db ≡ order ∷ []))
unfolding choose_order
choose_order-is settings m amount db order status e = elim (Option-cases m.force_order_id) [
  | inl unforced ↦ inr (
    unforced,
    only_candidate settings m amount db order status (find_candidate_orders settings m amount db)
        refl unforced e,
  )
  | inr (id, forced) ↦ elim (Option-cases (find (λ (o : Order). o.order_id) id db.orders)) [
    | inl absent ↦ absurd (ground arith)
    | inr (o, found) ↦
        (let key = key-find (λ (o : Order). o.order_id) id db.orders found in
          inl (ground arith, ground arith))
  ]
]

-- The writes of a match.
pub record_match-orders :
    (now admin_id : ℕ) (m : MatchRequest) (pay_id : ℕ) (order : Order) (status : MatchStatus)
    (db : Db) (j : ℕ)
    → get_order (record_match now admin_id m pay_id order status db).1 j
      ≡ (if order.order_id == j then map_some (set_paid now) (get_order db j) else get_order db j)
unfolding record_match ensure_print_job
record_match-orders now admin_id m pay_id order status db j = ground (
  arith,
  find-update (λ (o : Order). o.order_id) order.order_id j (set_paid now) db.orders (λ o. refl),
)

pub record_match-record :
    (now admin_id : ℕ) (m : MatchRequest) (pay_id : ℕ) (order : Order) (status : MatchStatus)
    (db : Db)
    → by_id pay_id (record_match now admin_id m pay_id order status db).1
      ≡ map_some (set_matched admin_id order.order_id status m) (by_id pay_id db)
unfolding record_match ensure_print_job
record_match-record now admin_id m pay_id order status db =
    let set = set_matched admin_id order.order_id status m in
    ground (
      arith,
      find-update (λ (r : PaymentRecord). r.pay_id) pay_id pay_id set db.payment_records
          (λ r. refl),
    )

ensure_print_job-job :
    (now id : ℕ) (db : Db) → is_some (job_of id (ensure_print_job now id db).1) ≡ true
unfolding ensure_print_job
ensure_print_job-job now id db =
    let key = λ (j : PrintJob). j.order_id in
    let inserted = (insert_job id db).print_jobs in
    ground (
      arith,
      find-update key id id (schedule now) db.print_jobs (λ j. refl),
      find-update key id id (schedule now) inserted (λ j. refl),
      find-append key id db.print_jobs (new_job db.next_job_id id),
    )

pub record_match-job :
    (now admin_id : ℕ) (m : MatchRequest) (pay_id : ℕ) (order : Order) (status : MatchStatus)
    (db : Db)
    → is_some (job_of order.order_id (record_match now admin_id m pay_id order status db).1) ≡ true
unfolding record_match
record_match-job now admin_id m pay_id order status db =
    let db1 = update_record pay_id (set_matched admin_id order.order_id status m) db in
    ensure_print_job-job now order.order_id (update_order order.order_id (set_paid now) db1)

pub orders_until_match :
    (settings : Settings) (m : MatchRequest) (amount : ℤ) (db db1 : Db)
    → db1.orders ≡ db.orders
    → find_candidate_orders settings m amount db1 ≡ find_candidate_orders settings m amount db
unfolding find_candidate_orders
orders_until_match settings m amount db db1 same =
    ap (λ os. sort_by (λ (o : Order). o.created_at) (select (order_fits settings m amount) os)) same
