-- ===== src/Tasks.antt =====
-- The Celery tasks of app/workers/tasks.py: each takes a lock in Redis, runs an operation of a service
-- in a transaction of its own, and gives the lock back. What Redis answers, and whether an operation
-- dies of an exception that is none of the service's, are parameters.
pub mod Locked
pub mod Handover
pub mod SideEffects
use naicha_backend.Database.{Db, Settings, minute}
use naicha_backend.Exec.{Exec, err, ok}
use naicha_backend.Inventory.Count.{held}
use naicha_backend.Loyalty.{award_on_payment}
use naicha_backend.Maintenance.{JobPayload, MaintenanceState, enqueue_job}
use naicha_backend.Models.{OrderStatus}
use naicha_backend.Models.Rows.{Order}
use naicha_backend.Orders.Access.{get_order}
use naicha_backend.Orders.Cancel.{cancel_stale_pending_orders}
use naicha_backend.Prelude.{
  Bool, List, Option, String, [], false, if◌then◌else◌, leb, max, min, none, not, some, true, ℕ, ℤ,
  ◌&&◌, ◌*◌, ◌++◌, ◌-◌, ◌∷◌,
}
use naicha_backend.PrintJobs.Enqueue.{DispatchMode, Enqueued, Fallback, enqueue_print_job}
use naicha_backend.PrintJobs.Recover.{recover_print_jobs}
use naicha_backend.Reconciliation.{CsvRow, ReconciliationResult, run_daily}
use naicha_backend.Reservations.Due.{activate_due_orders, send_due_reminders}
use naicha_backend.Reservations.Plan.{Zone}

-- `_get_lock_client`, `client.lock` and `acquire` of a task's lock.
pub data TaskLock : Type 0 where
  no_client create_failed acquire_failed lock_taken lock_given : TaskLock

-- `_resolve_lock_ttl`, in seconds
unfoldable pub resolve_lock_ttl : ℕ → ℕ
resolve_lock_ttl interval = if leb interval 0 then 120 else min (max (interval * 2) 120) 7200

-- `_acquire_task_lock`: whether to run, whether a lock is held, and whether it is run without one.
unfoldable pub acquire_task_lock : TaskLock → Bool × Bool × Bool
acquire_task_lock no_client = (true, false, true)
acquire_task_lock create_failed = (true, false, true)
acquire_task_lock acquire_failed = (true, false, true)
acquire_task_lock lock_taken = (false, false, false)
acquire_task_lock lock_given = (true, true, false)

-- `_release_task_lock`: whether `release` is called, where `owned` is what the lock says of itself.
unfoldable pub release_task_lock : Bool → Bool → Bool
release_task_lock held owned = held && owned

-- How a task ended; the flag says whether its lock was released.
pub data TaskEnd : Type 0 where
  skipped : TaskEnd
  finished raised : Bool → TaskEnd

-- The frame of a task: an operation that dies leaves the rows as they were.
unfoldable pub run_locked : {S : Type 0} → TaskLock → Bool → Bool → (S → S) → S → TaskEnd × S
unfolding acquire_task_lock release_task_lock
run_locked lock owned dies operation s =
    let (should_run, held, degraded) = acquire_task_lock lock in
    if not should_run
    then (skipped, s)
    else if dies
    then (raised (release_task_lock held owned), s)
    else (finished (release_task_lock held owned), operation s)

-- The loop of `trigger_print_job_recovery`, with what the Celery client says to each job.
unfoldable pub enqueue_each :
    DispatchMode → (ℕ → Bool) → List ℕ → Fallback → List (ℕ × Enqueued) × Fallback
enqueue_each mode accepts [] f = ([], f)
enqueue_each mode accepts (id ∷ ids) f =
    let (how, f') = enqueue_print_job mode (accepts id) f in
    let (rest, f'') = enqueue_each mode accepts ids f' in ((id, how) ∷ rest, f'')

-- The rows and the local fallback of a worker, with what became of the jobs.
pub record WorkerState : Type 0 where
  pub rows : Db
  pub fallback : Fallback
  pub enqueued : List (ℕ × Enqueued)

-- `trigger_print_job_recovery`
unfoldable pub trigger_print_job_recovery :
    Settings → DispatchMode → (ℕ → Bool) → ℕ → ℕ → WorkerState → WorkerState
unfolding enqueue_each
trigger_print_job_recovery settings mode accepts now limit s =
    let (ids, rows) = recover_print_jobs settings now limit s.rows in
    let (how, fallback) = enqueue_each mode accepts ids s.fallback in
    record { rows = rows; fallback = fallback; enqueued = s.enqueued ++ how }

-- `run_print_job_recovery`
unfoldable pub run_print_job_recovery :
    Settings
    → DispatchMode
    → (ℕ → Bool)
    → TaskLock
    → Bool
    → Bool
    → ℕ
    → ℕ
    → WorkerState
    → TaskEnd × WorkerState
unfolding run_locked trigger_print_job_recovery
run_print_job_recovery settings mode accepts lock owned dies now limit =
    run_locked lock owned dies (trigger_print_job_recovery settings mode accepts now limit)

-- `reservation_send_reminders` and `reservation_activate_due_orders`
unfoldable pub reservation_send_reminders :
    Settings → TaskLock → Bool → Bool → ℕ → Db → TaskEnd × Db
unfolding run_locked
reservation_send_reminders settings lock owned dies now =
    run_locked lock owned dies
      (λ db. if settings.reservation_enabled then (send_due_reminders settings now db).1 else db)

unfoldable pub reservation_activate_due_orders :
    Settings → TaskLock → Bool → Bool → ℕ → Db → TaskEnd × Db
unfolding run_locked
reservation_activate_due_orders settings lock owned dies now =
    run_locked lock owned dies
      (λ db. if settings.reservation_enabled then (activate_due_orders settings now db).1 else db)

-- The reports that `run_daily_reconciliation` has made.
abbrev pub Reports : Type 0
Reports = List (ReconciliationResult × Option (List CsvRow))

-- `run_daily_reconciliation`, which only reads the rows.
unfoldable pub run_daily_reconciliation :
    Settings → Zone → TaskLock → Bool → Bool → ℕ → Db → Reports → TaskEnd × Reports
unfolding run_locked
run_daily_reconciliation settings zone lock owned dies now db =
    run_locked lock owned dies (λ reports. reports ++ run_daily settings zone now none db ∷ [])

-- The interval that the task of the cancellations passes for its lock.
unfoldable pub cancel_interval : Settings → ℕ
cancel_interval settings = max settings.order_pending_cleanup_interval_seconds 30

-- `_cancel_stale_pending_orders`
unfoldable pub cancel_stale : Settings → ℕ → ℕ → MaintenanceState → MaintenanceState
cancel_stale settings now limit s =
    let cutoff = now - max settings.order_pending_timeout_minutes 1 * minute in
    record s {
      rows = (cancel_stale_pending_orders now cutoff limit "auto_cancel.pending_timeout" s.rows).1;
    }

-- `_enqueue_auto_cancel_job`
unfoldable pub enqueue_auto_cancel_job : Settings → ℕ → ℕ → MaintenanceState → MaintenanceState
enqueue_auto_cancel_job settings now limit s =
    let payload : JobPayload = record {
      limit = some limit;
      cutoff_minutes = some settings.order_pending_timeout_minutes;
      reason = some "auto_cancel.db_cron";
    } in
    (enqueue_job now "cancel_stale_pending_orders" payload none s).1

-- The `except` part of that task.
abbrev pub if_raised : {S : Type 0} → TaskEnd → (S → S) → S → S
if_raised skipped handle s = s
if_raised (finished released) handle s = s
if_raised (raised released) handle s = handle s

-- The task `cancel_stale_pending_orders`: a sweep that dies, or that ran without a lock, leaves a job
-- for the maintenance script.
unfoldable pub cancel_stale_task :
    Settings → TaskLock → Bool → Bool → ℕ → ℕ → MaintenanceState → TaskEnd × MaintenanceState
unfolding run_locked cancel_stale enqueue_auto_cancel_job
cancel_stale_task settings lock owned dies now limit s =
    let degraded = (acquire_task_lock lock).2 in
    let (end, s') = run_locked lock owned dies (cancel_stale settings now limit) s in
    let s'' = if_raised end (enqueue_auto_cancel_job settings now limit) s' in
    (end, if degraded then enqueue_auto_cancel_job settings now limit s'' else s'')

-- The payload of `_build_payment_broadcast_payload`
pub record PaidMessage : Type 0 where
  pub order_id : ℕ
  pub order_number : String
  pub total_price : ℤ
  pub status : OrderStatus
  pub paid_at : ℕ

abbrev pub paid_message : Order → PaidMessage
paid_message o = record {
  order_id = o.order_id;
  order_number = o.order_number;
  total_price = o.total_price;
  status = o.status;
  paid_at = o.updated_at;
}

pub data SideEffectError : Type 0 where
  order_missing_for : ℕ → SideEffectError

-- `_process_payment_side_effects`: the points, and the message that is broadcast.
unfoldable pub process_payment_side_effects : Settings → ℕ → ℕ → Exec Db SideEffectError PaidMessage
process_payment_side_effects settings now order_id db = elim (get_order db order_id) [
  | none ↦ (err (order_missing_for order_id), db)
  | some order ↦ (ok (paid_message order), award_on_payment settings now order true db)
]
