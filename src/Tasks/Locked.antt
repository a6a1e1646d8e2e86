-- ===== src/Tasks/Locked.antt =====
-- The locks of the tasks, and the sweep over stale orders under one.
use naicha_backend.Database.{Settings}
use naicha_backend.Maintenance.{JobPayload, MaintenanceState, enqueue_job}
use naicha_backend.Maintenance.Enqueued.{enqueue_job-single, waiting_jobs}
use naicha_backend.Prelude.{
  Bool, arith, false, if◌then◌else◌, max, none, not, some, true, ℕ, ◌&&◌, ◌*◌, ◌+◌, ◌-◌, ◌||◌, ◌≡◌,
  ◌≤◌,
}
use naicha_backend.Tasks.{
  TaskLock, acquire_failed, cancel_stale, cancel_stale_task, create_failed, enqueue_auto_cancel_job,
  lock_taken, no_client, resolve_lock_ttl,
}

-- A lock lives between two minutes and two hours, and, for an interval of at most an hour, at least
-- twice the interval.
resolve_lock_ttl_bounds :
    (interval : ℕ)
    → (120 ≤ resolve_lock_ttl interval)
      × (resolve_lock_ttl interval ≤ 7200)
      × (interval * 2 ≤ max (resolve_lock_ttl interval) ((interval - 3600) * 2 + 7200))
unfolding resolve_lock_ttl
resolve_lock_ttl_bounds interval = ground arith

abbrev is_taken : TaskLock → Bool
is_taken lock_taken = true
is_taken lock = false

abbrev is_degraded : TaskLock → Bool
is_degraded no_client = true
is_degraded create_failed = true
is_degraded acquire_failed = true
is_degraded lock = false

module _ (settings : Settings) (owned dies : Bool) (now limit : ℕ) (s : MaintenanceState) where
  enqueued-single :
      (t : MaintenanceState)
      → waiting_jobs "cancel_stale_pending_orders" t.jobs ≤ 1
      → let t' = enqueue_auto_cancel_job settings now limit t in
        (t'.rows ≡ t.rows) × (waiting_jobs "cancel_stale_pending_orders" t'.jobs ≡ 1)
  unfolding enqueue_auto_cancel_job enqueue_job
  enqueued-single t h =
      let payload : JobPayload = record {
        limit = some limit;
        cutoff_minutes = some settings.order_pending_timeout_minutes;
        reason = some "auto_cancel.db_cron";
      } in
      let single =
        enqueue_job-single now "cancel_stale_pending_orders" "cancel_stale_pending_orders" payload
          none t h in
      (ground arith, omega (arith, single))

  -- Whatever the lock answers, if at most one job of the sweep over stale orders waits: the rows are as
  -- the sweep leaves them, unless another task has the lock or the operation dies, then they are as
  -- they were; and exactly one such job waits after a run that died or that ran without a lock, else
  -- as many as before.
  pub cancel_stale_task_lem :
      (lock : TaskLock)
      → waiting_jobs "cancel_stale_pending_orders" s.jobs ≤ 1
      → let s' = (cancel_stale_task settings lock owned dies now limit s).1 in
        (s'.rows
          ≡ (if is_taken lock || dies then s.rows else (cancel_stale settings now limit s).rows))
        × (waiting_jobs "cancel_stale_pending_orders" s'.jobs ≡ (
            if not (is_taken lock) && (dies || is_degraded lock)
            then 1
            else waiting_jobs "cancel_stale_pending_orders" s.jobs))
  unfolding cancel_stale_task cancel_stale
  cancel_stale_task_lem lock h =
      let swept = cancel_stale settings now limit s in
      let again = enqueue_auto_cancel_job settings now limit s in
      ground (
        arith,
        enqueued-single s h,
        enqueued-single swept h,
        enqueued-single again (omega (arith, enqueued-single s h)),
      )
