-- ===== src/Tasks/Handover.antt =====
-- A sweep that dies is done by the maintenance script.
use naicha_backend.Database.{Db, Settings, minute}
use naicha_backend.Maintenance.{
  MaintenanceJob, MaintenanceState, acquire_jobs, enqueue_job, execute_job, find_waiting, is_due,
  is_pending, new_maintenance_job, or_positive, run_auto_cancel_job, run_job, run_jobs, start_job,
}
use naicha_backend.Maintenance.Worked.{acquire_jobs-starts, job_by_id}
use naicha_backend.Orders.Cancel.{cancel_stale_pending_orders}
use naicha_backend.Prelude.{
  All, Bool, List, String, [], ap, arith, contains, false, if◌then◌else◌, map, max, none, refl,
  select, some, sort_by, suc, take, true, zero, ℕ, ◌*◌, ◌++◌, ◌-◌, ◌==◌, ◌∙◌, ◌∷◌, ◌≡◌, ◌≤◌,
}
use naicha_backend.Table.{find-append}
use naicha_backend.Tasks.{cancel_stale_task, enqueue_auto_cancel_job, lock_given}

abbrev cleanup : String
cleanup = "cancel_stale_pending_orders"

abbrev pub IsIdle : MaintenanceJob → Type 0
IsIdle j = is_pending j.status ≡ false

find_waiting-idle :
    (t : String) (js : List MaintenanceJob) → All IsIdle js → find_waiting t js ≡ none
unfolding find_waiting
find_waiting-idle t [] h = refl
find_waiting-idle t (j ∷ js) h = ground (arith, h.0, find_waiting-idle t js h.1)

due-append :
    (now : ℕ) (js : List MaintenanceJob) (new : MaintenanceJob)
    → All IsIdle js
    → is_due now none new ≡ true
    → select (is_due now none) (js ++ new ∷ []) ≡ new ∷ []
due-append now [] new h due = rw due refl
due-append now (j ∷ js) new h due =
    let skip : is_due now none j ≡ false = ground (arith, h.0) in
    rw skip (due-append now js new h.1 due)

take-nil : (n : ℕ) → ◌≡◌ {A = List ℕ} (take n []) []
take-nil zero = refl
take-nil (suc n) = refl

-- The job that `_enqueue_auto_cancel_job` adds.
abbrev handed_over : Settings → ℕ → ℕ → MaintenanceState → MaintenanceJob
handed_over settings now limit s =
    new_maintenance_job s.next_job_id cleanup
      (record {
        limit = some limit;
        cutoff_minutes = some settings.order_pending_timeout_minutes;
        reason = some "auto_cancel.db_cron";
      })
      now

module _ (settings : Settings) (now limit : ℕ) (s : MaintenanceState) (idle : All IsIdle s.jobs)
    (fresh : job_by_id s.next_job_id s.jobs ≡ none) where
  jobs-enqueue_auto_cancel_job :
      let s' = enqueue_auto_cancel_job settings now limit s in
      (s'.jobs ≡ s.jobs ++ handed_over settings now limit s ∷ []) × (s'.rows ≡ s.rows)
  unfolding enqueue_auto_cancel_job enqueue_job
  jobs-enqueue_auto_cancel_job =
      let absent = find_waiting-idle cleanup s.jobs idle in
      (ground (arith, absent), ground (arith, absent))

  module _ (later count : ℕ) (past : now ≤ later) (s' : MaintenanceState)
      (jobs : s'.jobs ≡ s.jobs ++ handed_over settings now limit s ∷ []) where
    acquired_ids : (acquire_jobs later none (suc count) s').0 ≡ s.next_job_id ∷ []
    unfolding acquire_jobs sort_by
    acquired_ids =
        let new = handed_over settings now limit s in
        let due : select (is_due later none) s'.jobs ≡ new ∷ [] =
          ap (select (is_due later none)) jobs
          ∙ due-append later s.jobs new idle (ground (arith, past)) in
        ap
          (λ js.
            take (suc count)
              (map (λ (j : MaintenanceJob). j.job_id) (sort_by (λ j. j.scheduled_at) js)))
          due
        ∙ ap (λ ks. s.next_job_id ∷ ks) (take-nil count)

    acquired_job :
        job_by_id s.next_job_id (acquire_jobs later none (suc count) s').1.jobs
        ≡ some (start_job later (handed_over settings now limit s))
    acquired_job =
        let new = handed_over settings now limit s in
        let there : job_by_id s.next_job_id s'.jobs ≡ some new =
          ap (job_by_id s.next_job_id) jobs
          ∙ find-append (λ (j : MaintenanceJob). j.job_id) s.next_job_id s.jobs new
          ∙ ground (arith, fresh) in
        ground (
          arith,
          (acquire_jobs-starts later (suc count) s.next_job_id none s').1,
          there,
          ap (contains s.next_job_id) acquired_ids,
        )

    acquired_rows : (acquire_jobs later none (suc count) s').1.rows ≡ s'.rows
    unfolding acquire_jobs
    acquired_rows = refl

-- The rows after the sweep of the maintenance script.
abbrev pub swept_by_script : Settings → ℕ → ℕ → Db → Db
swept_by_script settings at limit db =
    (cancel_stale_pending_orders at (at - max settings.order_pending_timeout_minutes 1 * minute)
      (if limit == 0 then 100 else limit) "auto_cancel.db_cron" db).1

run_handed_over :
    (settings : Settings) (now later at limit : ℕ) (s t : MaintenanceState)
    → job_by_id s.next_job_id t.jobs ≡ some (start_job later (handed_over settings now limit s))
    → (run_job settings at s.next_job_id t).rows ≡ swept_by_script settings at limit t.rows
unfolding run_job execute_job run_auto_cancel_job
run_handed_over settings now later at limit s t found =
    let timeout = settings.order_pending_timeout_minutes in
    let minutes : max (or_positive timeout (some timeout)) 1 ≡ max timeout 1 = ground arith in
    rw (found, run_job)
      (ap
        (λ m.
          (cancel_stale_pending_orders at (at - m * minute) (if limit == 0 then 100 else limit)
            "auto_cancel.db_cron" t.rows).1)
        minutes)

-- Where no job waits in the table and the next id is new: a sweep over stale orders that had its lock
-- and died has changed no row but the table of jobs, and the maintenance script, which acquires and
-- runs jobs at any later time, then does the sweep as of its own time.
pub cancel_stale_task-handover :
    (settings : Settings) (owned : Bool) (now limit : ℕ) (s : MaintenanceState) (later at count : ℕ)
    → All IsIdle s.jobs
    → job_by_id s.next_job_id s.jobs ≡ none
    → now ≤ later
    → let s' = (cancel_stale_task settings lock_given owned true now limit s).1 in
      let (ids, t) = acquire_jobs later none (suc count) s' in
      (s'.rows ≡ s.rows)
      × ((run_jobs settings at ids t).rows ≡ swept_by_script settings at limit s.rows)
unfolding cancel_stale_task run_jobs
cancel_stale_task-handover settings owned now limit s later at count idle fresh past =
    let (jobs, rows) = jobs-enqueue_auto_cancel_job settings now limit s idle fresh in
    let s' = enqueue_auto_cancel_job settings now limit s in
    let ids = acquired_ids settings now limit s idle fresh later count past s' jobs in
    let job = acquired_job settings now limit s idle fresh later count past s' jobs in
    let t = (acquire_jobs later none (suc count) s').1 in
    (
      rows,
      ap (λ ks. (run_jobs settings at ks t).rows) ids
          ∙ run_handed_over settings now later at limit s t job
          ∙ ap (swept_by_script settings at limit)
              (acquired_rows settings now limit s idle fresh later count past s' jobs ∙ rows),
    )
