-- ===== src/Maintenance.antt =====
-- MaintenanceService and `run_jobs` of app/services/maintenance.py: a table of jobs that a cron script
-- works off when the task queue does not.
pub mod Enqueued
pub mod Worked
use naicha_backend.Database.{Db, Settings, minute}
use naicha_backend.Exec.{Exec, err, ok}
use naicha_backend.Orders.Cancel.{cancel_stale_pending_orders}
use naicha_backend.Prelude.{
  Bool, List, Option, String, [], contains, false, if◌then◌else◌, leb, map, max, none, select, some,
  sort_by, str_eq, take, true, ℕ, ◌&&◌, ◌*◌, ◌++◌, ◌+◌, ◌-◌, ◌==◌, ◌||◌, ◌∷◌,
}
use naicha_backend.Table.{find, update}

-- ck_maintenance_jobs_status
pub data MaintenanceStatus : Type 0 where
  pending running completed failed : MaintenanceStatus

abbrev pub is_pending : MaintenanceStatus → Bool
is_pending MaintenanceStatus.pending = true
is_pending MaintenanceStatus.running = false
is_pending MaintenanceStatus.completed = false
is_pending MaintenanceStatus.failed = false

-- payload_json of a job that cancels stale orders
pub record JobPayload : Type 0 where
  pub limit : Option ℕ
  pub cutoff_minutes : Option ℕ
  pub reason : Option String

pub data MaintenanceError : Type 0 where
  unsupported_type : String → MaintenanceError

pub record MaintenanceJob : Type 0 where
  pub job_id : ℕ
  pub job_type : String
  pub status : MaintenanceStatus
  pub payload : JobPayload
  pub result : Option (List ℕ)
  pub scheduled_at : ℕ
  pub started_at : Option ℕ
  pub completed_at : Option ℕ
  pub attempts : ℕ
  pub last_error : Option MaintenanceError

-- The table of jobs with its sequence, beside the other rows.
pub record MaintenanceState : Type 0 where
  pub rows : Db
  pub jobs : List MaintenanceJob
  pub next_job_id : ℕ

-- `job_type == … and status == "pending"`
abbrev pub is_waiting : String → MaintenanceJob → Bool
is_waiting job_type j = str_eq j.job_type job_type && is_pending j.status

unfoldable pub find_waiting : String → List MaintenanceJob → Option MaintenanceJob
find_waiting job_type [] = none
find_waiting job_type (j ∷ js) = if is_waiting job_type j then some j else find_waiting job_type js

abbrev pub new_maintenance_job : ℕ → String → JobPayload → ℕ → MaintenanceJob
new_maintenance_job job_id job_type payload scheduled_at = record {
  job_id = job_id;
  job_type = job_type;
  status = MaintenanceStatus.pending;
  payload = payload;
  result = none;
  scheduled_at = scheduled_at;
  started_at = none;
  completed_at = none;
  attempts = 0;
  last_error = none;
}

abbrev pub or_now : ℕ → Option ℕ → ℕ
or_now now none = now
or_now now (some t) = t

-- `enqueue_job`
unfoldable pub enqueue_job :
    ℕ → String → JobPayload → Option ℕ → MaintenanceState → MaintenanceJob × MaintenanceState
unfolding find_waiting
enqueue_job now job_type payload run_after s =
    let new = new_maintenance_job s.next_job_id job_type payload (or_now now run_after) in
    elim (find_waiting job_type s.jobs) [
      | some j ↦ (j, s)
      | none ↦ (new, record s { jobs = s.jobs ++ new ∷ []; next_job_id = s.next_job_id + 1 })
    ]

abbrev pub of_type : Option String → MaintenanceJob → Bool
of_type none j = true
of_type (some t) j = str_eq t "" || str_eq j.job_type t

abbrev pub is_due : ℕ → Option String → MaintenanceJob → Bool
is_due now job_type j = is_pending j.status && leb j.scheduled_at now && of_type job_type j

abbrev pub start_job : ℕ → MaintenanceJob → MaintenanceJob
start_job now j = record j {
  status = MaintenanceStatus.running;
  started_at = some now;
  attempts = j.attempts + 1;
}

unfoldable pub start_jobs : ℕ → List ℕ → List MaintenanceJob → List MaintenanceJob
start_jobs now ids [] = []
start_jobs now ids (j ∷ js) =
    (if contains j.job_id ids then start_job now j else j) ∷ start_jobs now ids js

-- `acquire_jobs`
unfoldable pub acquire_jobs : ℕ → Option String → ℕ → MaintenanceState → List ℕ × MaintenanceState
unfolding start_jobs
acquire_jobs now job_type limit s =
    let due = sort_by (λ j. j.scheduled_at) (select (is_due now job_type) s.jobs) in
    let ids = take limit (map (λ j. j.job_id) due) in
    (ids, record s { jobs = start_jobs now ids s.jobs })

abbrev pub or_positive : ℕ → Option ℕ → ℕ
or_positive default none = default
or_positive default (some n) = if n == 0 then default else n

abbrev pub or_reason : Option String → String
or_reason none = "auto_cancel.db_cron"
or_reason (some r) = if str_eq r "" then "auto_cancel.db_cron" else r

-- `_run_auto_cancel_job`
unfoldable pub run_auto_cancel_job : Settings → ℕ → MaintenanceJob → Db → List ℕ × Db
run_auto_cancel_job settings now job db =
    let limit = or_positive 100 job.payload.limit in
    let minutes =
      max (or_positive settings.order_pending_timeout_minutes job.payload.cutoff_minutes) 1 in
    cancel_stale_pending_orders now (now - minutes * minute) limit (or_reason job.payload.reason) db

-- `execute_job`
unfoldable pub execute_job : Settings → ℕ → MaintenanceJob → Exec Db MaintenanceError (List ℕ)
unfolding run_auto_cancel_job
execute_job settings now job db =
    if str_eq job.job_type "cancel_stale_pending_orders"
    then (let (ids, db') = run_auto_cancel_job settings now job db in (ok ids, db'))
    else (err (unsupported_type job.job_type), db)

-- `complete_job`
abbrev pub complete_job : ℕ → List ℕ → MaintenanceJob → MaintenanceJob
complete_job now result j = record j {
  status = MaintenanceStatus.completed;
  completed_at = some now;
  result = some result;
  last_error = none;
}

-- `fail_job`
abbrev pub fail_job : ℕ → MaintenanceError → MaintenanceJob → MaintenanceJob
fail_job now e j = record j {
  status = MaintenanceStatus.failed;
  completed_at = some now;
  last_error = some e;
}

-- One round of `run_jobs`, in one transaction.
unfoldable pub run_job : Settings → ℕ → ℕ → MaintenanceState → MaintenanceState
unfolding execute_job
run_job settings now id s = elim (find (λ (j : MaintenanceJob). j.job_id) id s.jobs) [
  | none ↦ s
  | some j ↦
      (let (r, db') = execute_job settings now j s.rows in
        elim r [
          | ok ids ↦ record s {
            rows = db';
            jobs = update (λ j. j.job_id) id (complete_job now ids) s.jobs;
          }
          | err e ↦ record s {
            rows = db';
            jobs = update (λ j. j.job_id) id (fail_job now e) s.jobs;
          }
        ])
]

-- `run_jobs`
unfoldable pub run_jobs : Settings → ℕ → List ℕ → MaintenanceState → MaintenanceState
unfolding run_job
run_jobs settings now [] s = s
run_jobs settings now (id ∷ ids) s = run_jobs settings now ids (run_job settings now id s)
