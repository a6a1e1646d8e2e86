-- ===== src/PrintJobs/Execute.antt =====
-- `execute_print_job` of app/workers/print_jobs.py.
pub mod Transition
pub mod Row
pub mod Attempts
pub mod Ends
use naicha_backend.Database.{Db, Settings, print_job_failed, second}
use naicha_backend.Exec.{Exec, Result, err, ok}
use naicha_backend.Models.{JobStatus, job_status_tagged, ◌is◌}
use naicha_backend.Models.Rows.{
  JobFailure, Order, PrintJob, order_missing, retry_limit, unexpected_error,
}
use naicha_backend.Prelude.{
  Bool, List, Option, [], if◌then◌else◌, leb, min, none, some, ℕ, ◌*◌, ◌++◌, ◌+◌, ◌-◌, ◌^◌, ◌∷◌,
}
use naicha_backend.PrintJobs.Gateway.{
  Answer, DispatchError, dispatch, non_retryable, retryable, unexpected,
}
use naicha_backend.Table.{find, update}

-- The rows, and the failures that were broadcast to the merchant.
pub record PrintState : Type 0 where
  pub db : Db
  pub open db use *
  pub broadcasts : List PrintJob

pub data PrintError : Type 0 where
  retry : JobFailure → PrintError
  give_up : JobFailure → PrintError

pub data Outcome : Type 0 where
  no_such_job already_done printed failed_for_good : Outcome

abbrev pub get_job : ℕ → List PrintJob → Option PrintJob
get_job = find (λ j. j.job_id)

abbrev pub update_job : ℕ → (PrintJob → PrintJob) → PrintState → PrintState
update_job job_id f s = record s {
  db = record s.db { print_jobs = update (λ j. j.job_id) job_id f s.print_jobs };
}

abbrev pub order_of : PrintJob → PrintState → Option Order
order_of job s = find (λ o. o.order_id) job.order_id s.orders

-- 900 seconds at most.
unfoldable pub next_retry_delay : ℕ → ℕ
next_retry_delay try_count = min (2 ^ (try_count - 1)) 900

abbrev pub set_failed : JobFailure → PrintJob → PrintJob
set_failed f j = record j { status = JobStatus.failed; last_error = some f; next_try_at = none }

-- The second commit of a failure that will be tried again.
abbrev pub set_retry : ℕ → JobFailure → PrintJob → PrintJob
set_retry now f j = record j {
  status = JobStatus.failed;
  last_error = some f;
  next_try_at = some (now + next_retry_delay j.try_count * second);
}

-- The first commit: one more attempt.
abbrev pub start_attempt : PrintJob → PrintJob
start_attempt j = record j {
  status = JobStatus.processing;
  try_count = j.try_count + 1;
  last_error = none;
  next_try_at = none;
}

abbrev pub set_done : ℕ → PrintJob → PrintJob
set_done now j = record j {
  status = JobStatus.done;
  printed_at = some now;
  last_error = none;
  next_try_at = none;
}

-- A permanent failure: the row, the audit log (`_record_print_failure_audit`) and the broadcast of
-- `_finalize_permanent_failure`.
unfoldable pub fail_for_good : JobFailure → PrintJob → PrintState → PrintState
fail_for_good f job s =
    let failed_job = set_failed f job in
    let s' = update_job job.job_id (set_failed f) s in
    record s' {
      db = record s'.db {
        audit_logs = s'.audit_logs ++ print_job_failed failed_job (order_of job s) f ∷ [];
      };
      broadcasts = s'.broadcasts ++ failed_job ∷ [];
    }

-- How an attempt on a started job ends, by what the gateway did.
unfoldable pub finish_attempt :
    ℕ → PrintJob → Result DispatchError (Unit {0}) → Exec PrintState PrintError Outcome
unfolding fail_for_good
finish_attempt now job (ok _) s = (ok printed, update_job job.job_id (set_done now) s)
finish_attempt now job (err (non_retryable f)) s = (ok failed_for_good, fail_for_good f job s)
finish_attempt now job (err (retryable f)) s =
    (err (retry f), update_job job.job_id (set_retry now f) s)
finish_attempt now job (err unexpected) s =
    (err (retry unexpected_error), update_job job.job_id (set_retry now unexpected_error) s)

-- An attempt: the count goes up and is committed before anything is sent.
unfoldable pub attempt : ℕ → Bool → Answer → PrintJob → Exec PrintState PrintError Outcome
unfolding finish_attempt
attempt now is_configured answer job s =
    let started = start_attempt job in
    let s' = update_job job.job_id start_attempt s in
    elim (order_of job s') [
      | none ↦ (err (give_up order_missing), fail_for_good order_missing started s')
      | some _ ↦ finish_attempt now started (dispatch is_configured answer) s'
    ]

-- `execute_print_job`
unfoldable pub execute_print_job :
    Settings → ℕ → Bool → Answer → ℕ → Exec PrintState PrintError Outcome
unfolding attempt
execute_print_job settings now is_configured answer job_id s = elim (get_job job_id s.print_jobs) [
  | none ↦ (ok no_such_job, s)
  | some job ↦
      if job.status is JobStatus.done
      then (ok already_done, s)
      else if leb settings.print_retry_max job.try_count
      then (let f = retry_limit settings.print_retry_max in
          (err (give_up f), fail_for_good f job s))
      else attempt now is_configured answer job s
]
