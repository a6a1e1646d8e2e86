-- ===== src/PrintJobs/Execute/Row.antt =====
-- The row of a print job after a call of `execute_print_job`, column by column.
use naicha_backend.Database.{Settings, second}
use naicha_backend.Models.{JobStatus, job_status_tagged, ◌is◌}
use naicha_backend.Models.Rows.{
  JobFailure, PrintJob, client_error, order_missing, retry_limit, server_error, timed_out,
  transport_error, unexpected_error,
}
use naicha_backend.Prelude.{
  Bool, ap, arith, false, if◌then◌else◌, is_some, ltb, min, none, refl, some, true, ℕ, ◌*◌, ◌+◌,
  ◌-◌, ◌^◌, ◌∙◌, ◌≡◌,
}
use naicha_backend.PrintJobs.Execute.{
  PrintState, execute_print_job, get_job, next_retry_delay, order_of, set_retry, start_attempt,
}
use naicha_backend.PrintJobs.Execute.Transition.{after_attempt, execute_print_job-next, next_job}
use naicha_backend.PrintJobs.Gateway.{
  Answer, answered, dispatch, other_exception, timeout, transport_failure,
}

-- What an answer of the printer means: it took the job, it refused it, or the call may be repeated.
pub data Verdict : Type 0 where
  accepts : Verdict
  refuses again : JobFailure → Verdict

-- The 4xx and what is beyond 599 are final, the 5xx and everything without an answer are not.
abbrev pub verdict : Bool → Answer → Verdict
verdict false answer = accepts
verdict true timeout = again timed_out
verdict true transport_failure = again transport_error
verdict true other_exception = again unexpected_error
verdict true (answered status) =
    if ltb status 400
    then accepts
    else if ltb status 500
    then refuses (client_error status)
    else if ltb status 600
    then again (server_error status)
    else refuses (client_error status)

-- The row after an attempt, from whether the order is there.
unfoldable pub attempted_row : ℕ → Bool → Verdict → PrintJob → PrintJob
attempted_row now false v j = record {
  job_id = j.job_id;
  order_id = j.order_id;
  status = JobStatus.failed;
  try_count = j.try_count + 1;
  next_try_at = none;
  last_error = some order_missing;
  printed_at = j.printed_at;
}
attempted_row now true accepts j = record {
  job_id = j.job_id;
  order_id = j.order_id;
  status = JobStatus.done;
  try_count = j.try_count + 1;
  next_try_at = none;
  last_error = none;
  printed_at = some now;
}
attempted_row now true (refuses f) j = record {
  job_id = j.job_id;
  order_id = j.order_id;
  status = JobStatus.failed;
  try_count = j.try_count + 1;
  next_try_at = none;
  last_error = some f;
  printed_at = j.printed_at;
}
attempted_row now true (again f) j = record {
  job_id = j.job_id;
  order_id = j.order_id;
  status = JobStatus.failed;
  try_count = j.try_count + 1;
  next_try_at = some (now + min (2 ^ j.try_count) 900 * second);
  last_error = some f;
  printed_at = j.printed_at;
}

abbrev pub exhausted_row : ℕ → PrintJob → PrintJob
exhausted_row retry_max j = record {
  job_id = j.job_id;
  order_id = j.order_id;
  status = JobStatus.failed;
  try_count = j.try_count;
  next_try_at = none;
  last_error = some (retry_limit retry_max);
  printed_at = j.printed_at;
}

-- The row of a job after a call.
abbrev pub row_after : Settings → ℕ → Bool → Verdict → PrintJob → PrintJob
row_after settings now has_order v j =
    if j.status is JobStatus.done
    then j
    else if ltb j.try_count settings.print_retry_max
    then attempted_row now has_order v j
    else exhausted_row settings.print_retry_max j

again_row :
    (now : ℕ) (f : JobFailure) (j : PrintJob)
    → set_retry now f (start_attempt j) ≡ attempted_row now true (again f) j
unfolding next_retry_delay attempted_row
again_row now f j =
    let before : j.try_count + 1 - 1 ≡ j.try_count = omega arith in
    ap
      (λ n. record (set_retry now f (start_attempt j)) {
        next_try_at = some (now + min (2 ^ n) 900 * second);
      })
      before

attempted :
    (now : ℕ) (has_order is_configured : Bool) (answer : Answer) (j : PrintJob)
    → after_attempt now has_order (dispatch is_configured answer) j
      ≡ attempted_row now has_order (verdict is_configured answer) j
unfolding after_attempt next_retry_delay dispatch attempted_row
attempted now false is_configured answer j = refl
attempted now true false answer j = refl
attempted now true true timeout j = again_row now timed_out j
attempted now true true transport_failure j = again_row now transport_error j
attempted now true true other_exception j = again_row now unexpected_error j
attempted now true true (answered status) j = ground (arith, again_row now (server_error status) j)

next_job-row_after :
    (settings : Settings) (now : ℕ) (has_order is_configured : Bool) (answer : Answer)
    (j : PrintJob)
    → next_job settings now has_order (dispatch is_configured answer) j
      ≡ row_after settings now has_order (verdict is_configured answer) j
unfolding next_job
next_job-row_after settings now has_order is_configured answer j =
    ground (arith, attempted now has_order is_configured answer j)

-- A call of `execute_print_job` leaves its job, by the columns, as it was if it was done; as failed with
-- no attempts left if it had none; and else with one more attempt: failed for good without its order
-- or where the printer refuses it, printed at that time where the printer takes it, and failed with a
-- next time, after 2 to the power of the attempts before, in seconds, but 900 at most, otherwise.
pub execute_print_job-row :
    (settings : Settings) (now : ℕ) (is_configured : Bool) (answer : Answer) (id : ℕ)
    (s : PrintState) (job : PrintJob)
    → get_job id s.print_jobs ≡ some job
    → get_job id (execute_print_job settings now is_configured answer id s).1.print_jobs
      ≡ some (row_after settings now (is_some (order_of job s)) (verdict is_configured answer) job)
execute_print_job-row settings now is_configured answer id s job found =
    execute_print_job-next settings now is_configured answer id s job found
    ∙ ap some (next_job-row_after settings now (is_some (order_of job s)) is_configured answer job)
