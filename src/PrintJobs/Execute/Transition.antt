-- ===== src/PrintJobs/Execute/Transition.antt =====
-- What `execute_print_job` does to one job, on its own.
use naicha_backend.Database.{Settings}
use naicha_backend.Exec.{Result, err, ok}
use naicha_backend.Models.{JobStatus, job_status_tagged, ◌is◌}
use naicha_backend.Models.Rows.{JobFailure, PrintJob, order_missing, retry_limit, unexpected_error}
use naicha_backend.Prelude.{
  Bool, ap, arith, false, if◌then◌else◌, is_some, leb, refl, some, true, ℕ, ◌∙◌, ◌≡◌,
}
use naicha_backend.PrintJobs.Execute.{
  PrintState, attempt, execute_print_job, fail_for_good, finish_attempt, get_job, order_of,
  set_done, set_failed, set_retry, start_attempt, update_job,
}
use naicha_backend.PrintJobs.Gateway.{
  Answer, DispatchError, dispatch, non_retryable, retryable, unexpected,
}
use naicha_backend.Table.{find-update, key-find}

-- The job after an attempt, from whether its order exists and what the gateway did.
unfoldable pub after_attempt : ℕ → Bool → Result DispatchError (Unit {0}) → PrintJob → PrintJob
after_attempt now false sent job = set_failed order_missing (start_attempt job)
after_attempt now true (ok _) job = set_done now (start_attempt job)
after_attempt now true (err (non_retryable f)) job = set_failed f (start_attempt job)
after_attempt now true (err (retryable f)) job = set_retry now f (start_attempt job)
after_attempt now true (err unexpected) job = set_retry now unexpected_error (start_attempt job)

-- The job after a call.
unfoldable pub next_job :
    Settings → ℕ → Bool → Result DispatchError (Unit {0}) → PrintJob → PrintJob
unfolding after_attempt
next_job settings now has_order sent job =
    if job.status is JobStatus.done
    then job
    else if leb settings.print_retry_max job.try_count
    then set_failed (retry_limit settings.print_retry_max) job
    else after_attempt now has_order sent job

get_job-update_job :
    (id : ℕ) (f : PrintJob → PrintJob) (s : PrintState) (job : PrintJob)
    → ((j : PrintJob) → (f j).job_id ≡ j.job_id)
    → get_job id s.print_jobs ≡ some job
    → get_job id (update_job id f s).print_jobs ≡ some (f job)
get_job-update_job id f s job key found =
    ground (arith, found, find-update (λ (j : PrintJob). j.job_id) id id f s.print_jobs key)

get_job-fail_for_good :
    (f : JobFailure) (job : PrintJob) (s : PrintState) (old : PrintJob)
    → get_job job.job_id s.print_jobs ≡ some old
    → get_job job.job_id (fail_for_good f job s).print_jobs ≡ some (set_failed f old)
unfolding fail_for_good
get_job-fail_for_good f job s old found =
    get_job-update_job job.job_id (set_failed f) s old (λ j. refl) found

get_job-finish_attempt :
    (now : ℕ) (job : PrintJob) (sent : Result DispatchError (Unit {0})) (s : PrintState)
    → get_job job.job_id s.print_jobs ≡ some (start_attempt job)
    → get_job job.job_id (finish_attempt now (start_attempt job) sent s).1.print_jobs
      ≡ some (after_attempt now true sent job)
unfolding finish_attempt after_attempt
get_job-finish_attempt now job (ok _) s found =
    get_job-update_job job.job_id (set_done now) s (start_attempt job) (λ j. refl) found
get_job-finish_attempt now job (err (non_retryable f)) s found =
    get_job-fail_for_good f (start_attempt job) s (start_attempt job) found
get_job-finish_attempt now job (err (retryable f)) s found =
    get_job-update_job job.job_id (set_retry now f) s (start_attempt job) (λ j. refl) found
get_job-finish_attempt now job (err unexpected) s found =
    get_job-update_job job.job_id (set_retry now unexpected_error) s (start_attempt job) (λ j. refl)
      found

-- A call of `execute_print_job` takes its job to the next one: it counts an attempt just if it is
-- not done, has attempts left, and then ends as printed, failed for good or failed with a retry.
pub execute_print_job-next :
    (settings : Settings) (now : ℕ) (is_configured : Bool) (answer : Answer) (id : ℕ)
    (s : PrintState) (job : PrintJob)
    → get_job id s.print_jobs ≡ some job
    → get_job id (execute_print_job settings now is_configured answer id s).1.print_jobs
      ≡ some (next_job settings now (is_some (order_of job s)) (dispatch is_configured answer) job)
unfolding execute_print_job attempt next_job after_attempt
execute_print_job-next settings now is_configured answer id s job found =
    let key : job.job_id ≡ id = key-find (λ (j : PrintJob). j.job_id) id s.print_jobs found in
    let here : get_job job.job_id s.print_jobs ≡ some job =
      ap (λ i. get_job i s.print_jobs) key ∙ found in
    let started = start_attempt job in
    let s' = update_job job.job_id start_attempt s in
    let begun : get_job job.job_id s'.print_jobs ≡ some started =
      get_job-update_job job.job_id start_attempt s job (λ j. refl) here in
    let limit = get_job-fail_for_good (retry_limit settings.print_retry_max) job s job here in
    let missing_order = get_job-fail_for_good order_missing started s' started begun in
    let sent = get_job-finish_attempt now job (dispatch is_configured answer) s' begun in
    ground (arith, key, limit, missing_order, sent)

execute_print_job-orders :
    (settings : Settings) (now : ℕ) (is_configured : Bool) (answer : Answer) (id : ℕ)
    (s : PrintState)
    → (execute_print_job settings now is_configured answer id s).1.orders ≡ s.orders
unfolding execute_print_job attempt finish_attempt fail_for_good
execute_print_job-orders settings now is_configured answer id s = ground arith
