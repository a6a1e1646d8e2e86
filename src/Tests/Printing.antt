-- ===== src/Tests/Printing.antt =====
-- A print job that the printer refuses.
use naicha_backend.Database.{Db}
use naicha_backend.Models.Rows.{PrintJob, timed_out}
use naicha_backend.Payments.Records.{new_job}
use naicha_backend.Prelude.{
  List, [], arith, false, is_some, length, refl, some, true, ℕ, ◌∷◌, ◌≡◌, ◌≤◌,
}
use naicha_backend.PrintJobs.Enqueue.{Fallback}
use naicha_backend.PrintJobs.Execute.{
  PrintState, execute_print_job, get_job, order_of, set_retry, start_attempt,
}
use naicha_backend.PrintJobs.Execute.Attempts.{JobStep, Reaches}
use naicha_backend.PrintJobs.Execute.Ends.{IsFinal, execute_all, execute_all-ends}
use naicha_backend.PrintJobs.Execute.Row.{execute_print_job-row, row_after, verdict}
use naicha_backend.PrintJobs.Gateway.{Answer, answered, other_exception, timeout}
use naicha_backend.PrintJobs.Recover.{is_recoverable, recover_print_jobs}
use naicha_backend.PrintJobs.Recover.Selects.{recover_print_jobs-keeps}
use naicha_backend.Table.{find}
use naicha_backend.Tests.Data.{busy_db, shop_settings}

abbrev job : PrintJob
job = new_job 1 2

abbrev job_db : Db
job_db = record busy_db { print_jobs = job ∷ [] }

abbrev state : PrintState
state = record { db = job_db; broadcasts = [] }

found_job : get_job 1 state.print_jobs ≡ some job
unfolding find
found_job = refl

execute_print_job-row_example :
    get_job 1 (execute_print_job shop_settings 100 true (answered 503) 1 state).1.print_jobs
    ≡ some (
        row_after shop_settings 100
          (is_some (order_of job state))
          (verdict true (answered 503))
          job)
execute_print_job-row_example =
    execute_print_job-row shop_settings 100 true (answered 503) 1 state job found_job

-- A first attempt that times out.
abbrev once_failed : PrintJob
once_failed = set_retry 100 timed_out (start_attempt job)

reached : Reaches 2 job once_failed
reached =
    Reaches.steps job job once_failed (Reaches.stays job)
      (JobStep.retries job 100 timed_out refl (omega arith))

abbrev calls : List (ℕ × Answer)
calls = (100, timeout) ∷ (200, answered 503) ∷ (300, other_exception) ∷ []

execute_all-ends_example :
    (k : PrintJob) × (get_job 1 (execute_all shop_settings true 1 calls state).print_jobs ≡ some k)
    × IsFinal 2 k
execute_all-ends_example =
    execute_all-ends shop_settings true 1 calls state job found_job (omega arith) (omega arith)

-- A job that a worker has begun.
abbrev begun : PrintJob
begun = start_attempt job

abbrev begun_db : Db
begun_db = record busy_db { print_jobs = begun ∷ [] }

found_begun : find (λ (j : PrintJob). j.job_id) 1 begun_db.print_jobs ≡ some begun
unfolding find
found_begun = refl

begun_stays : is_recoverable 1000 begun ≡ false
unfolding is_recoverable
begun_stays = refl

recover_print_jobs-keeps_example :
    let (ids, db') = recover_print_jobs shop_settings 1000 5 begun_db in
    (length ids ≤ 5) × (find (λ (j : PrintJob). j.job_id) 1 db'.print_jobs ≡ some begun)
recover_print_jobs-keeps_example =
    recover_print_jobs-keeps shop_settings 1000 5 begun_db 1 begun (found_begun, tt) found_begun
      begun_stays

abbrev fallback : Fallback
fallback = record { limit = 2; running = 1 }
