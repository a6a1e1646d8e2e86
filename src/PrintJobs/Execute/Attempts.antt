-- ===== src/PrintJobs/Execute/Attempts.antt =====
-- The attempts of a print job: a state machine, its bound, and its end.
use naicha_backend.Database.{Settings}
use naicha_backend.Exec.{Result, err, ok}
use naicha_backend.Models.{JobStatus, is_iff, job_status_tagged, ◌is◌}
use naicha_backend.Models.Rows.{JobFailure, PrintJob, order_missing, retry_limit, unexpected_error}
use naicha_backend.Payments.Records.{new_job}
use naicha_backend.Prelude.{
  Bool, Bool-cases, arith, false, inl, inr, is_some, leb, leb→le, some, true, ℕ, ◌<◌, ◌≡◌, ◌≤◌,
}
use naicha_backend.PrintJobs.Execute.{
  PrintState, execute_print_job, get_job, order_of, set_done, set_failed, set_retry, start_attempt,
}
use naicha_backend.PrintJobs.Execute.Transition.{after_attempt, execute_print_job-next, next_job}
use naicha_backend.PrintJobs.Gateway.{
  Answer, DispatchError, dispatch, non_retryable, retryable, unexpected,
}

-- The job is not done.
abbrev pub IsOpen : PrintJob → Type 0
IsOpen j = (j.status is JobStatus.done) ≡ false

-- The steps that a job may take, with the limit on its attempts.
pub data JobStep (retry_max : ℕ) : PrintJob → PrintJob → Type 0 where
  rests : (j : PrintJob) → j.status ≡ JobStatus.done → JobStep retry_max j j
  exhausts :
      (j : PrintJob) (f : JobFailure)
      → IsOpen j
      → retry_max ≤ j.try_count
      → JobStep retry_max j (set_failed f j)
  prints :
      (j : PrintJob) (now : ℕ)
      → IsOpen j
      → j.try_count < retry_max
      → JobStep retry_max j (set_done now (start_attempt j))
  fails :
      (j : PrintJob) (f : JobFailure)
      → IsOpen j
      → j.try_count < retry_max
      → JobStep retry_max j (set_failed f (start_attempt j))
  retries :
      (j : PrintJob) (now : ℕ) (f : JobFailure)
      → IsOpen j
      → j.try_count < retry_max
      → JobStep retry_max j (set_retry now f (start_attempt j))

pub data Reaches (retry_max : ℕ) : PrintJob → PrintJob → Type 0 where
  stays : (j : PrintJob) → Reaches retry_max j j
  steps : (j k l : PrintJob) → Reaches retry_max j k → JobStep retry_max k l → Reaches retry_max j l

pub JobStep-bounded :
    {m : ℕ} {j k : PrintJob}
    → JobStep m j k
    → j.try_count ≤ m
    → (j.try_count ≤ k.try_count) × (k.try_count ≤ m)
JobStep-bounded (JobStep.rests j d) h = ground arith
JobStep-bounded (JobStep.exhausts j f open_ full) h = ground arith
JobStep-bounded (JobStep.prints j now open_ left) h = ground arith
JobStep-bounded (JobStep.fails j f open_ left) h = ground arith
JobStep-bounded (JobStep.retries j now f open_ left) h = ground arith

from_start : (m : ℕ) (j k : PrintJob) → Reaches m j k → j.try_count ≤ m → k.try_count ≤ m
from_start m j k (Reaches.stays _) h = h
from_start m j l (Reaches.steps _ k _ r step) h = (JobStep-bounded step (from_start m j k r h)).1

after_attempt-JobStep :
    (m now : ℕ) (has_order : Bool) (sent : Result DispatchError (Unit {0})) (j : PrintJob)
    → IsOpen j
    → j.try_count < m
    → JobStep m j (after_attempt now has_order sent j)
unfolding after_attempt
after_attempt-JobStep m now false sent j open_ left = JobStep.fails j order_missing open_ left
after_attempt-JobStep m now true (ok _) j open_ left = JobStep.prints j now open_ left
after_attempt-JobStep m now true (err (non_retryable f)) j open_ left = JobStep.fails j f open_ left
after_attempt-JobStep m now true (err (retryable f)) j open_ left =
    JobStep.retries j now f open_ left
after_attempt-JobStep m now true (err unexpected) j open_ left =
    JobStep.retries j now unexpected_error open_ left

next_job-JobStep :
    (settings : Settings) (now : ℕ) (has_order : Bool) (sent : Result DispatchError (Unit {0}))
    (j : PrintJob)
    → JobStep settings.print_retry_max j (next_job settings now has_order sent j)
unfolding next_job
next_job-JobStep settings now has_order sent j = elim (Bool-cases (j.status is JobStatus.done)) [
  | inl over ↦ rw over (JobStep.rests j ((is_iff j.status JobStatus.done).0 over))
  | inr open_ ↦ elim (Bool-cases (leb settings.print_retry_max j.try_count)) [
    | inl full ↦
        rw (open_, full)
          (JobStep.exhausts j (retry_limit settings.print_retry_max) open_
            (leb→le settings.print_retry_max j.try_count full))
    | inr left ↦
        rw (open_, left)
          (after_attempt-JobStep settings.print_retry_max now has_order sent j open_ (ground arith))
  ]
]

-- A call of `execute_print_job` takes a job that is in the table by one step of the machine.
pub execute_print_job-JobStep :
    (settings : Settings) (now : ℕ) (is_configured : Bool) (answer : Answer) (id : ℕ)
    (s : PrintState) (j : PrintJob)
    → get_job id s.print_jobs ≡ some j
    → (k : PrintJob) × (get_job id
          (execute_print_job settings now is_configured answer id s).1.print_jobs
        ≡ some k)
      × JobStep settings.print_retry_max j k
execute_print_job-JobStep settings now is_configured answer id s j found =
    let has_order = is_some (order_of j s) in
    (
      next_job settings now has_order (dispatch is_configured answer) j,
      execute_print_job-next settings now is_configured answer id s j found,
      next_job-JobStep settings now has_order (dispatch is_configured answer) j,
    )

-- A job that a new one has reached by any number of steps has been attempted at most as often as the
-- settings allow.
pub Reaches-bounded :
    (retry_max job_id order_id : ℕ) (k : PrintJob)
    → Reaches retry_max (new_job job_id order_id) k
    → k.try_count ≤ retry_max
Reaches-bounded m job_id order_id k r = from_start m (new_job job_id order_id) k r (omega arith)
