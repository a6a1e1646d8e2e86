-- ===== src/PrintJobs/Enqueue/Slots.antt =====
-- The local fallback never runs more jobs than its limit.
use naicha_backend.Prelude.{Bool, arith, false, if◌then◌else◌, true, ◌+◌, ◌≡◌, ◌≤◌, ◌⊎◌}
use naicha_backend.PrintJobs.Enqueue.{
  DispatchMode, Enqueued, Fallback, by_celery, by_local, dispatch_local, dropped, enqueue_print_job,
  finish_local,
}

abbrev pub is_local : Enqueued → Bool
is_local by_celery = false
is_local by_local = true
is_local dropped = false

abbrev pub is_dropped : Enqueued → Bool
is_dropped by_celery = false
is_dropped by_local = false
is_dropped dropped = true

-- Within the limit of the fallback, a call that enqueues a job stays within it and takes one place
-- just if the job runs locally; the end of that job gives the place back. With the fallback allowed,
-- a job is dropped only if all places are taken.
pub enqueue_print_job-within :
    (mode : DispatchMode) (celery_accepts : Bool) (f : Fallback)
    → f.running ≤ f.limit
    → let (how, f') = enqueue_print_job mode celery_accepts f in
      (f'.limit ≡ f.limit)
      × (f'.running ≤ f'.limit)
      × (f'.running ≡ f.running + (if is_local how then 1 else 0))
      × ((is_local how ≡ false) ⊎ (finish_local f' ≡ f))
      × ((is_dropped how ≡ false) ⊎ (mode ≡ DispatchMode.celery) ⊎ (f.running ≡ f.limit))
unfolding enqueue_print_job dispatch_local finish_local
enqueue_print_job-within DispatchMode.celery celery_accepts f h = ground arith
enqueue_print_job-within DispatchMode.celery_with_local_fallback celery_accepts f h = ground arith
enqueue_print_job-within DispatchMode.local_only celery_accepts f h = ground arith
