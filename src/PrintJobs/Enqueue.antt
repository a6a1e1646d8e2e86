-- ===== src/PrintJobs/Enqueue.antt =====
-- `enqueue_print_job`, `_acquire_fallback_slot` and `_dispatch_local` of app/workers/__init__.py.
pub mod Slots
use naicha_backend.Prelude.{Bool, if◌then◌else◌, ltb, ℕ, ◌+◌, ◌-◌, ◌==◌}

-- PRINT_DISPATCH_MODE
pub data DispatchMode : Type 0 where
  celery celery_with_local_fallback local_only : DispatchMode

pub data Enqueued : Type 0 where
  by_celery by_local dropped : Enqueued

-- The bounded semaphore of the local fallback: its limit, and how many jobs hold it.
pub record Fallback : Type 0 where
  pub limit : ℕ
  pub running : ℕ

-- `_dispatch_local` behind `_acquire_fallback_slot`.
unfoldable pub dispatch_local : Fallback → Enqueued × Fallback
dispatch_local f =
    if f.limit == 0
    then (dropped, f)
    else if ltb f.running f.limit
    then (by_local, record f { running = f.running + 1 })
    else (dropped, f)

-- `enqueue_print_job`, where `celery_accepts` says whether `apply_async` returned.
unfoldable pub enqueue_print_job : DispatchMode → Bool → Fallback → Enqueued × Fallback
unfolding dispatch_local
enqueue_print_job DispatchMode.celery celery_accepts f =
    if celery_accepts then (by_celery, f) else (dropped, f)
enqueue_print_job DispatchMode.celery_with_local_fallback celery_accepts f =
    if celery_accepts then (by_celery, f) else dispatch_local f
enqueue_print_job DispatchMode.local_only celery_accepts f = dispatch_local f

-- The end of a local job: `semaphore.release()`.
unfoldable pub finish_local : Fallback → Fallback
finish_local f = record f { running = f.running - 1 }
