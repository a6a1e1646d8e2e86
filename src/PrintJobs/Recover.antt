-- ===== src/PrintJobs/Recover.antt =====
-- `recover_print_jobs` of app/workers/print_jobs.py: one UPDATE over the jobs that are due.
pub mod Selects
use naicha_backend.Database.{Db, Settings, second}
use naicha_backend.Models.{JobStatus, job_status_tagged, ◌is◌}
use naicha_backend.Models.Rows.{PrintJob}
use naicha_backend.Prelude.{
  Bool, List, Option, [], contains, if◌then◌else◌, is_some, leb, map, max, none, select, some,
  sort_by, take, true, ℕ, ◌&&◌, ◌*◌, ◌+◌, ◌||◌, ◌∷◌,
}

abbrev not_after : ℕ → Option ℕ → Bool
not_after now none = true
not_after now (some t) = leb t now

-- `conditions`
unfoldable pub is_recoverable : ℕ → PrintJob → Bool
is_recoverable now j =
    ((j.status is JobStatus.pending) || (j.status is JobStatus.failed) && is_some j.next_try_at)
    && not_after now j.next_try_at

-- The order of the candidates: no time first, then by time.
abbrev pub rank : PrintJob → ℕ
rank j = elim j.next_try_at [ none ↦ 0 | some t ↦ t + 1 ]

-- `candidate_stmt`
unfoldable pub recovery_candidates : ℕ → ℕ → List PrintJob → List ℕ
unfolding is_recoverable
recovery_candidates now limit jobs = take limit (
    map (λ j. j.job_id) (sort_by rank (sort_by (λ j. j.job_id) (select (is_recoverable now) jobs))))

-- The values that the UPDATE writes.
unfoldable pub recover_job : ℕ → PrintJob → PrintJob
recover_job next_try j = record j {
  next_try_at = some next_try;
  status = if j.status is JobStatus.failed then JobStatus.pending else j.status;
}

unfoldable pub recover_jobs : ℕ → List ℕ → List PrintJob → List PrintJob
unfolding recover_job
recover_jobs next_try ids [] = []
recover_jobs next_try ids (j ∷ js) =
    (if contains j.job_id ids then recover_job next_try j else j) ∷ recover_jobs next_try ids js

-- `recover_print_jobs`; the ids are sorted. A limit of zero recovers nothing.
unfoldable pub recover_print_jobs : Settings → ℕ → ℕ → Db → List ℕ × Db
unfolding recovery_candidates recover_jobs
recover_print_jobs settings now limit db =
    let next_try = now + max settings.print_recovery_interval_seconds 1 * second in
    if leb limit 0
    then ([], db)
    else (let ids = recovery_candidates now limit db.print_jobs in
        (
          sort_by (λ id. id) ids,
          record db { print_jobs = recover_jobs next_try ids db.print_jobs },
        ))
