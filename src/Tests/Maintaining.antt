-- ===== src/Tests/Maintaining.antt =====
-- A job that cancels stale orders is enqueued, acquired and run.
use naicha_backend.Maintenance.{
  JobPayload, MaintenanceJob, MaintenanceState, new_maintenance_job, run_jobs, start_job,
}
use naicha_backend.Maintenance.Worked.{IsEnded, job_by_id, run_jobs-ends}
use naicha_backend.Prelude.{String, [], none, refl, some, ◌∷◌, ◌≡◌}
use naicha_backend.Table.{find}
use naicha_backend.Tests.Data.{busy_db, shop_settings}

abbrev payload : JobPayload
payload = record { limit = some 5; cutoff_minutes = some 1; reason = none }

abbrev cleanup : String
cleanup = "cancel_stale_pending_orders"

abbrev start : MaintenanceState
start = record { rows = busy_db; jobs = []; next_job_id = 1 }

abbrev waiting : MaintenanceState
waiting = record start { jobs = new_maintenance_job 1 cleanup payload 50 ∷ []; next_job_id = 2 }

abbrev started : MaintenanceJob
started = start_job 60 (new_maintenance_job 1 cleanup payload 50)

abbrev acquired : MaintenanceState
acquired = record waiting { jobs = started ∷ [] }

found_started : job_by_id 1 acquired.jobs ≡ some started
unfolding find
found_started = refl

run_jobs-ends_example :
    (j' : MaintenanceJob) × (job_by_id 1 (run_jobs shop_settings 90000000 (1 ∷ []) acquired).jobs
      ≡ some j')
    × IsEnded j'
run_jobs-ends_example =
    run_jobs-ends shop_settings 90000000 1 (1 ∷ []) acquired started found_started refl
