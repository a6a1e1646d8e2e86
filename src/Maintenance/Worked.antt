-- ===== src/Maintenance/Worked.antt =====
-- What becomes of the jobs that are acquired and run.
use naicha_backend.Database.{Settings}
use naicha_backend.Exec.{Result-cases}
use naicha_backend.Maintenance.{
  MaintenanceJob, MaintenanceState, MaintenanceStatus, acquire_jobs, complete_job, execute_job,
  fail_job, run_job, run_jobs, start_job, start_jobs,
}
use naicha_backend.Prelude.{
  ==_iff, Bool-cases, List, Option, Option-cases, String, [], ap, arith, contains, false,
  if◌then◌else◌, inl, inr, is_some, length, length-take_le, refl, some, sym, true, ℕ, ◌==◌, ◌∷◌,
  ◌≡◌, ◌≤◌, ◌⊎◌,
}
use naicha_backend.Table.{find, find-update, is_some-inv, map_some}

abbrev pub job_by_id : ℕ → List MaintenanceJob → Option MaintenanceJob
job_by_id = find (λ (j : MaintenanceJob). j.job_id)

find-start_jobs :
    (now id : ℕ) (ids : List ℕ) (jobs : List MaintenanceJob)
    → job_by_id id (start_jobs now ids jobs)
      ≡ map_some (λ j. if contains id ids then start_job now j else j) (job_by_id id jobs)
unfolding start_jobs find
find-start_jobs now id ids [] = refl
find-start_jobs now id ids (j ∷ jobs) =
    let same : (j.job_id == id) ≡ true → contains j.job_id ids ≡ contains id ids =
      λ h. ap (λ k. contains k ids) ((==_iff j.job_id id).0 h) in
    ground (arith, same, find-start_jobs now id ids jobs)

-- The job has come to an end.
abbrev pub IsEnded : MaintenanceJob → Type 0
IsEnded j =
    ((j.status ≡ MaintenanceStatus.completed) ⊎ (j.status ≡ MaintenanceStatus.failed))
    × (is_some j.completed_at ≡ true)

-- No more jobs are acquired than the limit. The row of a job that is acquired is running, with its time
-- and one more attempt counted, and every other row stays as it was.
pub acquire_jobs-starts :
    (now limit id : ℕ) (job_type : Option String) (s : MaintenanceState)
    → let (ids, s') = acquire_jobs now job_type limit s in
      (length ids ≤ limit)
      × (job_by_id id s'.jobs
          ≡ map_some (λ j. if contains id ids then start_job now j else j) (job_by_id id s.jobs))
unfolding acquire_jobs
acquire_jobs-starts now limit id job_type s =
    (length-take_le limit _, find-start_jobs now id _ s.jobs)

IsEnded-already :
    {id k : ℕ} (j : MaintenanceJob) → (id ≡ k) ⊎ IsEnded j → (id == k) ≡ false → IsEnded j
IsEnded-already j (inl same) other = absurd (ground (arith, same, other))
IsEnded-already j (inr ended) other = ended

run_job-there :
    (settings : Settings) (now id k : ℕ) (s : MaintenanceState) (j : MaintenanceJob)
    → job_by_id k s.jobs ≡ some j
    → (j' : MaintenanceJob) × (job_by_id k (run_job settings now id s).jobs ≡ some j')
unfolding run_job
run_job-there settings now id k s j found =
    is_some-inv (job_by_id k (run_job settings now id s).jobs)
      (elim (Option-cases (job_by_id id s.jobs)) [
        | inl absent ↦ ground (arith, absent, found)
        | inr (x, there) ↦ elim (Result-cases (execute_job settings now x s.rows).0) [
          | inl (e, failed_) ↦ ground (
            arith,
            there,
            failed_,
            found,
            find-update (λ (j : MaintenanceJob). j.job_id) id k (fail_job now e) s.jobs (λ j. refl),
          )
          | inr (ids, done_) ↦ ground (
            arith,
            there,
            done_,
            found,
            find-update (λ (j : MaintenanceJob). j.job_id) id k (complete_job now ids) s.jobs
                (λ j. refl),
          )
        ]
      ])

run_job-IsEnded :
    (settings : Settings) (now id k : ℕ) (s : MaintenanceState) (j : MaintenanceJob)
    → job_by_id k s.jobs ≡ some j
    → (id ≡ k) ⊎ IsEnded j
    → (j' : MaintenanceJob) × (job_by_id k (run_job settings now id s).jobs ≡ some j') × IsEnded j'
unfolding run_job
run_job-IsEnded settings now id k s j found h = elim (Option-cases (job_by_id id s.jobs)) [
  | inl absent ↦ elim h [
    | inl same ↦ absurd (ground (arith, found, absent, same))
    | inr ended ↦ (j, ground (arith, absent, found), ended)
  ]
  | inr (x, there) ↦ elim (Result-cases (execute_job settings now x s.rows).0) [
    | inl (e, failed_) ↦
        (let moved =
            find-update (λ (j : MaintenanceJob). j.job_id) id k (fail_job now e) s.jobs
              (λ j. refl) in
          elim (Bool-cases (id == k)) [
            | inl same ↦ (
              fail_job now e j,
              ground (arith, there, failed_, found, moved, same),
              (inr refl, refl),
            )
            | inr other ↦
                (j, ground (arith, there, failed_, found, moved, other), IsEnded-already j h other)
          ])
    | inr (ids, done_) ↦
        (let moved =
            find-update (λ (j : MaintenanceJob). j.job_id) id k (complete_job now ids) s.jobs
              (λ j. refl) in
          elim (Bool-cases (id == k)) [
            | inl same ↦ (
              complete_job now ids j,
              ground (arith, there, done_, found, moved, same),
              (inl refl, refl),
            )
            | inr other ↦
                (j, ground (arith, there, done_, found, moved, other), IsEnded-already j h other)
          ])
  ]
]

run_jobs-keeps_IsEnded :
    (settings : Settings) (now k : ℕ) (ids : List ℕ) (s : MaintenanceState) (j : MaintenanceJob)
    → job_by_id k s.jobs ≡ some j
    → IsEnded j
    → (j' : MaintenanceJob) × (job_by_id k (run_jobs settings now ids s).jobs ≡ some j')
      × IsEnded j'
unfolding run_jobs
run_jobs-keeps_IsEnded settings now k [] s j found h = (j, found, h)
run_jobs-keeps_IsEnded settings now k (id ∷ ids) s j found h =
    let (j', found', ended) = run_job-IsEnded settings now id k s j found (inr h) in
    run_jobs-keeps_IsEnded settings now k ids (run_job settings now id s) j' found' ended

-- After `run_jobs`, every job that is in the table and among the given ones has come to an end: it is
-- completed or failed, with the time of its end.
pub run_jobs-ends :
    (settings : Settings) (now k : ℕ) (ids : List ℕ) (s : MaintenanceState) (j : MaintenanceJob)
    → job_by_id k s.jobs ≡ some j
    → contains k ids ≡ true
    → (j' : MaintenanceJob) × (job_by_id k (run_jobs settings now ids s).jobs ≡ some j')
      × IsEnded j'
unfolding run_jobs
run_jobs-ends settings now k [] s j found named = absurd (ground arith)
run_jobs-ends settings now k (id ∷ ids) s j found named = elim (Bool-cases (k == id)) [
  | inl here ↦
      (let (j', found', ended) =
          run_job-IsEnded settings now id k s j found (inl (sym ((==_iff k id).0 here))) in
        run_jobs-keeps_IsEnded settings now k ids (run_job settings now id s) j' found' ended)
  | inr there ↦
      (let (j', found') = run_job-there settings now id k s j found in
        run_jobs-ends settings now k ids (run_job settings now id s) j' found'
          (ground (arith, there)))
]
