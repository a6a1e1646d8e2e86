-- ===== src/Maintenance/Enqueued.antt =====
-- `enqueue_job` keeps at most one waiting job of a type.
use naicha_backend.Maintenance.{
  JobPayload, MaintenanceJob, MaintenanceState, enqueue_job, find_waiting, is_waiting,
  new_maintenance_job, or_now,
}
use naicha_backend.Prelude.{
  Bool-cases, List, Option, Option-cases, String, [], arith, eq_iff, false, if◌then◌else◌, inl, inr,
  none, refl, some, str_eq, subst, true, ℕ, ◌++◌, ◌+◌, ◌∷◌, ◌≡◌, ◌≤◌,
}

-- How many jobs of a type wait.
abbrev pub waiting_jobs : String → List MaintenanceJob → ℕ
waiting_jobs job_type [] = 0
waiting_jobs job_type (j ∷ js) = (if is_waiting job_type j then 1 else 0) + waiting_jobs job_type js

waiting_jobs-append :
    (t : String) (js : List MaintenanceJob) (j : MaintenanceJob)
    → waiting_jobs t (js ++ j ∷ []) ≡ waiting_jobs t js + waiting_jobs t (j ∷ [])
waiting_jobs-append t [] j = ground arith
waiting_jobs-append t (x ∷ js) j = ground (arith, waiting_jobs-append t js j)

find_waiting-none :
    (t : String) (js : List MaintenanceJob) → find_waiting t js ≡ none → waiting_jobs t js ≡ 0
unfolding find_waiting
find_waiting-none t [] e = refl
find_waiting-none t (j ∷ js) e = ground (arith, find_waiting-none t js)

find_waiting-some :
    (t : String) (js : List MaintenanceJob) (j : MaintenanceJob)
    → find_waiting t js ≡ some j
    → 1 ≤ waiting_jobs t js
unfolding find_waiting
find_waiting-some t [] j e = absurd (ground arith)
find_waiting-some t (x ∷ js) j e = ground (arith, find_waiting-some t js j)

one_waiting :
    (id at : ℕ) (t : String) (payload : JobPayload)
    → waiting_jobs t (new_maintenance_job id t payload at ∷ []) ≡ 1
one_waiting id at t payload =
    let same : str_eq t t ≡ true = (eq_iff t t).1 refl in ground (arith, same)

other_waiting :
    (id at : ℕ) (t u : String) (payload : JobPayload)
    → str_eq t u ≡ false
    → waiting_jobs u (new_maintenance_job id t payload at ∷ []) ≡ 0
other_waiting id at t u payload h = ground arith

-- If at most one job of each type waits, that stays so when a job is enqueued, and a job of the type
-- that was asked for waits afterwards.
pub enqueue_job-single :
    (now : ℕ) (t u : String) (payload : JobPayload) (run_after : Option ℕ) (s : MaintenanceState)
    → waiting_jobs u s.jobs ≤ 1
    → let s' = (enqueue_job now t payload run_after s).1 in
      (waiting_jobs u s'.jobs ≤ 1) × (1 ≤ waiting_jobs t s'.jobs)
unfolding enqueue_job
enqueue_job-single now t u payload run_after s h =
    let at = or_now now run_after in
    let new = new_maintenance_job s.next_job_id t payload at in
    elim (Option-cases (find_waiting t s.jobs)) [
      | inr (j, found) ↦
          (ground (arith, found, h), ground (arith, found, find_waiting-some t s.jobs j found))
      | inl absent ↦
          (let mine = one_waiting s.next_job_id at t payload in
            let mine_after = waiting_jobs-append t s.jobs new in
            let before = find_waiting-none t s.jobs absent in
            (
              elim (Bool-cases (str_eq t u)) [
                | inl same ↦
                    subst (λ v. waiting_jobs v (enqueue_job now t payload run_after s).1.jobs ≤ 1)
                      ((eq_iff t u).0 same) (ground (arith, absent, mine, mine_after, before))
                | inr different ↦ ground (
                  arith,
                  absent,
                  h,
                  waiting_jobs-append u s.jobs new,
                  other_waiting s.next_job_id at t u payload different,
                )
              ],
              ground (arith, absent, mine, mine_after, before),
            ))
    ]
