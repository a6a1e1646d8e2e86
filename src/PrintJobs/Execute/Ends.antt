-- ===== src/PrintJobs/Execute/Ends.antt =====
-- Calls of `execute_print_job` for one job come to an end.
use naicha_backend.Database.{Settings}
use naicha_backend.Models.{JobStatus}
use naicha_backend.Models.Rows.{PrintJob}
use naicha_backend.Prelude.{
  Bool, List, [], arith, inl, inr, length, min, none, refl, some, suc, zero, ℕ, ◌+◌, ◌-◌, ◌<◌, ◌^◌,
  ◌∷◌, ◌≡◌, ◌≤◌, ◌⊎◌,
}
use naicha_backend.PrintJobs.Execute.{PrintState, execute_print_job, get_job, next_retry_delay}
use naicha_backend.PrintJobs.Execute.Attempts.{
  IsOpen, JobStep, JobStep-bounded, execute_print_job-JobStep,
}
use naicha_backend.PrintJobs.Gateway.{Answer}

-- Calls one after the other, each with its time and the printer's answer.
unfoldable pub execute_all : Settings → Bool → ℕ → List (ℕ × Answer) → PrintState → PrintState
execute_all settings is_configured id [] s = s
execute_all settings is_configured id ((now, answer) ∷ calls) s =
    execute_all settings is_configured id calls
      (execute_print_job settings now is_configured answer id s).1

-- The job is done, or has failed for good with its attempts used up.
abbrev pub IsFinal : ℕ → PrintJob → Type 0
IsFinal retry_max j =
    (j.status ≡ JobStatus.done)
    ⊎ ((j.status ≡ JobStatus.failed) × (j.next_try_at ≡ none) × (retry_max ≤ j.try_count))

used_up : {m : ℕ} (j : PrintJob) → IsOpen j → j.try_count < m → IsFinal m j → ⊥
used_up j open_ left (inl over) = ground (arith, over)
used_up j open_ left (inr (_, _, full)) = omega (arith, left, full)

JobStep-IsFinal : {m : ℕ} {j k : PrintJob} → JobStep m j k → IsFinal m j → IsFinal m k
JobStep-IsFinal (JobStep.rests j d) h = h
JobStep-IsFinal (JobStep.exhausts j f open_ full) h = inr (refl, refl, full)
JobStep-IsFinal (JobStep.prints j now open_ left) h = inl refl
JobStep-IsFinal (JobStep.fails j f open_ left) h = absurd (used_up j open_ left h)
JobStep-IsFinal (JobStep.retries j now f open_ left) h = absurd (used_up j open_ left h)

JobStep-advances :
    {m : ℕ} {j k : PrintJob} → JobStep m j k → IsFinal m k ⊎ (k.try_count ≡ suc j.try_count)
JobStep-advances (JobStep.rests j d) = inl (inl d)
JobStep-advances (JobStep.exhausts j f open_ full) = inl (inr (refl, refl, full))
JobStep-advances (JobStep.prints j now open_ left) = inl (inl refl)
JobStep-advances (JobStep.fails j f open_ left) = inr (omega arith)
JobStep-advances (JobStep.retries j now f open_ left) = inr (omega arith)

execute_all-IsFinal :
    (settings : Settings) (is_configured : Bool) (id : ℕ) (calls : List (ℕ × Answer))
    (s : PrintState) (j : PrintJob)
    → get_job id s.print_jobs ≡ some j
    → IsFinal settings.print_retry_max j
    → (k : PrintJob) × (get_job id (execute_all settings is_configured id calls s).print_jobs
        ≡ some k)
      × IsFinal settings.print_retry_max k
unfolding execute_all
execute_all-IsFinal settings is_configured id [] s j found h = (j, found, h)
execute_all-IsFinal settings is_configured id ((now, answer) ∷ calls) s j found h =
    let (k, found', step) =
      execute_print_job-JobStep settings now is_configured answer id s j found in
    execute_all-IsFinal settings is_configured id calls
      (execute_print_job settings now is_configured answer id s).1 k found' (JobStep-IsFinal step h)

-- However the printer answers, a job that has been called for more often than it had attempts left is
-- done, or has failed for good with its attempts used up.
pub execute_all-ends :
    (settings : Settings) (is_configured : Bool) (id : ℕ) (calls : List (ℕ × Answer))
    (s : PrintState) (j : PrintJob)
    → get_job id s.print_jobs ≡ some j
    → j.try_count ≤ settings.print_retry_max
    → settings.print_retry_max < length calls + j.try_count
    → (k : PrintJob) × (get_job id (execute_all settings is_configured id calls s).print_jobs
        ≡ some k)
      × IsFinal settings.print_retry_max k
unfolding execute_all
execute_all-ends settings is_configured id [] s j found bounded enough =
    absurd (omega (arith, bounded, enough))
execute_all-ends settings is_configured id ((now, answer) ∷ calls) s j found bounded enough =
    let (k, found', step) =
      execute_print_job-JobStep settings now is_configured answer id s j found in
    let s' = (execute_print_job settings now is_configured answer id s).1 in
    elim (JobStep-advances step) [
      | inl over ↦ execute_all-IsFinal settings is_configured id calls s' k found' over
      | inr more ↦
          execute_all-ends settings is_configured id calls s' k found'
            (JobStep-bounded step bounded).1 (omega (arith, more, enough))
    ]

sub_one : (n : ℕ) → suc n - 1 ≡ n
sub_one n = omega arith

pow_pos : (n : ℕ) → 1 ≤ 2 ^ n
pow_pos zero = omega arith
pow_pos (suc n) = omega (arith, pow_pos n)

-- The time to the next attempt never shrinks from one attempt to the next, is a second at least and a
-- quarter of an hour at most.
pub next_retry_delay-bounds :
    (try_count : ℕ)
    → (1 ≤ next_retry_delay try_count)
      × (next_retry_delay try_count ≤ 900)
      × (next_retry_delay try_count ≤ next_retry_delay (suc try_count))
unfolding next_retry_delay
next_retry_delay-bounds zero = omega arith
next_retry_delay-bounds (suc n) =
    let doubled : min (2 ^ n) 900 ≤ min (2 ^ suc n) 900 = omega (arith, pow_pos n) in
    let least : 1 ≤ min (2 ^ n) 900 = omega (arith, pow_pos n) in
    let most : min (2 ^ n) 900 ≤ 900 = omega arith in
    rw (sub_one n, sub_one (suc n)) (least, most, doubled)
