-- ===== src/PrintJobs/Recover/Selects.antt =====
-- Which jobs `recover_print_jobs` changes.
use naicha_backend.Database.{Db, Settings, second}
use naicha_backend.Models.Rows.{PrintJob}
use naicha_backend.Prelude.{
  ==_iff, All, All-map, All-select, All-sort_by, Bool, Bool-cases, List, Option, [], ap, arith,
  contains, false, if◌then◌else◌, inl, inr, leb, length, length-sort_by, length-take_le, map, max,
  refl, select, some, sort_by, subst, suc, take, true, zero, ℕ, ◌*◌, ◌+◌, ◌==◌, ◌∷◌, ◌≡◌, ◌≤◌,
}
use naicha_backend.PrintJobs.Recover.{
  is_recoverable, rank, recover_job, recover_jobs, recover_print_jobs, recovery_candidates,
}
use naicha_backend.Table.{find, map_some}

abbrev by_id : ℕ → List PrintJob → Option PrintJob
by_id = find (λ (j : PrintJob). j.job_id)

module _ {A : Type 0} (f : A → ℕ) (Q : ℕ → Type 0) where
  All-ids : (xs : List A) → All (λ a. Q (f a)) xs → All Q (map f xs)
  All-ids [] h = tt
  All-ids (x ∷ xs) h = (h.0, All-ids xs h.1)

All-take : (Q : ℕ → Type 0) (n : ℕ) (xs : List ℕ) → All Q xs → All Q (take n xs)
All-take Q zero xs h = tt
All-take Q (suc n) [] h = tt
All-take Q (suc n) (x ∷ xs) h = (h.0, All-take Q n xs h.1)

All-contains : (Q : ℕ → Type 0) (k : ℕ) (xs : List ℕ) → All Q xs → contains k xs ≡ true → Q k
All-contains Q k [] h e = absurd (ground arith)
All-contains Q k (x ∷ xs) h e = elim (Bool-cases (k == x)) [
  | inl here ↦ subst Q (ground (arith, here)) h.0
  | inr there ↦ All-contains Q k xs h.1 (ground (arith, there))
]

select-true : (p : PrintJob → Bool) (xs : List PrintJob) → All (λ x. p x ≡ true) (select p xs)
select-true p [] = tt
select-true p (x ∷ xs) = elim (Bool-cases (p x)) [
  | inl taken ↦ rw taken (taken, select-true p xs)
  | inr left ↦ rw left (select-true p xs)
]

All-both :
    (P Q : PrintJob → Type 0) (xs : List PrintJob) → All P xs → All Q xs → All (λ x. P x × Q x) xs
All-both P Q [] h k = tt
All-both P Q (x ∷ xs) h k = ((h.0, k.0), All-both P Q xs h.1 k.1)

-- The row with that id is one that may be recovered.
abbrev Names : ℕ → List PrintJob → ℕ → Type 0
Names now jobs id = (j : PrintJob) × (by_id id jobs ≡ some j) × (is_recoverable now j ≡ true)

candidates-Names :
    (now limit : ℕ) (jobs : List PrintJob)
    → All (λ j. by_id j.job_id jobs ≡ some j) jobs
    → All (Names now jobs) (recovery_candidates now limit jobs)
unfolding recovery_candidates
candidates-Names now limit jobs unique =
    let Good = λ (j : PrintJob). Names now jobs j.job_id in
    let chosen = select (is_recoverable now) jobs in
    let kept = All-select (λ j. by_id j.job_id jobs ≡ some j) (is_recoverable now) jobs unique in
    let good : All Good chosen =
      All-map (λ j h. (j, h.0, h.1)) chosen
        (All-both (λ j. by_id j.job_id jobs ≡ some j) (λ j. is_recoverable now j ≡ true) chosen kept
          (select-true (is_recoverable now) jobs)) in
    let by_number = sort_by (λ (j : PrintJob). j.job_id) chosen in
    let sorted = All-sort_by Good rank by_number (All-sort_by Good (λ j. j.job_id) chosen good) in
    All-take (Names now jobs) limit (map (λ j. j.job_id) (sort_by rank by_number))
      (All-ids (λ (j : PrintJob). j.job_id) (Names now jobs) (sort_by rank by_number) sorted)

candidates_few :
    (now limit : ℕ) (jobs : List PrintJob) → length (recovery_candidates now limit jobs) ≤ limit
unfolding recovery_candidates
candidates_few now limit jobs = length-take_le limit _

find-recover_jobs :
    (next_try id : ℕ) (ids : List ℕ) (jobs : List PrintJob)
    → by_id id (recover_jobs next_try ids jobs)
      ≡ map_some (λ j. if contains id ids then recover_job next_try j else j) (by_id id jobs)
unfolding recover_jobs recover_job find
find-recover_jobs next_try id ids [] = refl
find-recover_jobs next_try id ids (j ∷ jobs) =
    let same : (j.job_id == id) ≡ true → contains j.job_id ids ≡ contains id ids =
      λ h. ap (λ k. contains k ids) ((==_iff j.job_id id).0 h) in
    ground (arith, same, find-recover_jobs next_try id ids jobs)

recovered_or_not :
    (now next_try id limit : ℕ) (jobs : List PrintJob) (j : PrintJob)
    → All (λ j. by_id j.job_id jobs ≡ some j) jobs
    → by_id id jobs ≡ some j
    → is_recoverable now j ≡ false
    → by_id id (recover_jobs next_try (recovery_candidates now limit jobs) jobs) ≡ some j
recovered_or_not now next_try id limit jobs j unique found other =
    let ids = recovery_candidates now limit jobs in
    elim (Bool-cases (contains id ids)) [
      | inl named ↦
          (let (r, found', good) =
              All-contains (Names now jobs) id ids (candidates-Names now limit jobs unique) named in
            absurd (ground (arith, found, found', good, other)))
      | inr left ↦ ground (arith, left, found, find-recover_jobs next_try id ids jobs)
    ]

-- A sweep for lost print jobs answers with no more ids than its limit, and where job ids are unique it
-- leaves a job as it is that does not wait or has not failed with a retry to come, or that is not
-- due yet; in particular those that are done or that a worker has begun.
pub recover_print_jobs-keeps :
    (settings : Settings) (now limit : ℕ) (db : Db) (id : ℕ) (j : PrintJob)
    → All (λ j. by_id j.job_id db.print_jobs ≡ some j) db.print_jobs
    → by_id id db.print_jobs ≡ some j
    → is_recoverable now j ≡ false
    → let (ids, db') = recover_print_jobs settings now limit db in
      (length ids ≤ limit) × (by_id id db'.print_jobs ≡ some j)
unfolding recover_print_jobs
recover_print_jobs-keeps settings now limit db id j unique found other =
    let next_try = now + max settings.print_recovery_interval_seconds 1 * second in
    let ids = recovery_candidates now limit db.print_jobs in
    let few : length ids ≤ limit = candidates_few now limit db.print_jobs in
    elim (Bool-cases (leb limit 0)) [
      | inl none_wanted ↦ rw none_wanted (omega arith, found)
      | inr some_wanted ↦ rw some_wanted (
        omega (arith, few, length-sort_by (λ (id : ℕ). id) ids),
        recovered_or_not now next_try id limit db.print_jobs j unique found other,
      )
    ]
