-- ===== src/Jobs/Endpoints.antt =====
-- The operations on jobs that are not part of a run: cancel, refuse, reset at startup.
use mathlib.Core.Path.{subst}
use mathlib.Core.Option
use pickwise_v2_backend.Prelude.{
  ℕ, ◌≡◌, ◌↔◌, refl, String, Bool, true, false, not, ◌&&◌, ap, Option, none, some, List, [], ◌∷◌,
  arith, ◌==◌, get, put, get-put, Bool-cases, inl, inr, All, keep, length, any, str_eq,
  if◌then◌else◌,
}
use pickwise_v2_backend.Jobs.{
  JobStatus, queued, processing, cancelling, completed, failed, cancelled, Job, Jobs, ok, is_active,
  is_terminal, is_cancelling, cancel_row, cancel_job, refuse_if_running, reset_job,
  reset_stale_jobs, after,
}
use pickwise_v2_backend.Jobs.Frame.{cancel_job-others}

-- A status is active or terminal, never both.
active-terminal : (s : JobStatus) → is_active s ≡ not (is_terminal s)
unfolding is_active is_terminal
active-terminal s = ground arith

-- The table after an accepted request.
abbrev asked_jobs : ℕ → Job → Jobs → Jobs
asked_jobs id job jobs =
    if is_cancelling job.status then jobs else put id (record job { status = cancelling }) jobs

cancel_row-active :
    (id : ℕ) (job : Job) (jobs : Jobs)
    → is_active job.status ≡ true
    → cancel_row id (some job) jobs ≡ ok (asked_jobs id job jobs)
unfolding cancel_row
cancel_row-active id job jobs live = ground (arith, active-terminal job.status)

get-asked :
    (id : ℕ) (job : Job) (jobs : Jobs)
    → get id jobs ≡ some job
    → get id (asked_jobs id job jobs) ≡ some (record job { status = cancelling })
unfolding is_cancelling
get-asked id job jobs h = ground (arith, get-put id id (record job { status = cancelling }) jobs)

after-asked :
    (id : ℕ) (job : Job) (jobs : Jobs)
    → get id jobs ≡ some job
    → is_active job.status ≡ true
    → after jobs (cancel_job id jobs) ≡ asked_jobs id job jobs
unfolding cancel_job after
after-asked id job jobs h live = rw h (rw (cancel_row-active id job jobs live))

-- Asking an active job to stop succeeds, puts its row in `cancelling` with nothing else changed,
-- leaves every other row as it was, and asking again changes nothing.
pub cancel_job-active :
    (id j : ℕ) (job : Job) (jobs : Jobs)
    → get id jobs ≡ some job
    → is_active job.status ≡ true
    → (id == j) ≡ false
    → (jobs' : Jobs) × (cancel_job id jobs ≡ ok jobs')
      × (get id jobs' ≡ some (record job { status = cancelling }))
      × (get j jobs' ≡ get j jobs)
      × (cancel_job id jobs' ≡ ok jobs')
unfolding cancel_job
cancel_job-active id j job jobs h live other =
    let there = get-asked id job jobs h in
    (
      asked_jobs id job jobs,
      rw h (cancel_row-active id job jobs live),
      there,
      subst (λ t. get j t ≡ get j jobs) (after-asked id job jobs h live)
          (cancel_job-others id j other jobs),
      rw there (unfold cancel_row is_terminal is_cancelling in refl),
    )

-- A job of one of the types, in an active status.
abbrev pub holds_lock : List String → ℕ × Job → Bool
holds_lock job_types row = any (str_eq row.1.job_type) job_types && is_active row.1.status

refuse-ok-All :
    (job_types : List String) (jobs : Jobs)
    → refuse_if_running job_types jobs ≡ ok tt
    → All (λ row. holds_lock job_types row ≡ false) jobs
unfolding refuse_if_running
refuse-ok-All job_types [] h = tt
refuse-ok-All job_types ((id, job) ∷ jobs) h = elim (Bool-cases (holds_lock job_types (id, job))) [
  | inl busy ↦ cc (rw busy at h)
  | inr free ↦ (free, refuse-ok-All job_types jobs (rw free at h))
]

refuse-ok_of_All :
    (job_types : List String) (jobs : Jobs)
    → All (λ row. holds_lock job_types row ≡ false) jobs
    → refuse_if_running job_types jobs ≡ ok tt
unfolding refuse_if_running
refuse-ok_of_All job_types [] h = refl
refuse-ok_of_All job_types ((id, job) ∷ jobs) h = rw h.0 (refuse-ok_of_All job_types jobs h.1)

-- A new job of a group is accepted exactly if no active job of the group is in the table.
pub refuse_if_running-ok_iff :
    (job_types : List String) (jobs : Jobs)
    → (refuse_if_running job_types jobs ≡ ok tt)
      ↔ All (λ row. holds_lock job_types row ≡ false) jobs
refuse_if_running-ok_iff job_types jobs =
    (refuse-ok-All job_types jobs, refuse-ok_of_All job_types jobs)

-- A failed job with the time of the restart and the message to run it again.
abbrev pub cut_off : ℕ → Job → Job
cut_off now job = record {
  job_type = job.job_type;
  status = failed;
  total_count = job.total_count;
  processed_count = job.processed_count;
  succeeded_count = job.succeeded_count;
  failed_count = job.failed_count;
  errors = job.errors;
  error_message =
      some
        "Interrupted — the server restarted while this job was running. Re-run it; completed items are not repeated.";
  result = job.result;
  estimated_seconds = job.estimated_seconds;
  started_at = job.started_at;
  finished_at = some now;
}

reset_job-inactive : (now : ℕ) (job : Job) → is_active (reset_job now job).status ≡ false
unfolding reset_job is_active
reset_job-inactive now job = ground arith

get-reset :
    (now id : ℕ) (jobs : Jobs)
    → get id (reset_stale_jobs now jobs).0 ≡ Option.map (reset_job now) (get id jobs)
unfolding reset_stale_jobs get
get-reset now id [] = refl
get-reset now id ((j, job) ∷ jobs) = ground (arith, get-reset now id jobs)

-- The row of a job that a restart cut off, and of any other job.
abbrev pub restarted : ℕ → Job → JobStatus → Job
restarted now job queued = cut_off now job
restarted now job processing = cut_off now job
restarted now job cancelling = cut_off now job
restarted now job completed = job
restarted now job failed = job
restarted now job cancelled = job

abbrev pub AfterRestart : ℕ → Option Job → Option Job → Type 0
AfterRestart now none row = row ≡ none
AfterRestart now (some job) row = row ≡ some (restarted now job job.status)

reset_job-restarted :
    (now : ℕ) (job : Job) (s : JobStatus) → job.status ≡ s → reset_job now job ≡ restarted now job s
unfolding reset_job is_active
reset_job-restarted now job queued h = rw h
reset_job-restarted now job processing h = rw h
reset_job-restarted now job cancelling h = rw h
reset_job-restarted now job completed h = rw h
reset_job-restarted now job failed h = rw h
reset_job-restarted now job cancelled h = rw h

map-AfterRestart :
    (now : ℕ) (before : Option Job) → AfterRestart now before (Option.map (reset_job now) before)
map-AfterRestart now none = refl
map-AfterRestart now (some job) = ap some (reset_job-restarted now job job.status refl)

reset-inactive :
    (now : ℕ) (jobs : Jobs)
    → All (λ row. is_active row.1.status ≡ false) (reset_stale_jobs now jobs).0
unfolding reset_stale_jobs
reset-inactive now [] = tt
reset-inactive now ((j, job) ∷ jobs) = (reset_job-inactive now job, reset-inactive now jobs)

reset-count :
    (now : ℕ) (jobs : Jobs)
    → (reset_stale_jobs now jobs).1 ≡ length (keep (λ row. is_active row.1.status) jobs)
unfolding reset_stale_jobs
reset-count now [] = refl
reset-count now ((j, job) ∷ jobs) = ground (arith, reset-count now jobs)

-- After the reset at startup a job that was queued, processing or cancelling is failed, with the
-- time of the reset, the message to run it again and its other fields as they were. A job that was
-- completed, failed or cancelled is as it was, and no other job is found. No job is active, and the
-- number that is returned is that of the rows that were.
pub reset_stale_jobs_lem :
    (now id : ℕ) (jobs : Jobs)
    → AfterRestart now (get id jobs) (get id (reset_stale_jobs now jobs).0)
      × All (λ row. is_active row.1.status ≡ false) (reset_stale_jobs now jobs).0
      × ((reset_stale_jobs now jobs).1 ≡ length (keep (λ row. is_active row.1.status) jobs))
reset_stale_jobs_lem now id jobs = (
  rw (get-reset now id jobs) (map-AfterRestart now (get id jobs)),
  reset-inactive now jobs,
  reset-count now jobs,
)
