-- ===== src/Jobs/Examples.antt =====
-- Runs of jobs at concrete inputs.
use pickwise_v2_backend.Prelude.{
  ℕ, ◌≡◌, refl, String, Bool, true, false, none, some, List, [], ◌∷◌, arith, get, All, length, keep,
}
use pickwise_v2_backend.Jobs.{
  JobStatus, queued, cancelling, cancelled, Job, Jobs, Call, advance, request_cancel, returned,
  raised, Stage, marking, failing, is_terminal, is_active, is_cancelling, create_job, run_job,
  reset_stale_jobs,
}
use pickwise_v2_backend.Jobs.Progress.{Holds}
use pickwise_v2_backend.Jobs.Script.{status, noticed}
use pickwise_v2_backend.Jobs.Outcome.{run_job-returned, run_job-terminal}
use pickwise_v2_backend.Jobs.Consistency.{IsConsistent, run_job-IsConsistent}
use pickwise_v2_backend.Jobs.Endpoints.{AfterRestart, reset_stale_jobs_lem}

abbrev new_job : Job
new_job = record {
  job_type = "reviews.process";
  status = queued;
  total_count = 3;
  processed_count = 0;
  succeeded_count = 0;
  failed_count = 0;
  errors = [];
  error_message = none;
  result = none;
  estimated_seconds = none;
  started_at = none;
  finished_at = none;
}

abbrev asked_job : Job
asked_job = record new_job { status = cancelling }

abbrev two_jobs : Jobs
two_jobs = (1, new_job) ∷ (2, asked_job) ∷ []

abbrev never : Stage → Bool
never _ = false

-- The mark after the worker raises, and so does `mark_failed`.
abbrev unlucky : Stage → Bool
unlucky marking = true
unlucky failing = true
unlucky _ = false

abbrev clock : Stage → ℕ
clock _ = 7

abbrev same : String → String
same s = s

-- The request comes after the last item.
abbrev too_late : List Call
too_late = advance true none none 1 ∷ advance false none (some "no track") 1 ∷ request_cancel ∷ []

abbrev in_time : List Call
in_time = advance true none none 1 ∷ request_cancel ∷ advance true none none 1 ∷ []

create_job_runs : create_job 1 "reviews.process" 3 none [] ≡ (1, new_job) ∷ []
unfolding create_job
create_job_runs = refl

cancelled_late : noticed false too_late ≡ false
unfolding noticed
cancelled_late = refl

run_job-returned_example :
    status (get 1 (run_job same "db" clock never 1 in_time (returned none) two_jobs).jobs)
    ≡ some cancelled
unfolding get noticed is_cancelling
run_job-returned_example =
    run_job-returned same "db" clock never 1 in_time none two_jobs queued refl refl refl refl refl
      refl

run_job-terminal_example :
    (t : JobStatus) × (status
        (get 1 (run_job same "db" clock unlucky 1 too_late (returned none) two_jobs).jobs)
      ≡ some t)
    × (is_terminal t ≡ true)
unfolding get
run_job-terminal_example =
    run_job-terminal same "db" clock unlucky 1 too_late (returned none) two_jobs queued refl refl
      refl (λ _. refl)

new_job-IsConsistent : IsConsistent new_job
unfolding is_terminal
new_job-IsConsistent = ground arith

two_jobs-IsConsistent : Holds IsConsistent two_jobs
unfolding get is_terminal
two_jobs-IsConsistent j job h = ground arith

run_job-IsConsistent_example :
    Holds IsConsistent (run_job same "db" clock unlucky 1 too_late (raised "boom") two_jobs).jobs
run_job-IsConsistent_example =
    run_job-IsConsistent same "db" clock unlucky 1 too_late (raised "boom") two_jobs
      two_jobs-IsConsistent

reset_stale_jobs_lem_example :
    AfterRestart 9 (get 1 two_jobs) (get 1 (reset_stale_jobs 9 two_jobs).0)
    × All (λ row. is_active row.1.status ≡ false) (reset_stale_jobs 9 two_jobs).0
    × ((reset_stale_jobs 9 two_jobs).1 ≡ length (keep (λ row. is_active row.1.status) two_jobs))
reset_stale_jobs_lem_example = reset_stale_jobs_lem 9 1 two_jobs
