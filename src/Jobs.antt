-- ===== src/Jobs.antt =====
-- Background jobs: app/common/job_model.py, app/common/job_service.py, the cancel endpoint of
-- app/common/job_router.py. Every `_update` is one transaction on the job's row, so a step of the
-- model is one transaction. `faulty` says which of the transactions of a run raise; a transaction
-- that raises writes nothing. A timestamp is the number that `_utcnow` returned.
pub mod Progress
pub mod Script
pub mod Outcome
pub mod Consistency
pub mod Frame
pub mod Endpoints
mod Examples
use pickwise_v2_backend.Prelude.{
  ℕ, suc, ◌+◌, ◌≤◌, String, ◌≡◌, Bool, true, false, not, ◌&&◌, ◌||◌, Option, none, some, List, [],
  ◌∷◌, ◌++◌, ltb, leb, str_eq, length, if◌then◌else◌, get, put, any,
}

pub data JobStatus : Type 0 where
  queued processing cancelling completed failed cancelled : JobStatus

pub is_cancelling : JobStatus → Bool
is_cancelling cancelling = true
is_cancelling _ = false

-- `JobStatus.ACTIVE` and `JobStatus.TERMINAL`.
pub is_active : JobStatus → Bool
is_active queued = true
is_active processing = true
is_active cancelling = true
is_active _ = false

pub is_terminal : JobStatus → Bool
is_terminal completed = true
is_terminal failed = true
is_terminal cancelled = true
is_terminal _ = false

pub record Job : Type 0 where
  pub job_type : String
  pub status : JobStatus
  pub total_count : ℕ
  pub processed_count : ℕ
  pub succeeded_count : ℕ
  pub failed_count : ℕ
  pub errors : List (String × String)  -- item, error
  pub error_message : Option String
  pub result : Option String  -- the worker's dict, encoded
  pub estimated_seconds : Option ℕ
  pub started_at : Option ℕ
  pub finished_at : Option ℕ

abbrev pub Jobs : Type 0
Jobs = List (ℕ × Job)

abbrev pub max_stored_errors : ℕ
max_stored_errors = 50

-- The database, and what one `JobProgress` remembers of its row.
pub record Run : Type 0 where
  pub jobs : Jobs
  pub seen : Option JobStatus  -- `_status`

-- `_update`: the row is read, its status remembered, the change committed.
pub update_row : ℕ → (Job → Job) → Option Job → Run → Run
update_row id mutate none r = r
update_row id mutate (some job) r = record {
  jobs = put id (mutate job) r.jobs;
  seen = some job.status;
}

pub update : ℕ → (Job → Job) → Run → Run
unfolding update_row
update id mutate r = update_row id mutate (get id r.jobs) r

pub cancel_requested : Run → Bool
unfolding is_cancelling
cancel_requested r = elim r.seen [ none ↦ false | some s ↦ is_cancelling s ]

-- `item or "unknown"`.
pub or_unknown : Option String → String
or_unknown none = "unknown"
or_unknown (some i) = if str_eq i "" then "unknown" else i

-- `if error and len(job.errors) < _MAX_STORED_ERRORS`.
pub store_error : Option String → Option String → List (String × String) → List (String × String)
unfolding or_unknown
store_error item none errors = errors
store_error item (some e) errors =
    if not (str_eq e "") && ltb (length errors) max_stored_errors
    then errors ++ (or_unknown item, e) ∷ []
    else errors

pub apply_advance : Bool → Option String → Option String → ℕ → Job → Job
unfolding store_error
apply_advance succeeded item error count job =
    if succeeded
    then record job {
      processed_count = job.processed_count + count;
      succeeded_count = job.succeeded_count + count;
    }
    else record job {
      processed_count = job.processed_count + count;
      failed_count = job.failed_count + count;
      errors = store_error item error job.errors;
    }

pub apply_total : ℕ → Job → Job
apply_total total job = record job { total_count = total }

-- CANCELLING is never overwritten.
pub apply_processing : ℕ → Job → Job
unfolding is_cancelling
apply_processing now job = record job {
  status = if is_cancelling job.status then job.status else processing;
  started_at = some now;
}

pub or_old : Option String → Option String → Option String
or_old none old = old
or_old (some p) old = some p

pub apply_completed : Option String → ℕ → Job → Job
unfolding or_old
apply_completed payload now job = record job {
  status = completed;
  finished_at = some now;
  result = or_old payload job.result;
}

pub apply_cancelled : Option String → ℕ → Job → Job
unfolding or_old
apply_cancelled payload now job = record job {
  status = cancelled;
  finished_at = some now;
  result = or_old payload job.result;
}

-- `clip` is `message[:2000]`, on the text of the exception.
pub apply_failed : (String → String) → String → ℕ → Job → Job
apply_failed clip message now job = record job {
  status = failed;
  finished_at = some now;
  error_message = some (clip message);
}

-- `job.error_message or "Job ended…"`.
pub or_backstop : Option String → Option String
or_backstop none = some "Job ended without reporting a terminal status."
or_backstop (some m) =
    if str_eq m "" then some "Job ended without reporting a terminal status." else some m

-- What happens between the two ends of a run: the worker's calls, and a cancel request from the
-- endpoint, which is another transaction on the same row.
pub data Call : Type 0 where
  advance : Bool → Option String → Option String → ℕ → Call
  set_total : ℕ → Call
  request_cancel : Call

-- How the worker ends. A transaction of its own that raised ends it too.
pub data Ending : Type 0 where
  returned : Option String → Ending
  raised : String → Ending

pub data HttpError : Type 0 where
  not_found : HttpError
  finished : JobStatus → HttpError
  job_running : ℕ → HttpError

pub data Response {ℓ} (A : Type ℓ) : Type ℓ where
  ok : A → Response A
  error : HttpError → Response A

-- `cancel_job`.
pub cancel_row : ℕ → Option Job → Jobs → Response Jobs
unfolding is_terminal is_cancelling
cancel_row id none jobs = error not_found
cancel_row id (some job) jobs =
    if is_terminal job.status
    then error (finished job.status)
    else if is_cancelling job.status
    then ok jobs
    else ok (put id (record job { status = cancelling }) jobs)

pub cancel_job : ℕ → Jobs → Response Jobs
unfolding cancel_row
cancel_job id jobs = cancel_row id (get id jobs) jobs

-- A refused request leaves the table as it was.
pub after : Jobs → Response Jobs → Jobs
after jobs (ok jobs') = jobs'
after jobs (error e) = jobs

pub step : ℕ → Call → Run → Run
unfolding update apply_advance apply_total cancel_job after
step id (advance succeeded item err count) r = update id (apply_advance succeeded item err count) r
step id (set_total total) r = update id (apply_total total) r
step id request_cancel r = record r { jobs = after r.jobs (cancel_job id r.jobs) }

pub run_calls : ℕ → List Call → Run → Run
run_calls id [] r = r
run_calls id (c ∷ cs) r = run_calls id cs (step id c r)

-- The transactions of one run: `mark_processing`, `mark_cancelled` before the worker, the mark after
-- it, the read of the job's type for the log line behind that mark (`_job_type`), `mark_failed`, and
-- the transaction of `finally`. The read behind `mark_cancelled` before the worker has no constructor:
-- it is the last act of the run, and changes nothing if it raises.
pub data Stage : Type 0 where
  starting skipping marking naming failing ending : Stage

-- `db_error` is the text of the exception that a transaction raises.
module _ (clip : String → String) (db_error : String) (now : Stage → ℕ) (faulty : Stage → Bool)
    (id : ℕ) where
  -- The `except` clause, which swallows its own failure.
  pub on_exception : String → Run → Run
  unfolding update apply_failed
  on_exception message r =
      if faulty failing then r else update id (apply_failed clip message (now failing)) r

  pub mark_end : Option String → Run → Run
  unfolding update cancel_requested apply_cancelled apply_completed
  mark_end payload r =
      if cancel_requested r
      then update id (apply_cancelled payload (now marking)) r
      else update id (apply_completed payload (now marking)) r

  -- The body of `try` after the worker, with its `except`.
  pub conclude : Ending → Run → Run
  unfolding mark_end on_exception
  conclude (raised message) r = on_exception message r
  conclude (returned payload) r =
      if faulty marking
      then on_exception db_error r
      else if faulty naming
      then on_exception db_error (mark_end payload r)
      else mark_end payload r

  pub finalise_job : Job → Job
  unfolding is_terminal or_backstop
  finalise_job job = if is_terminal job.status then job else record job {
    status = failed;
    finished_at = some (now ending);
    error_message = or_backstop job.error_message;
  }

  -- The `finally` clause, which swallows its own failure too.
  pub finalise_row : Option Job → Run → Run
  unfolding finalise_job
  finalise_row none r = r
  finalise_row (some job) r = record r { jobs = put id (finalise_job job) r.jobs }

  pub finalise : Run → Run
  unfolding finalise_row
  finalise r = if faulty ending then r else finalise_row (get id r.jobs) r

  pub start : Jobs → Run
  unfolding update apply_processing
  start jobs = update id (apply_processing (now starting)) (record { jobs = jobs; seen = none })

  pub skip : Run → Run
  unfolding update apply_cancelled
  skip r = if faulty skipping then r else update id (apply_cancelled none (now skipping)) r

  -- `run_job`. The transactions before `try` are not guarded: where one raises, the run ends.
  pub run_job : List Call → Ending → Jobs → Run
  unfolding start skip cancel_requested run_calls conclude finalise
  run_job calls e jobs =
      if faulty starting
      then record { jobs = jobs; seen = none }
      else if cancel_requested (start jobs)
      then skip (start jobs)
      else finalise (conclude e (run_calls id calls (start jobs)))

-- `create_job`, with the new row's key from the database. `estimate` is the floating-point
-- `int(total_count * seconds_per_item + overhead_seconds)`.
pub create_job : ℕ → String → ℕ → Option (ℕ → ℕ) → Jobs → Jobs
create_job id job_type total seconds_per_item jobs =
    (
      id,
      record {
        job_type = job_type;
        status = queued;
        total_count = total;
        processed_count = 0;
        succeeded_count = 0;
        failed_count = 0;
        errors = [];
        error_message = none;
        result = none;
        estimated_seconds = elim seconds_per_item [
          | none ↦ none
          | some estimate ↦ if ltb 0 total then some (estimate total) else none
        ];
        started_at = none;
        finished_at = none;
      },
    )
    ∷ jobs

-- `refuse_if_running`: the first active job of one of the types.
pub refuse_if_running : List String → Jobs → Response (Unit {0})
unfolding is_active
refuse_if_running job_types [] = ok tt
refuse_if_running job_types ((id, job) ∷ jobs) =
    if any (str_eq job.job_type) job_types && is_active job.status
    then error (job_running id)
    else refuse_if_running job_types jobs

-- `reset_stale_jobs`.
abbrev pub interrupted : String
interrupted =
    "Interrupted — the server restarted while this job was running. Re-run it; completed items are not repeated."

pub reset_job : ℕ → Job → Job
unfolding is_active
reset_job now job =
    if is_active job.status
    then record job { status = failed; finished_at = some now; error_message = some interrupted }
    else job

pub reset_stale_jobs : ℕ → Jobs → Jobs × ℕ
unfolding reset_job
reset_stale_jobs now [] = ([], 0)
reset_stale_jobs now ((id, job) ∷ jobs) =
    let (rest, n) = reset_stale_jobs now jobs in
    ((id, reset_job now job) ∷ rest, if is_active job.status then n + 1 else n)
