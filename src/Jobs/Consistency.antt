-- ===== src/Jobs/Consistency.antt =====
-- The row of a job agrees with itself at every moment of a run, whatever fails.
use pickwise_v2_backend.Prelude.{
  ℕ, ◌+◌, ◌≤◌, String, ◌≡◌, refl, Bool, true, false, Option, none, some, List, [], ◌∷◌, arith,
  length, length-append, is_some, get, Bool-cases, inl, inr,
}
use pickwise_v2_backend.Jobs.{
  cancelling, Job, Jobs, Run, Call, Ending, returned, raised, Stage, starting, skipping, marking,
  naming, failing, ending, max_stored_errors, is_terminal, or_unknown, store_error, apply_advance,
  apply_total, apply_processing, apply_completed, apply_cancelled, apply_failed, run_calls,
  on_exception, mark_end, conclude, finalise_job, finalise_row, finalise, start, skip, run_job,
  cancel_requested,
}
use pickwise_v2_backend.Jobs.Progress.{Holds, put-Holds, update-Holds, step-Holds}

pub record IsConsistent (job : Job) : Type 0 where
  pub counted : job.processed_count ≡ job.succeeded_count + job.failed_count
  pub capped : length job.errors ≤ max_stored_errors
  pub dated : is_terminal job.status ≡ true → is_some job.finished_at ≡ true

store_error-capped :
    (i e : Option String) (errors : List (String × String))
    → length errors ≤ max_stored_errors
    → length (store_error i e errors) ≤ max_stored_errors
unfolding store_error
store_error-capped i none errors h = h
store_error-capped i (some e) errors h =
    ground (arith, length-append errors ((or_unknown i, e) ∷ []))

advance-IsConsistent :
    (s : Bool) (i e : Option String) (n : ℕ) (job : Job)
    → IsConsistent job
    → IsConsistent (apply_advance s i e n job)
unfolding apply_advance
advance-IsConsistent s i e n job h = ground (arith, store_error-capped i e job.errors)

total-IsConsistent : (n : ℕ) (job : Job) → IsConsistent job → IsConsistent (apply_total n job)
unfolding apply_total
total-IsConsistent n job h = ground arith

cancelling-IsConsistent :
    (job : Job)
    → is_terminal job.status ≡ false
    → IsConsistent job
    → IsConsistent (record job { status = cancelling })
unfolding is_terminal
cancelling-IsConsistent job live h = ground arith

processing-IsConsistent :
    (now : ℕ) (job : Job) → IsConsistent job → IsConsistent (apply_processing now job)
unfolding apply_processing is_terminal
processing-IsConsistent now job h = ground arith

completed-IsConsistent :
    (p : Option String) (now : ℕ) (job : Job)
    → IsConsistent job
    → IsConsistent (apply_completed p now job)
unfolding apply_completed
completed-IsConsistent p now job h = ground arith

cancelled-IsConsistent :
    (p : Option String) (now : ℕ) (job : Job)
    → IsConsistent job
    → IsConsistent (apply_cancelled p now job)
unfolding apply_cancelled
cancelled-IsConsistent p now job h = ground arith

failed-IsConsistent :
    (clip : String → String) (m : String) (now : ℕ) (job : Job)
    → IsConsistent job
    → IsConsistent (apply_failed clip m now job)
unfolding apply_failed
failed-IsConsistent clip m now job h = ground arith

run_calls-IsConsistent :
    (id : ℕ) (cs : List Call) (r : Run)
    → Holds IsConsistent r.jobs
    → Holds IsConsistent (run_calls id cs r).jobs
unfolding run_calls
run_calls-IsConsistent id [] r h = h
run_calls-IsConsistent id (c ∷ cs) r h =
    run_calls-IsConsistent id cs _
      (step-Holds id c r advance-IsConsistent total-IsConsistent cancelling-IsConsistent h)

module _ (clip : String → String) (db_error : String) (now : Stage → ℕ) (faulty : Stage → Bool)
    (id : ℕ) where
  finalise_job-IsConsistent :
      (job : Job) → IsConsistent job → IsConsistent (finalise_job clip db_error now faulty id job)
  unfolding finalise_job
  finalise_job-IsConsistent job h = ground arith

  finalise_row-IsConsistent :
      (o : Option Job) (r : Run)
      → get id r.jobs ≡ o
      → Holds IsConsistent r.jobs
      → Holds IsConsistent (finalise_row clip db_error now faulty id o r).jobs
  unfolding finalise_row
  finalise_row-IsConsistent none r e h = h
  finalise_row-IsConsistent (some job) r e h =
      put-Holds id _ r.jobs (finalise_job-IsConsistent job (h id job e)) h

  finalise-IsConsistent :
      (r : Run)
      → Holds IsConsistent r.jobs
      → Holds IsConsistent (finalise clip db_error now faulty id r).jobs
  unfolding finalise
  finalise-IsConsistent r h = elim (Bool-cases (faulty ending)) [
    | inl bad ↦ rw bad h
    | inr good ↦ rw good (finalise_row-IsConsistent (get id r.jobs) r refl h)
  ]

  exception-IsConsistent :
      (m : String) (r : Run)
      → Holds IsConsistent r.jobs
      → Holds IsConsistent (on_exception clip db_error now faulty id m r).jobs
  unfolding on_exception
  exception-IsConsistent m r h = elim (Bool-cases (faulty failing)) [
    | inl bad ↦ rw bad h
    | inr good ↦ rw good (update-Holds id _ r (failed-IsConsistent clip m _) h)
  ]

  mark_end-IsConsistent :
      (p : Option String) (r : Run)
      → Holds IsConsistent r.jobs
      → Holds IsConsistent (mark_end clip db_error now faulty id p r).jobs
  unfolding mark_end
  mark_end-IsConsistent p r h = elim (Bool-cases (cancel_requested r)) [
    | inl asked ↦ rw asked (update-Holds id _ r (cancelled-IsConsistent p _) h)
    | inr not_asked ↦ rw not_asked (update-Holds id _ r (completed-IsConsistent p _) h)
  ]

  conclude-IsConsistent :
      (e : Ending) (r : Run)
      → Holds IsConsistent r.jobs
      → Holds IsConsistent (conclude clip db_error now faulty id e r).jobs
  unfolding conclude
  conclude-IsConsistent (raised m) r h = exception-IsConsistent m r h
  conclude-IsConsistent (returned p) r h = elim (Bool-cases (faulty marking)) [
    | inl bad ↦ rw bad (exception-IsConsistent db_error r h)
    | inr good ↦
        let there = mark_end-IsConsistent p r h in
        elim (Bool-cases (faulty naming)) [
          | inl lost ↦ rw (good, lost) (exception-IsConsistent db_error _ there)
          | inr named ↦ rw (good, named) there
        ]
  ]

  start-IsConsistent :
      (jobs : Jobs)
      → Holds IsConsistent jobs
      → Holds IsConsistent (start clip db_error now faulty id jobs).jobs
  unfolding start
  start-IsConsistent jobs h = update-Holds id _ _ (processing-IsConsistent (now starting)) h

  skip-IsConsistent :
      (r : Run)
      → Holds IsConsistent r.jobs
      → Holds IsConsistent (skip clip db_error now faulty id r).jobs
  unfolding skip
  skip-IsConsistent r h = elim (Bool-cases (faulty skipping)) [
    | inl bad ↦ rw bad h
    | inr good ↦ rw good (update-Holds id _ r (cancelled-IsConsistent none _) h)
  ]

  -- A run keeps every row consistent, whatever the worker does, whoever asks it to stop, and
  -- whichever bookkeeping transactions raise: the processed items are the succeeded and the failed
  -- ones, at most 50 errors are stored, and a terminal row has its time of finishing.
  pub run_job-IsConsistent :
      (calls : List Call) (e : Ending) (jobs : Jobs)
      → Holds IsConsistent jobs
      → Holds IsConsistent (run_job clip db_error now faulty id calls e jobs).jobs
  unfolding run_job
  run_job-IsConsistent calls e jobs h = elim (Bool-cases (faulty starting)) [
    | inl bad ↦ rw bad h
    | inr good ↦ elim (Bool-cases (cancel_requested (start clip db_error now faulty id jobs))) [
      | inl asked ↦ rw (good, asked) (skip-IsConsistent _ (start-IsConsistent jobs h))
      | inr not_asked ↦
          rw (good, not_asked)
            (finalise-IsConsistent _ (
              conclude-IsConsistent e _
                (run_calls-IsConsistent id calls _ (start-IsConsistent jobs h))))
    ]
  ]
