-- ===== src/Jobs/Frame.antt =====
-- A run writes no row but its own.
use pickwise_v2_backend.Prelude.{
  ℕ, ◌≡◌, refl, ◌∙◌, String, Bool, false, Option, none, some, List, [], ◌∷◌, ◌==◌, get, put,
  get-put, Bool-cases, inl, inr,
}
use pickwise_v2_backend.Jobs.{
  Job, Jobs, Run, Call, advance, set_total, request_cancel, Ending, returned, raised, Stage,
  starting, skipping, marking, naming, failing, ending, update, is_terminal, is_cancelling,
  cancel_row, cancel_job, after, step, run_calls, cancel_requested, on_exception, mark_end,
  conclude, finalise_row, finalise, start, skip, run_job,
}
use pickwise_v2_backend.Jobs.Progress.{get-update}

put-others :
    (id j : ℕ) (job : Job) (jobs : Jobs) → (id == j) ≡ false → get j (put id job jobs) ≡ get j jobs
put-others id j job jobs h = rw (get-put id j job jobs, h)

module _ (id j : ℕ) (other : (id == j) ≡ false) where
  update-others : (f : Job → Job) (r : Run) → get j (update id f r).jobs ≡ get j r.jobs
  update-others f r = rw (get-update id j f r, other)

  cancel_row-others :
      (o : Option Job) (jobs : Jobs) → get j (after jobs (cancel_row id o jobs)) ≡ get j jobs
  unfolding cancel_row after
  cancel_row-others none jobs = refl
  cancel_row-others (some job) jobs = elim (Bool-cases (is_terminal job.status)) [
    | inl over ↦ rw over
    | inr live ↦ elim (Bool-cases (is_cancelling job.status)) [
      | inl asked ↦ rw (live, asked)
      | inr fresh ↦ rw (live, fresh) (put-others id j _ jobs other)
    ]
  ]

  pub cancel_job-others : (jobs : Jobs) → get j (after jobs (cancel_job id jobs)) ≡ get j jobs
  unfolding cancel_job
  cancel_job-others jobs = cancel_row-others (get id jobs) jobs

  step-others : (c : Call) (r : Run) → get j (step id c r).jobs ≡ get j r.jobs
  unfolding step
  step-others (advance s i e n) r = update-others _ r
  step-others (set_total n) r = update-others _ r
  step-others request_cancel r = cancel_job-others r.jobs

  run_calls-others : (cs : List Call) (r : Run) → get j (run_calls id cs r).jobs ≡ get j r.jobs
  unfolding run_calls
  run_calls-others [] r = refl
  run_calls-others (c ∷ cs) r = run_calls-others cs (step id c r) ∙ step-others c r

module _ (clip : String → String) (db_error : String) (now : Stage → ℕ) (faulty : Stage → Bool)
    (id j : ℕ) (other : (id == j) ≡ false) where
  exception-others :
      (m : String) (r : Run)
      → get j (on_exception clip db_error now faulty id m r).jobs ≡ get j r.jobs
  unfolding on_exception
  exception-others m r = elim (Bool-cases (faulty failing)) [
    | inl bad ↦ rw bad
    | inr good ↦ rw good (update-others id j other _ r)
  ]

  mark_end-others :
      (p : Option String) (r : Run)
      → get j (mark_end clip db_error now faulty id p r).jobs ≡ get j r.jobs
  unfolding mark_end
  mark_end-others p r = elim (Bool-cases (cancel_requested r)) [
    | inl asked ↦ rw asked (update-others id j other _ r)
    | inr quiet ↦ rw quiet (update-others id j other _ r)
  ]

  conclude-others :
      (e : Ending) (r : Run) → get j (conclude clip db_error now faulty id e r).jobs ≡ get j r.jobs
  unfolding conclude
  conclude-others (raised m) r = exception-others m r
  conclude-others (returned p) r = elim (Bool-cases (faulty marking)) [
    | inl bad ↦ rw bad (exception-others db_error r)
    | inr good ↦ elim (Bool-cases (faulty naming)) [
      | inl lost ↦ rw (good, lost) (exception-others db_error _ ∙ mark_end-others p r)
      | inr named ↦ rw (good, named) (mark_end-others p r)
    ]
  ]

  finalise_row-others :
      (o : Option Job) (r : Run)
      → get j (finalise_row clip db_error now faulty id o r).jobs ≡ get j r.jobs
  unfolding finalise_row
  finalise_row-others none r = refl
  finalise_row-others (some job) r = put-others id j _ r.jobs other

  finalise-others : (r : Run) → get j (finalise clip db_error now faulty id r).jobs ≡ get j r.jobs
  unfolding finalise
  finalise-others r = elim (Bool-cases (faulty ending)) [
    | inl bad ↦ rw bad
    | inr good ↦ rw good (finalise_row-others (get id r.jobs) r)
  ]

  start-others : (jobs : Jobs) → get j (start clip db_error now faulty id jobs).jobs ≡ get j jobs
  unfolding start
  start-others jobs = update-others id j other _ (record { jobs = jobs; seen = none })

  skip-others : (r : Run) → get j (skip clip db_error now faulty id r).jobs ≡ get j r.jobs
  unfolding skip
  skip-others r = elim (Bool-cases (faulty skipping)) [
    | inl bad ↦ rw bad
    | inr good ↦ rw good (update-others id j other _ r)
  ]

  -- A run leaves the row of every other job as it was, whatever the worker does and whatever
  -- raises.
  pub run_job-others :
      (calls : List Call) (e : Ending) (jobs : Jobs)
      → get j (run_job clip db_error now faulty id calls e jobs).jobs ≡ get j jobs
  unfolding run_job
  run_job-others calls e jobs = elim (Bool-cases (faulty starting)) [
    | inl bad ↦ rw bad
    | inr good ↦ elim (Bool-cases (cancel_requested (start clip db_error now faulty id jobs))) [
      | inl asked ↦ rw (good, asked) (skip-others _ ∙ start-others jobs)
      | inr quiet ↦
          rw (good, quiet)
            (finalise-others _
              ∙ conclude-others e _
              ∙ run_calls-others id j other calls _
              ∙ start-others jobs)
    ]
  ]
