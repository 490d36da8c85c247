-- ===== src/Jobs/Outcome.antt =====
-- How a run ends.
use pickwise_v2_backend.Prelude.{
  ℕ, ◌≡◌, refl, ap, sym, ◌∙◌, inl, inr, String, Bool, true, false, ◌||◌, ◌&&◌, not, Option, none,
  some, List, arith, ==_refl, if◌then◌else◌, get, get-put, Bool-cases,
}
use pickwise_v2_backend.Jobs.{
  JobStatus, processing, cancelling, completed, failed, cancelled, Job, Jobs, Run, Call, Ending,
  returned, raised, Stage, starting, skipping, marking, naming, failing, ending, is_terminal,
  is_cancelling, run_calls, apply_processing, apply_completed, apply_cancelled, apply_failed,
  cancel_requested, on_exception, mark_end, conclude, finalise_job, finalise_row, finalise, start,
  skip, run_job,
}
use pickwise_v2_backend.Jobs.Script.{
  status, requested_of_seen, update-status, update-seen, noticed, live_status, run_calls-status,
  run_calls-noticed,
}

module _ (clip : String → String) (db_error : String) (now : Stage → ℕ) (faulty : Stage → Bool)
    (id : ℕ) where
  start-status :
      (jobs : Jobs) (s : JobStatus)
      → status (get id jobs) ≡ some s
      → status (get id (start clip db_error now faulty id jobs).jobs)
        ≡ some (if is_cancelling s then s else processing)
  unfolding start
  start-status jobs s h =
      update-status id _ (λ x. if is_cancelling x then x else processing)
        (record { jobs = jobs; seen = none }) (λ job. unfold apply_processing in refl)
      ∙ rw h

  start-requested :
      (jobs : Jobs) (s : JobStatus)
      → status (get id jobs) ≡ some s
      → cancel_requested (start clip db_error now faulty id jobs) ≡ is_cancelling s
  unfolding start
  start-requested jobs s h =
      requested_of_seen _
        (update-seen id (apply_processing (now starting)) (record { jobs = jobs; seen = none }) h)

  finalise_job-status :
      (job : Job)
      → (finalise_job clip db_error now faulty id job).status
        ≡ (if is_terminal job.status then job.status else failed)
  unfolding finalise_job
  finalise_job-status job = elim (Bool-cases (is_terminal job.status)) [
    | inl over ↦ rw over
    | inr live ↦ rw live
  ]

  finalise_row-status :
      (o : Option Job) (r : Run) (s : JobStatus)
      → get id r.jobs ≡ o
      → status o ≡ some s
      → status (get id (finalise_row clip db_error now faulty id o r).jobs)
        ≡ some (if is_terminal s then s else failed)
  unfolding finalise_row
  finalise_row-status none r s e h = cc
  finalise_row-status (some job) r s e h =
      rw (get-put id id (finalise_job clip db_error now faulty id job) r.jobs, e, ==_refl id)
        (ground (arith, finalise_job-status job))

  -- `finally` leaves a terminal status alone, and fails every other.
  finalise-status :
      (r : Run) (s : JobStatus)
      → faulty ending ≡ false
      → status (get id r.jobs) ≡ some s
      → status (get id (finalise clip db_error now faulty id r).jobs)
        ≡ some (if is_terminal s then s else failed)
  unfolding finalise
  finalise-status r s good h = rw good (finalise_row-status (get id r.jobs) r s refl h)

  exception-status :
      (m : String) (r : Run) (s : JobStatus)
      → status (get id r.jobs) ≡ some s
      → status (get id (on_exception clip db_error now faulty id m r).jobs)
        ≡ some (if faulty failing then s else failed)
  unfolding on_exception
  exception-status m r s h = elim (Bool-cases (faulty failing)) [
    | inl bad ↦ rw bad h
    | inr good ↦
        rw good (update-status id _ (λ _. failed) r (λ job. unfold apply_failed in refl) ∙ rw h)
  ]

  mark_end-status :
      (p : Option String) (r : Run) (s : JobStatus)
      → status (get id r.jobs) ≡ some s
      → status (get id (mark_end clip db_error now faulty id p r).jobs)
        ≡ some (if cancel_requested r then cancelled else completed)
  unfolding mark_end
  mark_end-status p r s h = elim (Bool-cases (cancel_requested r)) [
    | inl asked ↦
        rw asked
          (update-status id _ (λ _. cancelled) r (λ job. unfold apply_cancelled in refl) ∙ rw h)
    | inr quiet ↦
        rw quiet
          (update-status id _ (λ _. completed) r (λ job. unfold apply_completed in refl) ∙ rw h)
  ]

  -- The status that the `try` block leaves, whatever raises in it.
  abbrev pub concluded : Ending → Bool → JobStatus → JobStatus
  concluded (raised m) noticed s = if faulty failing then s else failed
  concluded (returned p) noticed s =
      if faulty marking
      then (if faulty failing then s else failed)
      else if faulty naming && not (faulty failing)
      then failed
      else if noticed
      then cancelled
      else completed

  conclude-status :
      (e : Ending) (r : Run) (s : JobStatus)
      → status (get id r.jobs) ≡ some s
      → status (get id (conclude clip db_error now faulty id e r).jobs)
        ≡ some (concluded e (cancel_requested r) s)
  unfolding conclude
  conclude-status (raised m) r s h = exception-status m r s h
  conclude-status (returned p) r s h = elim (Bool-cases (faulty marking)) [
    | inl bad ↦ rw bad (exception-status db_error r s h)
    | inr good ↦ elim (Bool-cases (faulty naming)) [
      | inl lost ↦
          rw (good, lost)
            (exception-status db_error _ _ (mark_end-status p r s h)
              ∙ elim (Bool-cases (faulty failing)) [ inl bad ↦ rw bad | inr fine ↦ rw fine ])
      | inr named ↦ rw (good, named) (mark_end-status p r s h)
    ]
  ]

  abbrev ran : List Call → Jobs → Run
  ran calls jobs = run_calls id calls (start clip db_error now faulty id jobs)

  -- What the worker's own calls leave: a live row, and the knowledge of a request.
  ran_facts :
      (calls : List Call) (jobs : Jobs) (s : JobStatus)
      → status (get id jobs) ≡ some s
      → is_cancelling s ≡ false
      → (cancel_requested (ran calls jobs) ≡ noticed false calls)
        × ((b : Bool) × (status (get id (ran calls jobs).jobs) ≡ some (live_status b)))
  ran_facts calls jobs s h live =
      let begun = start-status jobs s h ∙ rw live in
      let quiet = start-requested jobs s h ∙ live in
      (
        run_calls-noticed id false calls _ begun (λ t. sym quiet ∙ t)
            ∙ ap (λ b. b || noticed false calls) quiet,
        run_calls-status id false calls _ begun,
      )

  run_job-past_start :
      (calls : List Call) (e : Ending) (jobs : Jobs) (s : JobStatus)
      → status (get id jobs) ≡ some s
      → is_cancelling s ≡ false
      → faulty starting ≡ false
      → run_job clip db_error now faulty id calls e jobs
        ≡ finalise clip db_error now faulty id
            (conclude clip db_error now faulty id e (ran calls jobs))
  unfolding run_job
  run_job-past_start calls e jobs s h live good = rw (good, start-requested jobs s h ∙ live)

  settled : JobStatus → JobStatus
  settled s = if is_terminal s then s else failed

  settled-terminal : (s : JobStatus) → is_terminal (settled s) ≡ true
  unfolding settled is_terminal
  settled-terminal s = ground arith

  run_job-settled :
      (calls : List Call) (e : Ending) (jobs : Jobs) (s : JobStatus)
      → status (get id jobs) ≡ some s
      → is_cancelling s ≡ false
      → faulty starting ≡ false
      → faulty ending ≡ false
      → (b : Bool) × (status (get id (run_job clip db_error now faulty id calls e jobs).jobs)
          ≡ some (settled (concluded e (noticed false calls) (live_status b))))
  unfolding settled
  run_job-settled calls e jobs s h live g1 g3 =
      let (known, (b, there)) = ran_facts calls jobs s h live in
      (
        b,
        rw (run_job-past_start calls e jobs s h live g1)
            (finalise-status _ _ g3 (conclude-status e (ran calls jobs) _ there) ∙ rw known),
      )

  settled_mark :
      (b : Bool)
      → settled (if b then cancelled else completed) ≡ (if b then cancelled else completed)
  unfolding settled is_terminal
  settled_mark true = refl
  settled_mark false = refl

  -- A job that was not asked to stop before its start, and whose worker returns, ends cancelled
  -- exactly if one of the worker's bookkeeping calls followed a cancel request, and completed
  -- otherwise. This holds if `mark_processing`, the mark after the worker, the read of the job's type
  -- behind that mark and the last transaction do not raise.
  pub run_job-returned :
      (calls : List Call) (payload : Option String) (jobs : Jobs) (s : JobStatus)
      → status (get id jobs) ≡ some s
      → is_cancelling s ≡ false
      → faulty starting ≡ false
      → faulty marking ≡ false
      → faulty naming ≡ false
      → faulty ending ≡ false
      → status (get id (run_job clip db_error now faulty id calls (returned payload) jobs).jobs)
        ≡ some (if noticed false calls then cancelled else completed)
  run_job-returned calls payload jobs s h live g1 g2 named g3 =
      (run_job-settled calls (returned payload) jobs s h live g1 g3).1
      ∙ rw (g2, named) (ap some (settled_mark (noticed false calls)))

  cancelling_of : (s : JobStatus) → is_cancelling s ≡ true → s ≡ cancelling
  unfolding is_cancelling
  cancelling_of s h = ground arith

  run_job-skips :
      (calls : List Call) (e : Ending) (jobs : Jobs)
      → status (get id jobs) ≡ some cancelling
      → faulty starting ≡ false
      → run_job clip db_error now faulty id calls e jobs
        ≡ skip clip db_error now faulty id (start clip db_error now faulty id jobs)
  unfolding run_job
  run_job-skips calls e jobs h good =
      rw (good, start-requested jobs cancelling h ∙ unfold is_cancelling in refl)

  skip-status :
      (r : Run) (s : JobStatus)
      → status (get id r.jobs) ≡ some s
      → faulty skipping ≡ false
      → status (get id (skip clip db_error now faulty id r).jobs) ≡ some cancelled
  unfolding skip
  skip-status r s h good =
      rw good (update-status id _ (λ _. cancelled) r (λ job. unfold apply_cancelled in refl) ∙ rw h)

  -- A job that was asked to stop before its start ends cancelled, and the worker's calls do not
  -- count: the table is the same whatever the worker would have done.
  pub run_job-prestart :
      (calls calls' : List Call) (e e' : Ending) (jobs : Jobs)
      → status (get id jobs) ≡ some cancelling
      → faulty starting ≡ false
      → faulty skipping ≡ false
      → (status (get id (run_job clip db_error now faulty id calls e jobs).jobs) ≡ some cancelled)
        × (run_job clip db_error now faulty id calls e jobs
            ≡ run_job clip db_error now faulty id calls' e' jobs)
  run_job-prestart calls calls' e e' jobs h g1 g2 = (
    rw (run_job-skips calls e jobs h g1) (skip-status _ _ (start-status jobs cancelling h) g2),
    run_job-skips calls e jobs h g1 ∙ sym (run_job-skips calls' e' jobs h g1),
  )

  -- A run leaves the row of its job in a terminal status, whatever the worker does, however it
  -- ends, and whichever of the transactions after the worker raise, if the job is in the table,
  -- `mark_processing` and the transaction of `finally` do not raise, and for a job that was asked
  -- to stop before its start the transaction that cancels it does not raise.
  pub run_job-terminal :
      (calls : List Call) (e : Ending) (jobs : Jobs) (s : JobStatus)
      → status (get id jobs) ≡ some s
      → faulty starting ≡ false
      → faulty ending ≡ false
      → (is_cancelling s ≡ true → faulty skipping ≡ false)
      → (t : JobStatus) × (status (get id (run_job clip db_error now faulty id calls e jobs).jobs)
          ≡ some t)
        × (is_terminal t ≡ true)
  run_job-terminal calls e jobs s h g1 g3 g2 = elim (Bool-cases (is_cancelling s)) [
    | inl asked ↦
        let c = cancelling_of s asked in
        (
          cancelled,
          (run_job-prestart calls calls e e jobs (h ∙ ap some c) g1 (g2 asked)).0,
          unfold is_terminal in refl,
        )
    | inr live ↦
        let (b, q) = run_job-settled calls e jobs s h live g1 g3 in (_, q, settled-terminal _)
  ]
