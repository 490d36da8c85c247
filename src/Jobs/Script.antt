-- ===== src/Jobs/Script.antt =====
-- The status of one row through the calls of a worker.
use mathlib.Core.Option
use pickwise_v2_backend.Prelude.{
  ℕ, ◌≡◌, refl, ap, sym, ◌∙◌, ◌⊎◌, inl, inr, String, Bool, true, false, ◌||◌, Option, none, some,
  List, [], ◌∷◌, arith, ==_refl, if◌then◌else◌, get, get-put,
}
use pickwise_v2_backend.Jobs.{
  JobStatus, processing, cancelling, Job, Jobs, Run, Call, advance, set_total, request_cancel,
  update_row, update, is_terminal, is_cancelling, cancel_row, cancel_job, after, step, run_calls,
  apply_advance, apply_total, cancel_requested,
}

abbrev pub status : Option Job → Option JobStatus
status none = none
status (some job) = some job.status

update_row-status :
    (id : ℕ) (f : Job → Job) (g : JobStatus → JobStatus) (o : Option Job) (r : Run)
    → get id r.jobs ≡ o
    → ((job : Job) → (f job).status ≡ g job.status)
    → status (get id (update_row id f o r).jobs) ≡ Option.map g (status o)
unfolding update_row
update_row-status id f g none r e h = rw e
update_row-status id f g (some job) r e h =
    rw (get-put id id (f job) r.jobs, e, ==_refl id) (ap some (h job))

pub update-status :
    (id : ℕ) (f : Job → Job) (g : JobStatus → JobStatus) (r : Run)
    → ((job : Job) → (f job).status ≡ g job.status)
    → status (get id (update id f r).jobs) ≡ Option.map g (status (get id r.jobs))
unfolding update
update-status id f g r h = update_row-status id f g (get id r.jobs) r refl h

update_row-seen :
    (id : ℕ) (f : Job → Job) (o : Option Job) (r : Run) {s : JobStatus}
    → status o ≡ some s
    → (update_row id f o r).seen ≡ some s
unfolding update_row
update_row-seen id f none r e = cc
update_row-seen id f (some job) r e = e

pub update-seen :
    (id : ℕ) (f : Job → Job) (r : Run) {s : JobStatus}
    → status (get id r.jobs) ≡ some s
    → (update id f r).seen ≡ some s
unfolding update
update-seen id f r e = update_row-seen id f (get id r.jobs) r e

advance-status :
    (s : Bool) (i e : Option String) (n : ℕ) (job : Job)
    → (apply_advance s i e n job).status ≡ job.status
unfolding apply_advance
advance-status s i e n job = ground arith

total-status : (n : ℕ) (job : Job) → (apply_total n job).status ≡ job.status
unfolding apply_total
total-status n job = refl

cancel_row-status :
    (id : ℕ) (o : Option Job) (jobs : Jobs)
    → get id jobs ≡ o
    → (status o ≡ some processing) ⊎ (status o ≡ some cancelling)
    → status (get id (after jobs (cancel_row id o jobs))) ≡ some cancelling
unfolding cancel_row after is_terminal is_cancelling
cancel_row-status id none jobs e h = ground arith
cancel_row-status id (some job) jobs e h =
    ground (arith, get-put id id (record job { status = cancelling }) jobs)

-- Whether a bookkeeping call follows a cancel request. `asked` says that there is one already.
unfoldable pub noticed : Bool → List Call → Bool
noticed asked [] = false
noticed asked (advance _ _ _ _ ∷ cs) = asked || noticed asked cs
noticed asked (set_total _ ∷ cs) = asked || noticed asked cs
noticed asked (request_cancel ∷ cs) = noticed true cs

abbrev pub live_status : Bool → JobStatus
live_status asked = if asked then cancelling else processing

request-status :
    (id : ℕ) (asked : Bool) (r : Run)
    → status (get id r.jobs) ≡ some (live_status asked)
    → status (get id (step id request_cancel r).jobs) ≡ some cancelling
unfolding step cancel_job
request-status id true r h = cancel_row-status id (get id r.jobs) r.jobs refl (inr h)
request-status id false r h = cancel_row-status id (get id r.jobs) r.jobs refl (inl h)

-- Through the calls the row is there, and its status says whether it was asked to stop.
pub run_calls-status :
    (id : ℕ) (asked : Bool) (cs : List Call) (r : Run)
    → status (get id r.jobs) ≡ some (live_status asked)
    → (b : Bool) × (status (get id (run_calls id cs r).jobs) ≡ some (live_status b))
unfolding run_calls
run_calls-status id asked [] r h = (asked, h)
run_calls-status id asked (advance s i e n ∷ cs) r h =
    run_calls-status id asked cs _
      (unfold step in update-status id _ (λ x. x) r (advance-status s i e n) ∙ rw h)
run_calls-status id asked (set_total n ∷ cs) r h =
    run_calls-status id asked cs _
      (unfold step in update-status id _ (λ x. x) r (total-status n) ∙ rw h)
run_calls-status id asked (request_cancel ∷ cs) r h =
    run_calls-status id true cs _ (request-status id asked r h)

pub requested_of_seen :
    (r : Run) {s : JobStatus} → r.seen ≡ some s → cancel_requested r ≡ is_cancelling s
unfolding cancel_requested
requested_of_seen r h = ground arith

-- A bookkeeping transaction learns whether the row was asked to stop.
update-requested :
    (id : ℕ) (asked : Bool) (f : Job → Job) (r : Run)
    → status (get id r.jobs) ≡ some (live_status asked)
    → cancel_requested (update id f r) ≡ asked
unfolding cancel_requested is_cancelling
update-requested id true f r h = rw (update-seen id f r h)
update-requested id false f r h = rw (update-seen id f r h)

-- The endpoint's transaction is not the run's own.
request-requested :
    (id : ℕ) (r : Run) → cancel_requested (step id request_cancel r) ≡ cancel_requested r
unfolding step cancel_requested
request-requested id r = refl

or_absorb : (cr asked n : Bool) → (cr ≡ true → asked ≡ true) → (asked || n) ≡ (cr || (asked || n))
or_absorb true asked n k = rw (k refl)
or_absorb false asked n k = refl

-- The run knows of a request exactly if a bookkeeping call followed it.
pub run_calls-noticed :
    (id : ℕ) (asked : Bool) (cs : List Call) (r : Run)
    → status (get id r.jobs) ≡ some (live_status asked)
    → (cancel_requested r ≡ true → asked ≡ true)
    → cancel_requested (run_calls id cs r) ≡ (cancel_requested r || noticed asked cs)
unfolding run_calls noticed step
run_calls-noticed id asked [] r h k = ground arith
run_calls-noticed id asked (advance s i e n ∷ cs) r h k =
    let q = update-requested id asked (apply_advance s i e n) r h in
    run_calls-noticed id asked cs _ (update-status id _ (λ x. x) r (advance-status s i e n) ∙ rw h)
      (λ t. sym q ∙ t)
    ∙ rw q (or_absorb _ asked _ k)
run_calls-noticed id asked (set_total n ∷ cs) r h k =
    let q = update-requested id asked (apply_total n) r h in
    run_calls-noticed id asked cs _ (update-status id _ (λ x. x) r (total-status n) ∙ rw h)
      (λ t. sym q ∙ t)
    ∙ rw q (or_absorb _ asked _ k)
run_calls-noticed id asked (request_cancel ∷ cs) r h k =
    run_calls-noticed id true cs _ (request-status id asked r h) (λ _. refl)
    ∙ ap (λ b. b || noticed true cs) (request-requested id r)
