-- ===== src/Jobs/Progress.antt =====
-- What one bookkeeping transaction does to the table of jobs.
use mathlib.Core.Path.{subst}
use mathlib.Core.Option
use pickwise_v2_backend.Prelude.{
  ℕ, ◌≡◌, refl, String, Bool, false, Option, none, some, arith, ◌==◌, if◌then◌else◌, get, put,
  get-put, Option-cases, Bool-cases, inl, inr,
}
use pickwise_v2_backend.Jobs.{
  cancelling, Job, Jobs, Run, Call, advance, set_total, request_cancel, update_row, update,
  is_terminal, is_cancelling, cancel_row, cancel_job, after, step, apply_advance, apply_total,
}

-- A property of every row that a key finds.
abbrev pub Holds : (Job → Type 0) → Jobs → Type 0
Holds P jobs = (j : ℕ) (job : Job) → get j jobs ≡ some job → P job

pub put-Holds :
    {P : Job → Type 0} (id : ℕ) (job : Job) (jobs : Jobs)
    → P job
    → Holds P jobs
    → Holds P (put id job jobs)
put-Holds {P} id job jobs p h j row e = elim (Option-cases (get id jobs)) [
  | inl gone ↦ h j row (ground (arith, get-put id j job jobs))
  | inr (old, there) ↦ elim (Bool-cases (id == j)) [
    | inl same ↦ subst P {x = job} {y = row} (ground (arith, get-put id j job jobs)) p
    | inr other ↦ h j row (ground (arith, get-put id j job jobs))
  ]
]

-- The row that a transaction leaves behind each key.
update_row-get :
    (id j : ℕ) (f : Job → Job) (o : Option Job) (r : Run)
    → get id r.jobs ≡ o
    → get j (update_row id f o r).jobs ≡ (if id == j then Option.map f o else get j r.jobs)
unfolding update_row
update_row-get id j f none r e = ground arith
update_row-get id j f (some job) r e = rw (get-put id j (f job) r.jobs, e)

pub get-update :
    (id j : ℕ) (f : Job → Job) (r : Run)
    → get j (update id f r).jobs ≡ (if id == j then Option.map f (get id r.jobs) else get j r.jobs)
unfolding update
get-update id j f r = update_row-get id j f (get id r.jobs) r refl

update_row-Holds :
    {P : Job → Type 0} (id : ℕ) (f : Job → Job) (o : Option Job) (r : Run)
    → get id r.jobs ≡ o
    → ((job : Job) → P job → P (f job))
    → Holds P r.jobs
    → Holds P (update_row id f o r).jobs
unfolding update_row
update_row-Holds id f none r e keep h = h
update_row-Holds id f (some job) r e keep h = put-Holds id (f job) r.jobs (keep job (h id job e)) h

pub update-Holds :
    {P : Job → Type 0} (id : ℕ) (f : Job → Job) (r : Run)
    → ((job : Job) → P job → P (f job))
    → Holds P r.jobs
    → Holds P (update id f r).jobs
unfolding update
update-Holds id f r keep h = update_row-Holds id f (get id r.jobs) r refl keep h

cancel_row-Holds :
    {P : Job → Type 0} (id : ℕ) (o : Option Job) (jobs : Jobs)
    → get id jobs ≡ o
    → ((job : Job)
        → is_terminal job.status ≡ false
        → P job
        → P (record job { status = cancelling }))
    → Holds P jobs
    → Holds P (after jobs (cancel_row id o jobs))
unfolding cancel_row after
cancel_row-Holds id none jobs e ask h = h
cancel_row-Holds id (some job) jobs e ask h = elim (Bool-cases (is_terminal job.status)) [
  | inl over ↦ rw over h
  | inr live ↦ elim (Bool-cases (is_cancelling job.status)) [
    | inl asked ↦ rw (live, asked) h
    | inr fresh ↦ rw (live, fresh) (put-Holds id _ jobs (ask job live (h id job e)) h)
  ]
]

-- One step of the script keeps what each of its changes of a row keeps.
pub step-Holds :
    {P : Job → Type 0} (id : ℕ) (c : Call) (r : Run)
    → ((s : Bool) (i e : Option String) (n : ℕ) (job : Job) → P job → P (apply_advance s i e n job))
    → ((n : ℕ) (job : Job) → P job → P (apply_total n job))
    → ((job : Job)
        → is_terminal job.status ≡ false
        → P job
        → P (record job { status = cancelling }))
    → Holds P r.jobs
    → Holds P (step id c r).jobs
unfolding step cancel_job
step-Holds id (advance s i e n) r adv tot ask h = update-Holds id _ r (adv s i e n) h
step-Holds id (set_total n) r adv tot ask h = update-Holds id _ r (tot n) h
step-Holds id request_cancel r adv tot ask h = cancel_row-Holds id (get id r.jobs) r.jobs refl ask h
