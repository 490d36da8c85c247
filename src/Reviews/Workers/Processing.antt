-- ===== src/Reviews/Workers/Processing.antt =====
-- The counts of the processing's report and the calls that advance its job.
use pickwise_v2_backend.Prelude.{
  ◌+◌, ◌≡◌, refl, sym, ap, ◌∙◌, inl, inr, Bool-cases, String, true, false, List, [], ◌∷◌, ◌++◌, map,
  length, length-append, arith, if◌then◌else◌,
}
use pickwise_v2_backend.Reviews.Workers.{
  Processed, already_processed, raised, reported, ProcessTurn, ProcessReport, process_outcome,
  process_each, no_process,
}
use pickwise_v2_backend.Reviews.Workers.Calls.{
  successes, failures, successes-append, failures-append,
}

-- The turns up to the first after which the job was asked to stop.
abbrev pub reached : List ProcessTurn → List ProcessTurn
reached [] = []
reached (t ∷ ts) = if t.stop_after then t ∷ [] else t ∷ reached ts

-- What the processing keeps: every review that was gone through is counted once.
abbrev pub IsTallied : ProcessReport → Type 0
IsTallied r =
    (r.counted.done + r.counted.skipped ≡ successes r.process_advances)
    × (r.counted.failed ≡ failures r.process_advances)
    × (r.counted.done + r.counted.failed + r.counted.skipped ≡ length r.results)

process_outcome-IsTallied :
    (id : String) (o : Processed) (r : ProcessReport)
    → IsTallied r
    → IsTallied (process_outcome id o r)
unfolding process_outcome
process_outcome-IsTallied id already_processed r k = (
  omega (arith, k.0, successes-append r.process_advances (record { item = id; succeeded = true })),
  omega (arith, k.1, failures-append r.process_advances (record { item = id; succeeded = true })),
  omega (arith, k.2, length-append r.results (id ∷ [])),
)
process_outcome-IsTallied id raised r k = (
  omega (arith, k.0, successes-append r.process_advances (record { item = id; succeeded = false })),
  omega (arith, k.1, failures-append r.process_advances (record { item = id; succeeded = false })),
  omega (arith, k.2, length-append r.results (id ∷ [])),
)
process_outcome-IsTallied id (reported true saved missed) r k = (
  omega (arith, k.0, successes-append r.process_advances (record { item = id; succeeded = true })),
  omega (arith, k.1, failures-append r.process_advances (record { item = id; succeeded = true })),
  omega (arith, k.2, length-append r.results (id ∷ [])),
)
process_outcome-IsTallied id (reported false saved missed) r k = (
  omega (arith, k.0, successes-append r.process_advances (record { item = id; succeeded = false })),
  omega (arith, k.1, failures-append r.process_advances (record { item = id; succeeded = false })),
  omega (arith, k.2, length-append r.results (id ∷ [])),
)

append_nil : (xs : List String) → xs ++ [] ≡ xs
append_nil [] = refl
append_nil (x ∷ xs) = ap (◌∷◌ x) (append_nil xs)

append_assoc : (xs ys : List String) (x : String) → (xs ++ x ∷ []) ++ ys ≡ xs ++ x ∷ ys
append_assoc [] ys x = refl
append_assoc (y ∷ xs) ys x = ap (◌∷◌ y) (append_assoc xs ys x)

results-process_outcome :
    (id : String) (o : Processed) (r : ProcessReport)
    → (process_outcome id o r).results ≡ r.results ++ id ∷ []
unfolding process_outcome
results-process_outcome id already_processed r = refl
results-process_outcome id raised r = refl
results-process_outcome id (reported complete saved missed) r = refl

process_each-IsTallied :
    (ts : List ProcessTurn) (r : ProcessReport)
    → IsTallied r
    → IsTallied (process_each ts r)
      × ((process_each ts r).results
          ≡ r.results ++ map (λ (t : ProcessTurn). t.process_id) (reached ts))
unfolding process_each
process_each-IsTallied [] r k = (k, sym (append_nil r.results))
process_each-IsTallied (t ∷ ts) r k =
    let r' = process_outcome t.process_id t.outcome r in
    let k' = process_outcome-IsTallied t.process_id t.outcome r k in
    let e = results-process_outcome t.process_id t.outcome r in
    elim (Bool-cases t.stop_after) [
      | inl stop ↦ rw stop (k', e)
      | inr on ↦
          let (tallied, later) = process_each-IsTallied ts r' k' in
          rw on (
            tallied,
            later
                ∙ (ap (λ xs. xs ++ map (λ (u : ProcessTurn). u.process_id) (reached ts)) e
                    ∙ append_assoc r.results (map (λ (u : ProcessTurn). u.process_id) (reached ts))
                        t.process_id),
          )
    ]

-- The processing goes through the reviews in order, up to the first after which the job was asked to
-- stop, and counts each of them once: as done or skipped where its call to the job is a success, and
-- as failed where it is not.
pub process_each-reached :
    (ts : List ProcessTurn)
    → ((process_each ts no_process).results ≡ map (λ (t : ProcessTurn). t.process_id) (reached ts))
      × IsTallied (process_each ts no_process)
process_each-reached ts =
    let (tallied, results) = process_each-IsTallied ts no_process (refl, refl, refl) in
    (results, tallied)
