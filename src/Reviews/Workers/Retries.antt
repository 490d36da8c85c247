-- ===== src/Reviews/Workers/Retries.antt =====
-- The counts of a retry's report and the calls that advance its job.
use pickwise_v2_backend.Prelude.{
  ℕ, ◌+◌, ◌≤◌, ◌≡◌, refl, inl, inr, Bool-cases, String, true, false, ◌||◌, Option, none, some, List,
  [], ◌∷◌, length, str_eq, arith, get_text, put_text,
}
use pickwise_v2_backend.Reviews.Fetch.{
  TranscriptFailure, value, TranscriptFetchGuard, new_guard, fetch, is_blocked,
}
use pickwise_v2_backend.Reviews.Workers.{
  Advance, RetryRow, RetryTurn, Retried, or_nothing, sum_values, count_failure, retry_gone,
  retry_found, row_now, after_fetch, retry_each, retry_transcripts, retry_report,
}
use pickwise_v2_backend.Reviews.Workers.Calls.{
  successes, failures, successes-append, failures-append,
}

sum_values-put_text :
    (k : String) (v : ℕ) (counts : List (String × ℕ))
    → sum_values (put_text k v counts) + or_nothing (get_text k counts) ≡ sum_values counts + v
unfolding put_text get_text
sum_values-put_text k v [] = omega arith
sum_values-put_text k v ((j, n) ∷ counts) = elim (Bool-cases (str_eq j k)) [
  | inl here ↦ rw here (omega arith)
  | inr past ↦ rw past (omega (arith, sum_values-put_text k v counts))
]

-- What the loop keeps.
record IsKept (s : Retried) : Type 0 where
  recovered_are : s.recovered ≡ successes s.advances
  failing_are : sum_values s.still_failing ≤ failures s.advances
  attempted_are : s.guard.attempted ≡ successes s.advances + failures s.advances

attempted-fetch :
    (o : Option TranscriptFailure) (g : TranscriptFetchGuard)
    → (fetch o g).attempted ≡ g.attempted + 1
unfolding fetch
attempted-fetch o g = elim (Bool-cases (is_blocked o)) [
  | inl blocked ↦ rw blocked refl
  | inr fine ↦ rw fine refl
]

-- A state in which one fetch is ahead of its calls.
record IsAhead (s : Retried) : Type 0 where
  recovered_were : s.recovered ≡ successes s.advances
  failing_were : sum_values s.still_failing ≤ failures s.advances
  attempted_were : s.guard.attempted ≡ successes s.advances + failures s.advances + 1

retry_gone-IsKept : (t : RetryTurn) (s : Retried) → IsAhead s → IsKept (retry_gone t s)
unfolding retry_gone
retry_gone-IsKept t s k =
    let a : Advance = record { item = t.review_id; succeeded = false } in
    record {
      recovered_are = omega (arith, k.recovered_were, successes-append s.advances a);
      failing_are = omega (arith, k.failing_were, failures-append s.advances a);
      attempted_are =
          omega
            (arith, k.attempted_were, successes-append s.advances a, failures-append s.advances a);
    }

retry_found-IsKept :
    (t : RetryTurn) (row : RetryRow) (s : Retried) (o : Option TranscriptFailure)
    → t.fetched ≡ o
    → IsAhead s
    → IsKept (retry_found t row s)
unfolding retry_found count_failure
retry_found-IsKept t row s none e k =
    let a : Advance = record { item = t.review_id; succeeded = true } in
    record {
      recovered_are = rw e (omega (arith, k.recovered_were, successes-append s.advances a));
      failing_are = rw e (omega (arith, k.failing_were, failures-append s.advances a));
      attempted_are = rw e (
          omega
            (arith, k.attempted_were, successes-append s.advances a, failures-append s.advances a));
    }
retry_found-IsKept t row s (some failure) e k =
    let a : Advance = record { item = t.review_id; succeeded = false } in
    record {
      recovered_are = rw e (omega (arith, k.recovered_were, successes-append s.advances a));
      failing_are = rw e (
          omega (
            arith,
            k.failing_were,
            failures-append s.advances a,
            sum_values-put_text (value failure)
                (or_nothing (get_text (value failure) s.still_failing) + 1) s.still_failing,
          ));
      attempted_are = rw e (
          omega
            (arith, k.attempted_were, successes-append s.advances a, failures-append s.advances a));
    }

-- The end of a loop: what it keeps, and that it goes through no more turns than there are.
IsEnd : ℕ → Retried → Type 0
IsEnd bound s = IsKept s × (s.guard.attempted ≤ bound)

after_fetch-IsEnd :
    (t : RetryTurn) (o : Option RetryRow) (rest : Retried → Retried) (n : ℕ) (s : Retried)
    → ((s' : Retried) → IsKept s' → IsEnd (s'.guard.attempted + n) (rest s'))
    → IsAhead s
    → IsEnd (s.guard.attempted + n) (after_fetch t o rest s)
unfolding after_fetch IsEnd retry_gone retry_found
after_fetch-IsEnd t none rest n s ends k = ends (retry_gone t s) (retry_gone-IsKept t s k)
after_fetch-IsEnd t (some row) rest n s ends k =
    let s' = retry_found t row s in
    let kept = retry_found-IsKept t row s t.fetched refl k in
    elim (Bool-cases (s'.guard.tripped || t.is_cancelled)) [
      | inl stop ↦ rw stop (kept, omega arith)
      | inr on ↦ rw on (ends s' kept)
    ]

retry_each-IsEnd :
    (ts : List RetryTurn) (s : Retried)
    → IsKept s
    → IsEnd (s.guard.attempted + length ts) (retry_each ts s)
unfolding retry_each IsEnd
retry_each-IsEnd [] s k = (k, omega arith)
retry_each-IsEnd (t ∷ ts) s k =
    let s' : Retried = record s { guard = fetch t.fetched s.guard } in
    let more : s'.guard.attempted ≡ s.guard.attempted + 1 = attempted-fetch t.fetched s.guard in
    let ahead : IsAhead s' = record {
      recovered_were = k.recovered_are;
      failing_were = k.failing_are;
      attempted_were = omega (arith, more, k.attempted_are);
    } in
    let (kept, bound) =
      after_fetch-IsEnd t (row_now t.is_deleted (get_text t.review_id s.rows))
        (λ r. retry_each ts r) (length ts) s' (λ r kr. retry_each-IsEnd ts r kr) ahead in
    (kept, omega (arith, bound, more))

-- The report of a retry counts as done what its calls to the job count as successes. What they count
-- as failures and what it counts as skipped make up the rest of the candidates, and it counts no more
-- failures than they do.
pub retry_report-advances :
    (max_blocks : ℕ) (turns : List RetryTurn) (rows : List (String × RetryRow))
    → ((retry_report turns (retry_transcripts max_blocks turns rows)).done
        ≡ successes (retry_transcripts max_blocks turns rows).advances)
      × ((retry_report turns (retry_transcripts max_blocks turns rows)).failed
          ≤ failures (retry_transcripts max_blocks turns rows).advances)
      × (successes (retry_transcripts max_blocks turns rows).advances
            + failures (retry_transcripts max_blocks turns rows).advances
            + (retry_report turns (retry_transcripts max_blocks turns rows)).skipped
          ≡ length turns)
unfolding retry_report retry_transcripts IsEnd
retry_report-advances max_blocks turns rows =
    let s : Retried = record {
      guard = new_guard max_blocks;
      rows = rows;
      recovered = 0;
      still_failing = [];
      advances = [];
    } in
    let (kept, bound) =
      retry_each-IsEnd turns s
        (record { recovered_are = refl; failing_are = omega arith; attempted_are = refl }) in
    (kept.recovered_are, kept.failing_are, omega (arith, kept.attempted_are, bound))
