-- ===== src/Reviews/Workers.antt =====
-- The workers of app/reviews/jobs.py that go through reviews: retry_transcripts_worker, `_process` and
-- rematch_worker. What a fetch, the processing or the matcher gives for a review comes in with its
-- turn, and so does whether the job was asked to stop by then.
pub mod Calls
pub mod Retries
pub mod Processing
use pickwise_v2_backend.Prelude.{
  ℕ, ◌+◌, ◌-◌, String, Bool, true, false, ◌||◌, Option, none, some, List, [], ◌∷◌, ◌++◌, length,
  get_text, put_text, if◌then◌else◌,
}
use pickwise_v2_backend.Reviews.Fetch.{
  TranscriptFailure, value, TranscriptFetchGuard, new_guard, fetch,
}

-- A call of `progress.advance`.
pub record Advance : Type 0 where
  pub item : String
  pub succeeded : Bool

-- The columns of a review that a retry writes.
pub record RetryRow : Type 0 where
  pub transcript_attempts : ℕ
  pub has_transcript : Bool
  pub failure_reason : Option String
  pub is_pending : Bool

pub record RetryTurn : Type 0 where
  pub review_id : String
  pub fetched : Option TranscriptFailure  -- none for a transcript
  pub is_deleted : Bool
  pub is_cancelled : Bool

pub record Retried : Type 0 where
  pub guard : TranscriptFetchGuard
  pub rows : List (String × RetryRow)
  pub recovered : ℕ
  pub still_failing : List (String × ℕ)
  pub advances : List Advance

abbrev pub or_nothing : Option ℕ → ℕ
or_nothing none = 0
or_nothing (some n) = n

abbrev pub sum_values : List (String × ℕ) → ℕ
sum_values [] = 0
sum_values ((k, n) ∷ counts) = n + sum_values counts

unfoldable pub retried_row : Option TranscriptFailure → RetryRow → RetryRow
retried_row none row = record {
  transcript_attempts = row.transcript_attempts + 1;
  has_transcript = true;
  failure_reason = none;
  is_pending = true;
}
retried_row (some failure) row = record row {
  transcript_attempts = row.transcript_attempts + 1;
  failure_reason = some (value failure);
}

abbrev pub is_fetched : Option TranscriptFailure → Bool
is_fetched none = true
is_fetched (some failure) = false

unfoldable pub count_failure : Option TranscriptFailure → List (String × ℕ) → List (String × ℕ)
count_failure none counts = counts
count_failure (some failure) counts =
    put_text (value failure) (or_nothing (get_text (value failure) counts) + 1) counts

-- A review that is gone only advances the job.
unfoldable pub retry_gone : RetryTurn → Retried → Retried
retry_gone t s = record s {
  advances = s.advances ++ record { item = t.review_id; succeeded = false } ∷ [];
}

unfoldable pub retry_found : RetryTurn → RetryRow → Retried → Retried
unfolding retried_row count_failure
retry_found t row s = record s {
  rows = put_text t.review_id (retried_row t.fetched row) s.rows;
  recovered = if is_fetched t.fetched then s.recovered + 1 else s.recovered;
  still_failing = count_failure t.fetched s.still_failing;
  advances = s.advances ++ record { item = t.review_id; succeeded = is_fetched t.fetched } ∷ [];
}

abbrev pub row_now : Bool → Option RetryRow → Option RetryRow
row_now true row = none
row_now false row = row

-- What is left of the loop, after the fetch of a turn.
unfoldable pub after_fetch : RetryTurn → Option RetryRow → (Retried → Retried) → Retried → Retried
unfolding retry_gone retry_found
after_fetch t none rest s = rest (retry_gone t s)
after_fetch t (some row) rest s =
    let s' = retry_found t row s in
    let later = rest s' in if s'.guard.tripped || t.is_cancelled then s' else later

unfoldable pub retry_each : List RetryTurn → Retried → Retried
unfolding after_fetch
retry_each [] s = s
retry_each (t ∷ ts) s =
    after_fetch t (row_now t.is_deleted (get_text t.review_id s.rows)) (λ s'. retry_each ts s')
      (record s { guard = fetch t.fetched s.guard })

-- `retry_transcripts_worker`, from the candidates' turns.
unfoldable pub retry_transcripts : ℕ → List RetryTurn → List (String × RetryRow) → Retried
unfolding retry_each
retry_transcripts max_consecutive_blocks turns rows = retry_each turns (record {
  guard = new_guard max_consecutive_blocks;
  rows = rows;
  recovered = 0;
  still_failing = [];
  advances = [];
})

pub record Counted : Type 0 where
  pub done : ℕ
  pub failed : ℕ
  pub skipped : ℕ

unfoldable pub retry_report : List RetryTurn → Retried → Counted
retry_report turns s = record {
  done = s.recovered;
  failed = sum_values s.still_failing;
  skipped = length turns - s.guard.attempted;
}

-- What `process_raw_review` does.
pub data Processed : Type 0 where
  already_processed raised : Processed
  reported : Bool → ℕ → ℕ → Processed

pub record ProcessTurn : Type 0 where
  pub process_id : String
  pub outcome : Processed
  pub stop_after : Bool

pub record ProcessReport : Type 0 where
  pub counted : Counted
  pub chunks_saved : ℕ
  pub chunks_failed : ℕ
  pub results : List String
  pub process_advances : List Advance

abbrev pub one_done : Counted → Counted
one_done c = record c { done = c.done + 1 }

abbrev pub one_failed : Counted → Counted
one_failed c = record c { failed = c.failed + 1 }

abbrev pub one_skipped : Counted → Counted
one_skipped c = record c { skipped = c.skipped + 1 }

unfoldable pub process_outcome : String → Processed → ProcessReport → ProcessReport
process_outcome id already_processed r = record r {
  counted = one_skipped r.counted;
  results = r.results ++ id ∷ [];
  process_advances = r.process_advances ++ record { item = id; succeeded = true } ∷ [];
}
process_outcome id raised r = record r {
  counted = one_failed r.counted;
  results = r.results ++ id ∷ [];
  process_advances = r.process_advances ++ record { item = id; succeeded = false } ∷ [];
}
process_outcome id (reported complete saved missed) r = record r {
  counted = if complete then one_done r.counted else one_failed r.counted;
  chunks_saved = r.chunks_saved + saved;
  chunks_failed = r.chunks_failed + missed;
  results = r.results ++ id ∷ [];
  process_advances = r.process_advances ++ record { item = id; succeeded = complete } ∷ [];
}

-- `_process`.
unfoldable pub process_each : List ProcessTurn → ProcessReport → ProcessReport
unfolding process_outcome
process_each [] r = r
process_each (t ∷ ts) r =
    let r' = process_outcome t.process_id t.outcome r in
    let later = process_each ts r' in if t.stop_after then r' else later

abbrev pub no_process : ProcessReport
no_process = record {
  counted = record { done = 0; failed = 0; skipped = 0 };
  chunks_saved = 0;
  chunks_failed = 0;
  results = [];
  process_advances = [];
}
