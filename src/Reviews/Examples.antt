-- ===== src/Reviews/Examples.antt =====
-- The funnel and the fetch guard at concrete inputs.
use pickwise_v2_backend.Prelude.{
  get, get_text, put_text, String, Bool, ◌≤◌, false, ℕ, ◌+◌, ◌≡◌, refl, true, false, Option, none,
  some, List, [], ◌∷◌, length, All,
}
use pickwise_v2_backend.Reviews.Funnel.{
  Review, Candidate, Place, matched, rejected, irrelevant, found, transcript, linked, shown,
  transcript_terminal, transcript_retryable, transcript_deferred, transcript_unknown, partial,
  FunnelRow, classify, funnel_counts, review_ids, tally, visit, place, place_linked,
  transcript_stuck, processing_reason, is_terminal, funnel_row, count_reason,
}
use pickwise_v2_backend.Reviews.Funnel.Counts.{total, funnel_counts-conserved}
use pickwise_v2_backend.Reviews.Funnel.Lists.{review_ids-count}
use pickwise_v2_backend.Reviews.Fetch.{
  TranscriptFailure, ip_blocked, network, new_guard, fetch_all, fetch, is_blocked,
}
use pickwise_v2_backend.Reviews.Workers.{
  RetryRow, RetryTurn, retry_transcripts, retry_report, already_processed, raised, reported,
  ProcessTurn, process_each, no_process,
}
use pickwise_v2_backend.Reviews.Workers.Calls.{successes, failures}
use pickwise_v2_backend.Reviews.Workers.Retries.{retry_report-advances}
use pickwise_v2_backend.Reviews.Workers.Processing.{IsTallied, process_each-reached}
use pickwise_v2_backend.Reviews.Fetch.Runs.{has_block_run, fetch_all-tripped}

abbrev reviews : List Review
reviews =
    record {
      id = 1;
      video_id = "a";
      status = rejected;
      failure_reason = some "no_track";
      transcript_attempts = 1;
      has_segments = false;
      has_link = false;
    }
    ∷ record {
      id = 2;
      video_id = "b";
      status = matched;
      failure_reason = none;
      transcript_attempts = 1;
      has_segments = true;
      has_link = true;
    }
    ∷ record {
      id = 3;
      video_id = "c";
      status = matched;
      failure_reason = none;
      transcript_attempts = 1;
      has_segments = true;
      has_link = true;
    }
    ∷ record {
      id = 4;
      video_id = "d";
      status = irrelevant;
      failure_reason = none;
      transcript_attempts = 0;
      has_segments = false;
      has_link = false;
    }
    ∷ []

abbrev candidates : List (ℕ × Candidate)
candidates = (2, record { reprocess = false; windows_saved = 3 }) ∷ []

abbrev classified : List (ℕ × Place)
classified =
    (1, (found, some transcript_terminal)) ∷ (2, (linked, some partial)) ∷ (3, (shown, none)) ∷ []

classify_runs : classify candidates ("c" ∷ []) reviews ≡ classified
unfolding classify place place_linked transcript_stuck processing_reason is_terminal get
classify_runs = refl

abbrev row_found : FunnelRow
row_found = record { step = found; count = 3; stuck = [] }

abbrev row_transcript : FunnelRow
row_transcript = record {
  step = transcript;
  count = 2;
  stuck =
      (transcript_terminal, 1)
      ∷ (transcript_retryable, 0)
      ∷ (transcript_deferred, 0)
      ∷ (transcript_unknown, 0)
      ∷ [];
}

funnel_counts-conserved_example : 3 ≡ 2 + total row_transcript.stuck
unfolding funnel_counts funnel_row tally visit count_reason classify place place_linked
    transcript_stuck processing_reason is_terminal get
funnel_counts-conserved_example =
    funnel_counts-conserved candidates ("c" ∷ []) reviews 0 row_found row_transcript refl refl

review_ids-count_example :
    All
      (λ row.
        (length (review_ids (some row.step) none classified) ≡ row.count)
        × All (λ e. length (review_ids none (some e.0) classified) ≡ e.1) row.stuck)
      (funnel_counts classified)
review_ids-count_example = review_ids-count classified

abbrev fetches : List (Option TranscriptFailure)
fetches = some ip_blocked ∷ none ∷ some ip_blocked ∷ some ip_blocked ∷ some network ∷ []

tripped_runs : (fetch_all fetches (new_guard 2)).tripped ≡ true
unfolding fetch_all fetch is_blocked
tripped_runs = refl

fetch_all-tripped_example : (fetch_all fetches (new_guard 2)).tripped ≡ has_block_run 2 fetches
fetch_all-tripped_example = fetch_all-tripped 1 fetches

abbrev retry_turn : String → Option TranscriptFailure → Bool → RetryTurn
retry_turn id fetched is_deleted = record {
  review_id = id;
  fetched = fetched;
  is_deleted = is_deleted;
  is_cancelled = false;
}

abbrev turns : List RetryTurn
turns =
    retry_turn "a" none false ∷ retry_turn "b" (some network) false ∷ retry_turn "c" none true ∷ []

abbrev retry_row : RetryRow
retry_row = record {
  transcript_attempts = 1;
  has_transcript = false;
  failure_reason = none;
  is_pending = false;
}

abbrev retry_rows : List (String × RetryRow)
retry_rows = ("a", retry_row) ∷ ("b", retry_row) ∷ ("c", retry_row) ∷ []

retry_report-advances_example :
    ((retry_report turns (retry_transcripts 3 turns retry_rows)).done
      ≡ successes (retry_transcripts 3 turns retry_rows).advances)
    × ((retry_report turns (retry_transcripts 3 turns retry_rows)).failed
        ≤ failures (retry_transcripts 3 turns retry_rows).advances)
    × (successes (retry_transcripts 3 turns retry_rows).advances
          + failures (retry_transcripts 3 turns retry_rows).advances
          + (retry_report turns (retry_transcripts 3 turns retry_rows)).skipped
        ≡ length turns)
retry_report-advances_example = retry_report-advances 3 turns retry_rows

-- A review that was deleted during the run is in no count of the report.
retry_runs :
    retry_report turns (retry_transcripts 3 turns retry_rows)
    ≡ record { done = 1; failed = 1; skipped = 0 }
unfolding retry_report retry_transcripts fetch is_blocked get_text put_text
retry_runs = refl

abbrev process_turns : List ProcessTurn
process_turns =
    record { process_id = "a"; outcome = reported true 3 0; stop_after = false }
    ∷ record { process_id = "b"; outcome = raised; stop_after = true }
    ∷ record { process_id = "c"; outcome = already_processed; stop_after = false }
    ∷ []

process_each-reached_example :
    ((process_each process_turns no_process).results ≡ "a" ∷ "b" ∷ [])
    × IsTallied (process_each process_turns no_process)
process_each-reached_example = process_each-reached process_turns
