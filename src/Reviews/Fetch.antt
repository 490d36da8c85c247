-- ===== src/Reviews/Fetch.antt =====
-- The pacing of transcript fetches: `TranscriptFetchGuard` and the failures of
-- app/reviews/transcript.py. A fetch comes in as its failure, none for a transcript.
pub mod Runs
use pickwise_v2_backend.Prelude.{
  ℕ, ◌+◌, String, Bool, true, false, ◌||◌, Option, none, some, List, [], ◌∷◌, leb, if◌then◌else◌,
}

pub data TranscriptFailure : Type 0 where
  no_track video_unavailable ip_blocked network unknown : TranscriptFailure

-- The value that is stored in the column.
pub value : TranscriptFailure → String
value no_track = "no_track"
value video_unavailable = "video_unavailable"
value ip_blocked = "ip_blocked"
value network = "network_error"
value unknown = "unknown"

-- `TERMINAL_FAILURES`.
pub is_final : TranscriptFailure → Bool
is_final no_track = true
is_final video_unavailable = true
is_final _ = false

-- `TranscriptResult.retryable`.
unfoldable pub retryable : Option TranscriptFailure → Bool
unfolding is_final
retryable none = false
retryable (some failure) = elim (is_final failure) [ true ↦ false | false ↦ true ]

pub record TranscriptFetchGuard : Type 0 where
  pub max_consecutive_blocks : ℕ
  pub attempted : ℕ
  pub tripped : Bool
  pub consecutive_blocks : ℕ

abbrev pub new_guard : ℕ → TranscriptFetchGuard
new_guard max_consecutive_blocks = record {
  max_consecutive_blocks = max_consecutive_blocks;
  attempted = 0;
  tripped = false;
  consecutive_blocks = 0;
}

unfoldable pub is_blocked : Option TranscriptFailure → Bool
is_blocked (some ip_blocked) = true
is_blocked _ = false

-- What `fetch` does to the guard.
unfoldable pub fetch : Option TranscriptFailure → TranscriptFetchGuard → TranscriptFetchGuard
unfolding is_blocked
fetch failure g =
    if is_blocked failure
    then record g {
      attempted = g.attempted + 1;
      consecutive_blocks = g.consecutive_blocks + 1;
      tripped = if leb g.max_consecutive_blocks (g.consecutive_blocks + 1) then true else g.tripped;
    }
    else record g { attempted = g.attempted + 1; consecutive_blocks = 0 }

-- A loop of fetches that does not look at `tripped`.
unfoldable pub fetch_all :
    List (Option TranscriptFailure) → TranscriptFetchGuard → TranscriptFetchGuard
unfolding fetch
fetch_all [] g = g
fetch_all (failure ∷ failures) g = fetch_all failures (fetch failure g)
