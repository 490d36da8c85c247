-- ===== src/Reviews/Funnel.antt =====
-- The review funnel: app/reviews/funnel.py. `classify` takes the rows that its query returns, the
-- candidates of `processing_candidates` by their review's id, and the videos with a shown claim.
pub mod Counts
pub mod Lists
use pickwise_v2_backend.Prelude.{
  ℕ, ◌+◌, String, Bool, true, false, not, ◌&&◌, ◌||◌, Option, none, some, List, [], ◌∷◌, leb, ◌==◌,
  str_eq, keep, any, map, if◌then◌else◌, get,
}

pub data ReviewStatus : Type 0 where
  pending matched rejected irrelevant : ReviewStatus

pub data Step : Type 0 where
  found transcript linked processed shown : Step

-- The keys of STUCK.
pub data Reason : Type 0 where
  transcript_terminal transcript_retryable transcript_deferred transcript_unknown : Reason
  unlinked never_processed partial reprocess_requested no_shown_claims : Reason

pub record Review : Type 0 where
  pub id : ℕ
  pub video_id : String
  pub status : ReviewStatus
  pub failure_reason : Option String
  pub transcript_attempts : ℕ
  pub has_segments : Bool
  pub has_link : Bool

pub record Candidate : Type 0 where
  pub reprocess : Bool
  pub windows_saved : ℕ

-- The values of TERMINAL_FAILURES.
unfoldable pub is_terminal : String → Bool
is_terminal failure = str_eq failure "no_track" || str_eq failure "video_unavailable"

abbrev pub is_pending : ReviewStatus → Bool
is_pending pending = true
is_pending _ = false

abbrev pub is_matched : ReviewStatus → Bool
is_matched matched = true
is_matched _ = false

abbrev pub is_irrelevant : ReviewStatus → Bool
is_irrelevant irrelevant = true
is_irrelevant _ = false

-- `_transcript_stuck`.
unfoldable pub transcript_stuck : Option String → ℕ → ReviewStatus → Reason
unfolding is_terminal
transcript_stuck (some failure) attempts status =
    if is_terminal failure then transcript_terminal else transcript_retryable
transcript_stuck none attempts status =
    if attempts == 0 && is_pending status then transcript_deferred else transcript_unknown

unfoldable pub processing_reason : Candidate → Reason
processing_reason c =
    if c.reprocess
    then reprocess_requested
    else if c.windows_saved == 0
    then never_processed
    else partial

abbrev pub Place : Type 0
Place = Step × Option Reason

-- The last three cases of `classify`.
unfoldable pub place_linked : Option Candidate → Bool → Place
unfolding processing_reason
place_linked (some c) is_shown = (linked, some (processing_reason c))
place_linked none is_shown = if is_shown then (shown, none) else (processed, some no_shown_claims)

-- The body of the loop of `classify`.
unfoldable pub place : List (ℕ × Candidate) → List String → Review → Place
unfolding transcript_stuck place_linked
place candidates shown_videos r =
    if not r.has_segments
    then (found, some (transcript_stuck r.failure_reason r.transcript_attempts r.status))
    else if not (r.has_link && is_matched r.status)
    then (transcript, some unlinked)
    else place_linked (get r.id candidates) (any (str_eq r.video_id) shown_videos)

unfoldable pub classify : List (ℕ × Candidate) → List String → List Review → List (ℕ × Place)
unfolding place
classify candidates shown_videos reviews =
    map (λ r. (r.id, place candidates shown_videos r))
      (keep (λ r. not (is_irrelevant r.status)) reviews)

-- `STEPS.index`.
abbrev pub index : Step → ℕ
index found = 0
index transcript = 1
index linked = 2
index processed = 3
index shown = 4

-- The place of a reason among all the reasons.
abbrev pub reason_index : Reason → ℕ
reason_index transcript_terminal = 0
reason_index transcript_retryable = 1
reason_index transcript_deferred = 2
reason_index transcript_unknown = 3
reason_index unlinked = 4
reason_index never_processed = 5
reason_index partial = 6
reason_index reprocess_requested = 7
reason_index no_shown_claims = 8

-- The two dicts of counters.
pub record Tally : Type 0 where
  pub reached : Step → ℕ
  pub stuck : Reason → ℕ

abbrev pub zeros : Tally
zeros = record { reached = λ s. 0; stuck = λ k. 0 }

-- `if reason: stuck[reason] += 1`.
unfoldable pub count_reason : Option Reason → (Reason → ℕ) → Reason → ℕ
count_reason none stuck k = stuck k
count_reason (some reason) stuck k =
    if reason_index reason == reason_index k then stuck k + 1 else stuck k

-- Each step up to the one reached counts the review.
unfoldable pub visit : Place → Tally → Tally
unfolding count_reason
visit (step, reason) t = record {
  reached = λ s. if leb (index s) (index step) then t.reached s + 1 else t.reached s;
  stuck = count_reason reason t.stuck;
}

unfoldable pub tally : List (ℕ × Place) → Tally → Tally
unfolding visit
tally [] t = t
tally (e ∷ es) t = tally es (visit e.1 t)

abbrev pub steps : List Step
steps = found ∷ transcript ∷ linked ∷ processed ∷ shown ∷ []

-- `STUCK.get(step, ())`.
abbrev pub stuck_keys : Step → List Reason
stuck_keys found = []
stuck_keys transcript =
    transcript_terminal ∷ transcript_retryable ∷ transcript_deferred ∷ transcript_unknown ∷ []
stuck_keys linked = unlinked ∷ []
stuck_keys processed = never_processed ∷ partial ∷ reprocess_requested ∷ []
stuck_keys shown = no_shown_claims ∷ []

pub record FunnelRow : Type 0 where
  pub step : Step
  pub count : ℕ
  pub stuck : List (Reason × ℕ)

unfoldable pub funnel_row : Tally → Step → FunnelRow
funnel_row t s = record {
  step = s;
  count = t.reached s;
  stuck = map (λ k. (k, t.stuck k)) (stuck_keys s);
}

unfoldable pub funnel_counts : List (ℕ × Place) → List FunnelRow
unfolding tally funnel_row
funnel_counts classified = map (funnel_row (tally classified zeros)) steps

-- The filters of `review_ids`.
unfoldable pub is_past : Option Step → Step → Bool
is_past none reached = true
is_past (some s) reached = leb (index s) (index reached)

unfoldable pub is_stuck : Option Reason → Option Reason → Bool
is_stuck none reason = true
is_stuck (some k) none = false
is_stuck (some k) (some reason) = reason_index reason == reason_index k

-- `review_ids`.
unfoldable pub review_ids : Option Step → Option Reason → List (ℕ × Place) → List ℕ
unfolding is_past is_stuck
review_ids step stuck classified =
    map (λ e. e.0) (keep (λ e. is_past step e.1.0 && is_stuck stuck e.1.1) classified)
