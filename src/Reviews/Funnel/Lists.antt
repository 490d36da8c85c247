-- ===== src/Reviews/Funnel/Lists.antt =====
-- The list behind each number of the funnel.
use pickwise_v2_backend.Prelude.{
  ℕ, ◌+◌, ◌≡◌, none, some, List, [], ◌∷◌, arith, length, All, leb, ◌==◌, Bool-cases, inl, inr,
}
use pickwise_v2_backend.Reviews.Funnel.{
  Step, Reason, Place, Tally, zeros, index, reason_index, visit, tally, funnel_row, funnel_counts,
  review_ids, found, transcript, linked, processed, shown, transcript_terminal,
  transcript_retryable, transcript_deferred, transcript_unknown, unlinked, never_processed, partial,
  reprocess_requested, no_shown_claims, is_past, is_stuck, count_reason,
}

tally-reached :
    (s : Step) (es : List (ℕ × Place)) (t : Tally)
    → (tally es t).reached s ≡ t.reached s + length (review_ids (some s) none es)
unfolding tally review_ids visit is_past is_stuck
tally-reached s [] t = omega arith
tally-reached s ((id, (step, reason)) ∷ es) t =
    let rest = tally-reached s es (visit (step, reason) t) in
    elim (Bool-cases (leb (index s) (index step))) [
      | inl counted ↦ ground arith
      | inr short ↦ ground arith
    ]

tally-stuck :
    (k : Reason) (es : List (ℕ × Place)) (t : Tally)
    → (tally es t).stuck k ≡ t.stuck k + length (review_ids none (some k) es)
unfolding tally review_ids visit is_past is_stuck count_reason
tally-stuck k [] t = omega arith
tally-stuck k ((id, (step, none)) ∷ es) t = tally-stuck k es (visit (step, none) t)
tally-stuck k ((id, (step, some reason)) ∷ es) t =
    let rest = tally-stuck k es (visit (step, some reason) t) in
    elim (Bool-cases (reason_index reason == reason_index k)) [
      | inl same ↦ ground arith
      | inr other ↦ ground arith
    ]

-- Each number of the funnel is the length of the list of reviews that it opens: the list of a
-- step for its count, and the list of a reason for what is stuck for that reason.
pub review_ids-count :
    (es : List (ℕ × Place))
    → All
        (λ row.
          (length (review_ids (some row.step) none es) ≡ row.count)
          × All (λ e. length (review_ids none (some e.0) es) ≡ e.1) row.stuck)
        (funnel_counts es)
unfolding funnel_counts funnel_row
review_ids-count es =
    let reached : (s : Step) → length (review_ids (some s) none es) ≡ (tally es zeros).reached s =
      λ s. omega (arith, tally-reached s es zeros) in
    let stuck : (k : Reason) → length (review_ids none (some k) es) ≡ (tally es zeros).stuck k =
      λ k. omega (arith, tally-stuck k es zeros) in
    (
      (reached found, tt),
      (
        (
          reached transcript,
          (
            stuck transcript_terminal,
            (
              stuck transcript_retryable,
              (stuck transcript_deferred, (stuck transcript_unknown, tt)),
            ),
          ),
        ),
        (
          (reached linked, (stuck unlinked, tt)),
          (
            (
              reached processed,
              (stuck never_processed, (stuck partial, (stuck reprocess_requested, tt))),
            ),
            ((reached shown, (stuck no_shown_claims, tt)), tt),
          ),
        ),
      ),
    )
