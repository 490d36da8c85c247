-- ===== src/Reviews/Funnel/Counts.antt =====
-- What the counters of the funnel add up to.
use pickwise_v2_backend.Prelude.{
  ℕ, ◌+◌, ◌≡◌, refl, String, true, false, Option, none, some, List, [], ◌∷◌, arith, get_elem?,
  Bool-cases, inl, inr, suc, zero, All, ap, ◌==◌, ◌&&◌, get, any, str_eq,
}
use pickwise_v2_backend.Reviews.Funnel.{
  Step, found, transcript, linked, processed, shown, Reason, transcript_terminal,
  transcript_retryable, transcript_deferred, transcript_unknown, unlinked, never_processed, partial,
  reprocess_requested, no_shown_claims, Review, Candidate, Place, Tally, FunnelRow, zeros,
  transcript_stuck, processing_reason, place_linked, place, classify, visit, tally, funnel_row,
  funnel_counts, is_irrelevant, is_terminal, is_pending, is_matched,
}

-- What is stuck before a step.
abbrev pub total : List (Reason × ℕ) → ℕ
total [] = 0
total ((k, n) ∷ rest) = n + total rest

-- The step before each reason's.
abbrev pub short_of : Reason → Step
short_of transcript_terminal = found
short_of transcript_retryable = found
short_of transcript_deferred = found
short_of transcript_unknown = found
short_of unlinked = transcript
short_of never_processed = linked
short_of partial = linked
short_of reprocess_requested = linked
short_of no_shown_claims = processed

-- A review is stuck for a reason of the next step, or has reached the last one.
abbrev pub IsPlaced : Place → Type 0
IsPlaced (step, none) = step ≡ shown
IsPlaced (step, some reason) = step ≡ short_of reason

-- The counters agree, step by step.
abbrev pub IsBalanced : Tally → Type 0
IsBalanced t =
    (t.reached found
      ≡ t.reached transcript
        + (t.stuck transcript_terminal
            + t.stuck transcript_retryable
            + t.stuck transcript_deferred
            + t.stuck transcript_unknown))
    × (t.reached transcript ≡ t.reached linked + t.stuck unlinked)
    × (t.reached linked
        ≡ t.reached processed
          + (t.stuck never_processed + t.stuck partial + t.stuck reprocess_requested))
    × (t.reached processed ≡ t.reached shown + t.stuck no_shown_claims)

visit-IsBalanced : (p : Place) (t : Tally) → IsPlaced p → IsBalanced t → IsBalanced (visit p t)
unfolding visit
visit-IsBalanced (step, none) t h b = rw h (omega arith)
visit-IsBalanced (step, some transcript_terminal) t h b = rw h (omega arith)
visit-IsBalanced (step, some transcript_retryable) t h b = rw h (omega arith)
visit-IsBalanced (step, some transcript_deferred) t h b = rw h (omega arith)
visit-IsBalanced (step, some transcript_unknown) t h b = rw h (omega arith)
visit-IsBalanced (step, some unlinked) t h b = rw h (omega arith)
visit-IsBalanced (step, some never_processed) t h b = rw h (omega arith)
visit-IsBalanced (step, some partial) t h b = rw h (omega arith)
visit-IsBalanced (step, some reprocess_requested) t h b = rw h (omega arith)
visit-IsBalanced (step, some no_shown_claims) t h b = rw h (omega arith)

tally-IsBalanced :
    (es : List (ℕ × Place)) (t : Tally)
    → All (λ e. IsPlaced e.1) es
    → IsBalanced t
    → IsBalanced (tally es t)
unfolding tally
tally-IsBalanced [] t h b = b
tally-IsBalanced (e ∷ es) t h b =
    tally-IsBalanced es (visit e.1 t) h.1 (visit-IsBalanced e.1 t h.0 b)

stuck-short : (f : Option _) (n : ℕ) (s : _) → found ≡ short_of (transcript_stuck f n s)
unfolding transcript_stuck
stuck-short (some f) n s = elim (Bool-cases (is_terminal f)) [
  | inl terminal ↦ rw terminal refl
  | inr retryable ↦ rw retryable refl
]
stuck-short none n s = elim (Bool-cases (n == 0 && is_pending s)) [
  | inl deferred ↦ rw deferred refl
  | inr unknown ↦ rw unknown refl
]

processing-short : (c : Candidate) → linked ≡ short_of (processing_reason c)
unfolding processing_reason
processing-short c = elim (Bool-cases c.reprocess) [
  | inl again ↦ rw again refl
  | inr once ↦ elim (Bool-cases (c.windows_saved == 0)) [
    | inl none_saved ↦ rw (once, none_saved) refl
    | inr saved ↦ rw (once, saved) refl
  ]
]

linked-IsPlaced : (o : Option Candidate) (b : _) → IsPlaced (place_linked o b)
unfolding place_linked
linked-IsPlaced (some c) b = processing-short c
linked-IsPlaced none true = refl
linked-IsPlaced none false = refl

place-IsPlaced :
    (candidates : List (ℕ × Candidate)) (videos : List String) (r : Review)
    → IsPlaced (place candidates videos r)
unfolding place
place-IsPlaced candidates videos r = elim (Bool-cases r.has_segments) [
  | inr bare ↦ rw bare (stuck-short r.failure_reason r.transcript_attempts r.status)
  | inl fetched ↦ elim (Bool-cases (r.has_link && is_matched r.status)) [
    | inr loose ↦ rw (fetched, loose) refl
    | inl matched ↦
        rw (fetched, matched)
          (linked-IsPlaced (get r.id candidates) (any (str_eq r.video_id) videos))
  ]
]

classify-IsPlaced :
    (candidates : List (ℕ × Candidate)) (videos : List String) (rs : List Review)
    → All (λ e. IsPlaced e.1) (classify candidates videos rs)
unfolding classify
classify-IsPlaced candidates videos [] = tt
classify-IsPlaced candidates videos (r ∷ rs) = elim (Bool-cases (is_irrelevant r.status)) [
  | inl dismissed ↦ rw dismissed (classify-IsPlaced candidates videos rs)
  | inr kept ↦ rw kept (place-IsPlaced candidates videos r, classify-IsPlaced candidates videos rs)
]

abbrev count_in : Option FunnelRow → ℕ
count_in none = 0
count_in (some row) = row.count

abbrev total_in : Option FunnelRow → ℕ
total_in none = 0
total_in (some row) = total row.stuck

funnel-IsBalanced :
    (candidates : List (ℕ × Candidate)) (videos : List String) (rs : List Review)
    → IsBalanced (tally (classify candidates videos rs) zeros)
funnel-IsBalanced candidates videos rs =
    tally-IsBalanced (classify candidates videos rs) zeros (classify-IsPlaced candidates videos rs)
      (refl, refl, refl, refl)

-- In the funnel of the classified reviews, the count of each step is the count of the next one
-- and what is stuck before that one, all reasons together.
pub funnel_counts-conserved :
    (candidates : List (ℕ × Candidate)) (videos : List String) (rs : List Review) (i : ℕ)
    (a b : FunnelRow)
    → get_elem? (funnel_counts (classify candidates videos rs)) i ≡ some a
    → get_elem? (funnel_counts (classify candidates videos rs)) (suc i) ≡ some b
    → a.count ≡ b.count + total b.stuck
unfolding funnel_counts funnel_row
funnel_counts-conserved candidates videos rs zero a b h k =
    omega (
      arith,
      ap count_in h,
      ap count_in k,
      ap total_in k,
      (funnel-IsBalanced candidates videos rs).0,
    )
funnel_counts-conserved candidates videos rs (suc zero) a b h k =
    omega (
      arith,
      ap count_in h,
      ap count_in k,
      ap total_in k,
      (funnel-IsBalanced candidates videos rs).1,
    )
funnel_counts-conserved candidates videos rs (suc (suc zero)) a b h k =
    omega (
      arith,
      ap count_in h,
      ap count_in k,
      ap total_in k,
      (funnel-IsBalanced candidates videos rs).2,
    )
funnel_counts-conserved candidates videos rs (suc (suc (suc zero))) a b h k =
    omega (
      arith,
      ap count_in h,
      ap count_in k,
      ap total_in k,
      (funnel-IsBalanced candidates videos rs).3,
    )
funnel_counts-conserved candidates videos rs (suc (suc (suc (suc i)))) a b h k = cc
