-- ===== src/Reviews/Fetch/Runs.antt =====
-- When the breaker of the fetch guard trips.
use pickwise_v2_backend.Prelude.{
  ℕ, zero, suc, ◌+◌, ◌≤◌, ◌<◌, ◌≡◌, refl, ap, ◌∙◌, Bool, true, false, ◌&&◌, ◌||◌, Option, List, [],
  ◌∷◌, arith, leb, Bool-cases, inl, inr,
}
use pickwise_v2_backend.Reviews.Fetch.{
  TranscriptFailure, TranscriptFetchGuard, new_guard, is_blocked, fetch, fetch_all,
}

-- The first `n` fetches are blocks.
abbrev pub starts_blocked : ℕ → List (Option TranscriptFailure) → Bool
starts_blocked zero failures = true
starts_blocked (suc n) [] = false
starts_blocked (suc n) (f ∷ failures) = is_blocked f && starts_blocked n failures

-- Somewhere `n` fetches in a row are blocks.
abbrev pub has_block_run : ℕ → List (Option TranscriptFailure) → Bool
has_block_run n [] = starts_blocked n []
has_block_run n (f ∷ failures) = starts_blocked n (f ∷ failures) || has_block_run n failures

tripped-stays :
    (failures : List (Option TranscriptFailure)) (g : TranscriptFetchGuard)
    → g.tripped ≡ true
    → (fetch_all failures g).tripped ≡ true
unfolding fetch_all fetch
tripped-stays [] g h = h
tripped-stays (f ∷ failures) g h = tripped-stays failures (fetch f g) (ground arith)

or_absorb : (a b : Bool) → (a || (a || b)) ≡ (a || b)
or_absorb true b = refl
or_absorb false b = refl

or_same : (a : Bool) → (a || a) ≡ a
or_same true = refl
or_same false = refl

starts_fewer :
    (n m : ℕ) (failures : List (Option TranscriptFailure))
    → n ≤ m
    → (starts_blocked n failures || starts_blocked m failures) ≡ starts_blocked n failures
starts_fewer zero m failures h = refl
starts_fewer (suc n) zero failures h = absurd (omega arith)
starts_fewer (suc n) (suc m) [] h = refl
starts_fewer (suc n) (suc m) (f ∷ failures) h = elim (Bool-cases (is_blocked f)) [
  | inl blocked ↦ rw blocked (starts_fewer n m failures (omega arith))
  | inr other ↦ rw other refl
]

starts-has_run :
    (n : ℕ) (failures : List (Option TranscriptFailure))
    → (starts_blocked n failures || has_block_run n failures) ≡ has_block_run n failures
starts-has_run n [] = or_same (starts_blocked n [])
starts-has_run n (f ∷ failures) =
    or_absorb (starts_blocked n (f ∷ failures)) (has_block_run n failures)

abbrev guard_at : ℕ → ℕ → ℕ → TranscriptFetchGuard
guard_at m c a = record {
  max_consecutive_blocks = suc m;
  attempted = a;
  tripped = false;
  consecutive_blocks = c;
}

fetch-blocked :
    (f : Option TranscriptFailure) (m c a : ℕ)
    → is_blocked f ≡ true
    → c < m
    → fetch f (guard_at m c a) ≡ guard_at m (c + 1) (a + 1)
unfolding fetch
fetch-blocked f m c a blocked h =
    let below : leb (suc m) (c + 1) ≡ false = ground arith in rw (blocked, below) refl

fetch-other :
    (f : Option TranscriptFailure) (m c a : ℕ)
    → is_blocked f ≡ false
    → fetch f (guard_at m c a) ≡ guard_at m 0 (a + 1)
unfolding fetch
fetch-other f m c a other = rw other refl

fetch-last :
    (f : Option TranscriptFailure) (m c a : ℕ)
    → is_blocked f ≡ true
    → c ≡ m
    → (fetch f (guard_at m c a)).tripped ≡ true
unfolding fetch
fetch-last f m c a blocked h =
    let full : leb (suc m) (c + 1) ≡ true = ground arith in rw (blocked, full) refl

or_insert : (a b c : Bool) → (a || b) ≡ a → (a || c) ≡ (a || (b || c))
or_insert true b c h = refl
or_insert false b c h = rw h refl

-- The guard after the fetches is tripped exactly if the next `suc d` are blocks or some `suc m`.
abbrev TripsAt : ℕ → List (Option TranscriptFailure) → Type 0
TripsAt m failures =
    (c d a : ℕ)
    → c + d ≡ m
    → (fetch_all failures (guard_at m c a)).tripped
      ≡ (starts_blocked (suc d) failures || has_block_run (suc m) failures)

run-blocked :
    (m c d a : ℕ) (f : Option TranscriptFailure) (failures : List (Option TranscriptFailure))
    → TripsAt m failures
    → c + d ≡ m
    → is_blocked f ≡ true
    → (fetch_all failures (fetch f (guard_at m c a))).tripped
      ≡ (starts_blocked d failures || (starts_blocked m failures || has_block_run (suc m) failures))
run-blocked m c zero a f failures later h blocked =
    tripped-stays failures (fetch f (guard_at m c a)) (fetch-last f m c a blocked (omega arith))
run-blocked m c (suc d) a f failures later h blocked =
    ap (λ g. (fetch_all failures g).tripped) (fetch-blocked f m c a blocked (omega arith))
    ∙ (later (c + 1) d (a + 1) (omega arith)
        ∙ or_insert (starts_blocked (suc d) failures) (starts_blocked m failures)
            (has_block_run (suc m) failures) (starts_fewer (suc d) m failures (omega arith)))

run-tripped : (m : ℕ) (failures : List (Option TranscriptFailure)) → TripsAt m failures
unfolding fetch_all
run-tripped m [] c d a h = refl
run-tripped m (f ∷ failures) c d a h = elim (Bool-cases (is_blocked f)) [
  | inr other ↦
      ap (λ g. (fetch_all failures g).tripped) (fetch-other f m c a other)
      ∙ rw other
          (run-tripped m failures 0 m (a + 1) (omega arith) ∙ starts-has_run (suc m) failures)
  | inl blocked ↦ rw blocked (run-blocked m c d a f failures (run-tripped m failures) h blocked)
]

-- A guard that allows `suc n` blocks trips within a loop of fetches exactly if that many of them
-- in a row are blocks, wherever they begin.
pub fetch_all-tripped :
    (n : ℕ) (failures : List (Option TranscriptFailure))
    → (fetch_all failures (new_guard (suc n))).tripped ≡ has_block_run (suc n) failures
fetch_all-tripped n failures =
    run-tripped n failures 0 n 0 (omega arith) ∙ starts-has_run (suc n) failures
