-- ===== src/Rag/Order.antt =====
-- What reranking returns, and when it raises.
use mathlib.Core.Option
use pickwise_v2_backend.Prelude.{
  ◌≡◌, refl, Bool, true, false, not, ◌&&◌, List, [], ◌∷◌, length, keep, any, is_some, Option, none,
  some, ◌||◌, sym, ◌∙◌, Bool-cases, inl, inr, arith,
}
use pickwise_v2_backend.PickScore.Platform.{Platform, IsOrdered, is_zero}
use pickwise_v2_backend.Rag.Rerank.{
  RetrievalCandidate, Limits, RankedCandidate, ranked, is_dropped, sort_ranked, rerank,
  PenaltyReason, over_ratio, budget_penalty, over_weight, weight_penalty, penalised, prepend,
  ranked_all,
}
use pickwise_v2_backend.Rag.Sorted.{IsDescending, sort-count, sort-IsSorted, sorted-IsDescending}

module _ (py : Platform) where
  -- A value over a limit of 0.
  abbrev pub exceeds_zero : Option py.F → Option py.F → Bool
  exceeds_zero value none = false
  exceeds_zero none (some limit) = false
  exceeds_zero (some value) (some limit) = not (py.le value limit) && is_zero py limit

  abbrev pub divides_by_zero : Limits py → RetrievalCandidate py → Bool
  divides_by_zero limits c =
      exceeds_zero (some c.price_rm) limits.budget || exceeds_zero c.weight_kg limits.weight_limit

  -- The test of a ranked candidate, where there is one.
  abbrev pub passes : (RankedCandidate py → Bool) → Option (RankedCandidate py) → Bool
  passes p none = false
  passes p (some r) = p r

  budget_penalty-some :
      (price : py.F) (budget : Option py.F)
      → is_some (budget_penalty py price budget) ≡ not (exceeds_zero (some price) budget)
  unfolding budget_penalty over_ratio
  budget_penalty-some price none = refl
  budget_penalty-some price (some budget) = elim (Bool-cases (py.le price budget)) [
    | inl within ↦ rw within refl
    | inr over ↦ elim (Bool-cases (is_zero py budget)) [
      | inl nothing ↦ rw (over, nothing) refl
      | inr positive ↦ rw (over, positive) refl
    ]
  ]

  weight_penalty-some :
      (weight limit : Option py.F)
      → is_some (weight_penalty py weight limit) ≡ not (exceeds_zero weight limit)
  unfolding weight_penalty over_weight over_ratio
  weight_penalty-some weight none = refl
  weight_penalty-some none (some limit) = refl
  weight_penalty-some (some weight) (some limit) = elim (Bool-cases (py.le weight limit)) [
    | inl within ↦ rw within refl
    | inr over ↦ elim (Bool-cases (is_zero py limit)) [
      | inl nothing ↦ rw (over, nothing) refl
      | inr positive ↦ rw (over, positive) refl
    ]
  ]

  penalised-some :
      (limits : Limits py) (c : RetrievalCandidate py) (b w : Option (py.F × List PenaltyReason))
      → is_some (penalised py limits c b w) ≡ (is_some b && is_some w)
  unfolding penalised
  penalised-some limits c none w = refl
  penalised-some limits c (some b) none = refl
  penalised-some limits c (some b) (some w) = refl

  ranked-some :
      (limits : Limits py) (c : RetrievalCandidate py)
      → is_some (ranked py limits c) ≡ not (divides_by_zero limits c)
  unfolding ranked
  ranked-some limits c =
      penalised-some limits c (budget_penalty py c.price_rm limits.budget)
        (weight_penalty py c.weight_kg limits.weight_limit)
      ∙ rw
          (
            budget_penalty-some c.price_rm limits.budget,
            weight_penalty-some c.weight_kg limits.weight_limit,
          )
          (ground arith)

  -- The ranked candidates, or the division by zero of one of them.
  abbrev pub IsRanked :
      Limits py
      → (RankedCandidate py → Bool)
      → List (RetrievalCandidate py)
      → Option (List (RankedCandidate py))
      → Type 0
  IsRanked limits p cs none = any (divides_by_zero limits) cs ≡ true
  IsRanked limits p cs (some out) =
      (any (divides_by_zero limits) cs ≡ false)
      × (length (keep p out) ≡ length (keep (λ c. passes p (ranked py limits c)) cs))

  raised_of : {b : Bool} → not b ≡ false → b ≡ true
  raised_of h = ground arith

  fine_of : {b : Bool} → not b ≡ true → b ≡ false
  fine_of h = ground arith

  prepend-IsRanked :
      (limits : Limits py) (p : RankedCandidate py → Bool) (c : RetrievalCandidate py)
      (cs : List (RetrievalCandidate py)) (o : Option (RankedCandidate py))
      (rest : Option (List (RankedCandidate py)))
      → ranked py limits c ≡ o
      → IsRanked limits p cs rest
      → IsRanked limits p (c ∷ cs) (prepend py o rest)
  unfolding prepend
  prepend-IsRanked limits p c cs none rest e h =
      let raises : divides_by_zero limits c ≡ true =
        raised_of (sym (ranked-some limits c) ∙ rw e refl) in
      rw raises refl
  prepend-IsRanked limits p c cs (some r) none e h = rw h (ground arith)
  prepend-IsRanked limits p c cs (some r) (some rs) e h =
      let fine : divides_by_zero limits c ≡ false =
        fine_of (sym (ranked-some limits c) ∙ rw e refl) in
      (rw (fine, h.0) refl, rw e (ground (arith, h.1)))

  ranked_all-IsRanked :
      (limits : Limits py) (p : RankedCandidate py → Bool) (cs : List (RetrievalCandidate py))
      → IsRanked limits p cs (ranked_all py limits cs)
  unfolding ranked_all
  ranked_all-IsRanked limits p [] = (refl, refl)
  ranked_all-IsRanked limits p (c ∷ cs) =
      prepend-IsRanked limits p c cs (ranked py limits c) (ranked_all py limits cs) refl
        (ranked_all-IsRanked limits p cs)

  abbrev pub InOrder : Option (List (RankedCandidate py)) → Type 0
  InOrder none = Unit
  InOrder (some out) = IsDescending py out

  sorted-IsRanked :
      (o : IsOrdered py) (limits : Limits py) (p : RankedCandidate py → Bool)
      (cs : List (RetrievalCandidate py)) (found : Option (List (RankedCandidate py)))
      → IsRanked limits p cs found
      → InOrder (Option.map (sort_ranked py) found)
        × IsRanked limits p cs (Option.map (sort_ranked py) found)
  sorted-IsRanked o limits p cs none h = (tt, h)
  sorted-IsRanked o limits p cs (some out) h =
      (sorted-IsDescending py o _ (sort-IsSorted py o out), (h.0, sort-count py p out ∙ h.1))

  -- If the floats keep the order as stated, reranking raises a division by zero exactly if a
  -- candidate whose weight is known or not limited costs more than a budget of 0 or weighs more than
  -- a limit of 0. Else no score of the result is below the next one, the lower id is first where two
  -- scores are equal, and for every test as many of the result pass it as of the ranked candidates
  -- whose weight is known or not limited.
  pub rerank-IsSorted :
      (o : IsOrdered py) (candidates : List (RetrievalCandidate py)) (limits : Limits py)
      (p : RankedCandidate py → Bool)
      → InOrder (rerank py candidates limits)
        × IsRanked limits p
            (keep (λ c. not (is_dropped py limits c)) candidates)
            (rerank py candidates limits)
  unfolding rerank
  rerank-IsSorted o candidates limits p =
      sorted-IsRanked o limits p (keep (λ c. not (is_dropped py limits c)) candidates)
        (ranked_all py limits (keep (λ c. not (is_dropped py limits c)) candidates))
        (ranked_all-IsRanked limits p (keep (λ c. not (is_dropped py limits c)) candidates))
