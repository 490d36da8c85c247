-- ===== src/PickScore/Withheld.antt =====
-- When a score is withheld, and what is returned with it.
use pickwise_v2_backend.Prelude.{
  ℕ, ◌≤◌, ◌≡◌, ◌↔◌, refl, Bool, true, false, Bool-cases, inl, inr, not, Option, none, some, List,
  map, is_some, arith,
}
use pickwise_v2_backend.PickScore.Platform.{Platform, is_zero}
use pickwise_v2_backend.PickScore.Factors.{
  ScorableProduct, Ranges, Factor, Preference, Resolution, score_cpu, score_gpu, score_gpu_mark,
}
use pickwise_v2_backend.PickScore.Weights.{
  factors, final_weight, sum, compute_weights, total_weight,
}
use pickwise_v2_backend.PickScore.Total.{
  FactorBreakdown, PickScoreResponse, at_most_hundred, scores_of, respond, row_of,
  calculate_pick_score, weighted_sum,
}

abbrev pub IsShown : Option ℕ → Type 0
IsShown none = Unit
IsShown (some n) = n ≤ 100

at_most_hundred-le : (n : ℕ) → at_most_hundred n ≤ 100
at_most_hundred-le n = ground arith

module _ (py : Platform) where
  -- What a response promises of the marks that the benchmark tables gave.
  abbrev pub Promised : Option ℕ → Option ℕ → PickScoreResponse py → Type 0
  Promised cpu_mark gpu_mark r =
      ((r.score ≡ none) ↔ ((cpu_mark ≡ none) × (gpu_mark ≡ none)))
      × (r.flags.score_withheld ≡ not (is_some r.score))
      × IsShown r.score
      × (map (λ (b : FactorBreakdown py). b.factor) r.breakdown ≡ factors)

  -- No response exactly if the weights add up to 0.
  abbrev pub IsAnswer : py.F → Option ℕ → Option ℕ → Option (PickScoreResponse py) → Type 0
  IsAnswer total cpu_mark gpu_mark none = is_zero py total ≡ true
  IsAnswer total cpu_mark gpu_mark (some r) =
      (is_zero py total ≡ false) × Promised cpu_mark gpu_mark r

  respond-Promised :
      (product : ScorableProduct py) (pref : Option (Preference py)) (ranges : Ranges py)
      (cpu_mark gpu_mark : Option ℕ) (is_proxy : Bool) (resolution : Resolution)
      (weights : Factor → py.F)
      → Promised cpu_mark gpu_mark (
          respond py product pref weights (
            scores_of py product pref ranges cpu_mark
              (record { score = gpu_mark; is_proxy = is_proxy; resolution = resolution })))
  unfolding respond scores_of score_cpu score_gpu score_gpu_mark row_of
  respond-Promised product pref ranges none none p r weights =
      ((λ e. (refl, refl), λ e. refl), refl, tt, refl)
  respond-Promised product pref ranges none (some g) p r weights = (
    (λ e. cc, λ e. cc),
    refl,
    at_most_hundred-le (
        py.rounded (
          weighted_sum py
            (scores_of py product pref ranges none
              (record { score = some g; is_proxy = p; resolution = r }))
            weights)),
    refl,
  )
  respond-Promised product pref ranges (some c) g p r weights = (
    (λ e. cc, λ e. cc),
    refl,
    at_most_hundred-le (
        py.rounded (
          weighted_sum py
            (scores_of py product pref ranges (some c)
              (record { score = g; is_proxy = p; resolution = r }))
            weights)),
    refl,
  )

  -- There is no response, for a division by 0, exactly if the weights of the eight factors add up to
  -- 0. Else the score is withheld exactly if neither the CPU nor the GPU is resolved, the flag says
  -- so, a score that is not withheld is at most 100, and the breakdown has a row for each of the
  -- eight factors either way.
  pub calculate_pick_score-withheld :
      (product : ScorableProduct py) (pref : Option (Preference py)) (ranges : Ranges py)
      (cpu_mark gpu_mark : Option ℕ) (is_proxy : Bool) (resolution : Resolution)
      (override : Option (List (Factor × py.F)))
      → IsAnswer
          (sum py (map (final_weight py pref override) factors) (py.of_nat 0))
          cpu_mark
          gpu_mark
          (calculate_pick_score py product pref ranges cpu_mark
            (record { score = gpu_mark; is_proxy = is_proxy; resolution = resolution })
            override)
  unfolding calculate_pick_score compute_weights total_weight
  calculate_pick_score-withheld product pref ranges cpu_mark gpu_mark p r override =
      elim (Bool-cases
        (is_zero py (sum py (map (final_weight py pref override) factors) (py.of_nat 0)))) [
          | inl nothing ↦ rw nothing nothing
          | inr weighty ↦ rw weighty (
            weighty,
            respond-Promised product pref ranges cpu_mark gpu_mark p r
                (λ f. py.div (final_weight py pref override f) (total_weight py pref override)),
          )
        ]
