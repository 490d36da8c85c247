-- ===== src/PickScore/Total.antt =====
-- The score: `calculate_pick_score` of app/pickscore/engine.py.
use mathlib.Core.Option
use pickwise_v2_backend.Prelude.{
  ℕ, String, Bool, true, false, not, ◌&&◌, Option, none, some, List, [], ◌∷◌, map, keep, str_eq,
  ltb, if◌then◌else◌,
}
use pickwise_v2_backend.PickScore.Platform.{Platform, is_zero}
use pickwise_v2_backend.PickScore.Factors.{
  ScorableProduct, Ranges, Factor, price, cpu, gpu, ram_storage, portability, battery, screen_size,
  brand, Preference, GpuResult, Note, cpu_unidentified, not_scored, no_preference, score_price,
  score_cpu, score_gpu, score_ram_storage, score_portability, score_battery, score_screen_size,
  score_brand, GpuFlags,
}
use pickwise_v2_backend.PickScore.Weights.{compute_weights, sum, factors}

-- `_neutral_preference_note`, on the stated preferences: none in general mode.
unfoldable pub neutral_preference_note : Option (List String) → Option Note
neutral_preference_note none = some not_scored
neutral_preference_note (some []) = some no_preference
neutral_preference_note (some (s ∷ ss)) = none

abbrev pub if_unresolved : Bool → Option Note
if_unresolved true = some cpu_unidentified
if_unresolved false = none

-- `int(max(0, min(100, ...)))` of a number that is not negative.
abbrev pub at_most_hundred : ℕ → ℕ
at_most_hundred n = if ltb 100 n then 100 else n

module _ (py : Platform) where
  pub record FactorBreakdown : Type 0 where
    pub factor : Factor
    pub raw_score : py.F
    pub weight_share : py.F
    pub contribution : py.F
    pub note : Option Note

  pub record Flags : Type 0 where
    pub gpu_score_is_proxy : Bool
    pub gpu_benchmark_unresolved : Bool
    pub cpu_benchmark_unresolved : Bool
    pub price_unavailable : Bool
    pub score_withheld : Bool

  pub record PickScoreResponse : Type 0 where
    pub product_id : ℕ
    pub score : Option ℕ
    pub breakdown : List FactorBreakdown
    pub flags : Flags

  abbrev pub stated_sizes : Option (Preference py) → Option (List String)
  stated_sizes none = none
  stated_sizes (some pref) = some pref.screen_sizes

  abbrev pub stated_brands : Option (Preference py) → Option (List String)
  stated_brands none = none
  stated_brands (some pref) =
      some (keep (λ b. not (str_eq (py.lower b) "no preference")) pref.brand_preferences)

  -- What the eight functions return for one product.
  pub record Scores : Type 0 where
    pub prices : py.F × Option Note
    pub cpus : py.F × Bool
    pub gpus : py.F × GpuFlags × Option Note
    pub ram_storages : py.F
    pub portabilities : py.F
    pub batteries : py.F
    pub screens : py.F
    pub brands : py.F

  unfoldable pub scores_of :
      ScorableProduct py → Option (Preference py) → Ranges py → Option ℕ → GpuResult → Scores
  scores_of product pref ranges cpu_mark gpu_result = record {
    prices = score_price py product pref ranges;
    cpus = score_cpu py cpu_mark ranges;
    gpus = score_gpu py gpu_result ranges;
    ram_storages = score_ram_storage py product ranges;
    portabilities = score_portability py product ranges;
    batteries = score_battery py product ranges;
    screens = score_screen_size py product pref;
    brands = score_brand py product pref;
  }

  -- `factor_scores` and `factor_notes`.
  unfoldable pub factor_score : Scores → Factor → py.F
  factor_score s price = s.prices.0
  factor_score s cpu = s.cpus.0
  factor_score s gpu = s.gpus.0
  factor_score s ram_storage = s.ram_storages
  factor_score s portability = s.portabilities
  factor_score s battery = s.batteries
  factor_score s screen_size = s.screens
  factor_score s brand = s.brands

  unfoldable pub factor_note : Scores → Option (Preference py) → Factor → Option Note
  unfolding neutral_preference_note
  factor_note s pref price = s.prices.1
  factor_note s pref gpu = s.gpus.2
  factor_note s pref cpu = if_unresolved s.cpus.1
  factor_note s pref screen_size = neutral_preference_note (stated_sizes pref)
  factor_note s pref brand = neutral_preference_note (stated_brands pref)
  factor_note s pref _ = none

  -- A row of the breakdown, for the weights.
  unfoldable pub row_of :
      Scores → Option (Preference py) → (Factor → py.F) → Factor → FactorBreakdown
  unfolding factor_score factor_note
  row_of s pref weights f = record {
    factor = f;
    raw_score = py.round_to 2 (factor_score s f);
    weight_share = py.round_to 4 (weights f);
    contribution = py.round_to 2 (py.mul (factor_score s f) (weights f));
    note = factor_note s pref f;
  }

  unfoldable pub weighted_sum : Scores → (Factor → py.F) → py.F
  unfolding factor_score
  weighted_sum s weights =
      sum py (map (λ f. py.mul (factor_score s f) (weights f)) factors) (py.of_nat 0)

  unfoldable pub respond :
      ScorableProduct py → Option (Preference py) → (Factor → py.F) → Scores → PickScoreResponse
  unfolding row_of weighted_sum
  respond product pref weights s =
      let withheld = s.cpus.1 && s.gpus.1.gpu_benchmark_unresolved in
      record {
        product_id = product.product_id;
        score =
            if withheld then none else some (at_most_hundred (py.rounded (weighted_sum s weights)));
        breakdown = map (row_of s pref weights) factors;
        flags = record {
          gpu_score_is_proxy = s.gpus.1.gpu_score_is_proxy;
          gpu_benchmark_unresolved = s.gpus.1.gpu_benchmark_unresolved;
          cpu_benchmark_unresolved = s.cpus.1;
          price_unavailable = is_zero py product.price;
          score_withheld = withheld;
        };
      }

  -- `calculate_pick_score`, with what the two benchmark resolvers found. None is the exception of
  -- `_compute_weights`.
  unfoldable pub calculate_pick_score :
      ScorableProduct py
      → Option (Preference py)
      → Ranges py
      → Option ℕ
      → GpuResult
      → Option (List (Factor × py.F))
      → Option PickScoreResponse
  unfolding respond scores_of compute_weights
  calculate_pick_score product pref ranges cpu_mark gpu_result override =
      Option.map
        (λ weights.
          respond product pref weights (scores_of product pref ranges cpu_mark gpu_result))
        (compute_weights py pref override)
