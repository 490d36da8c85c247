-- ===== src/PickScore/Examples.antt =====
-- The engine at a concrete product, over whole numbers in place of floats.
use pickwise_v2_backend.Prelude.{◌≡◌, refl, true, none, some, [], ◌∷◌, leb, map}
use pickwise_v2_backend.PickScore.Whole.{whole, whole-IsOrdered}
use pickwise_v2_backend.PickScore.Factors.{
  ScorableProduct, Range, Ranges, price, cpu, gpu, ram_storage, portability, battery, screen_size,
  brand, Preference, unresolved, GpuResult,
}
use pickwise_v2_backend.PickScore.Weights.{
  sum, factors, final_weight, compute_weights, total_weight, priority_of, purpose_mod, boosted,
  portability_mult,
}
use pickwise_v2_backend.PickScore.Total.{factor_score, scores_of, calculate_pick_score}
use pickwise_v2_backend.PickScore.Bounds.{factor_score-bounds}
use pickwise_v2_backend.PickScore.Withheld.{IsAnswer, calculate_pick_score-withheld}

abbrev prices : Range whole
prices = record { low = 0; high = 0; values = 2000 ∷ 3000 ∷ 4000 ∷ [] }

abbrev no_range : Range whole
no_range = record { low = 0; high = 0; values = [] }

abbrev ranges : Ranges whole
ranges = record {
  price = prices;
  cpu_mark = no_range;
  gpu_mark = no_range;
  ram_gb = no_range;
  storage_gb = no_range;
  weight_kg = no_range;
  battery_wh = no_range;
}

abbrev product : ScorableProduct whole
product = record {
  product_id = 7;
  brand_name = "acer";
  price = 3000;
  cpu_model = "i7";
  gpu_model = "rtx";
  ram_gb = 16;
  storage_gb = 512;
  storage_type = some "ssd";
  weight_kg = none;
  battery_wh = 70;
  display_size_inch = 14;
}

abbrev preference : Preference whole
preference = record {
  budget_max = some 2500;
  purpose = "Gaming" ∷ [];
  priorities = (gpu, 9) ∷ (cpu, 8) ∷ [];
  screen_sizes = "14" ∷ [];
  portability = some "Yes";
  brand_preferences = "acer" ∷ [];
}

abbrev gpu_result : GpuResult
gpu_result = record { score = none; is_proxy = true; resolution = unresolved }

factor_score-bounds_example :
    (leb 0 (
        factor_score whole
          (scores_of whole product (some preference) ranges (some 20000) gpu_result)
          price)
      ≡ true)
    × (leb
          (factor_score whole
            (scores_of whole product (some preference) ranges (some 20000) gpu_result)
            price)
          100
        ≡ true)
factor_score-bounds_example =
    factor_score-bounds whole whole-IsOrdered product (some preference) ranges (some 20000)
      gpu_result price

calculate_pick_score-withheld_example :
    IsAnswer whole
      (sum whole (map (final_weight whole (some preference) none) factors) 0)
      (some 20000)
      none
      (calculate_pick_score whole product (some preference) ranges (some 20000) gpu_result none)
calculate_pick_score-withheld_example =
    calculate_pick_score-withheld whole product (some preference) ranges (some 20000) none true
      unresolved none

-- A user who rates every factor 0, which the route for the preferences accepts.
abbrev indifferent : Preference whole
indifferent = record preference {
  priorities =
      (price, 0)
      ∷ (cpu, 0)
      ∷ (gpu, 0)
      ∷ (ram_storage, 0)
      ∷ (portability, 0)
      ∷ (battery, 0)
      ∷ (screen_size, 0)
      ∷ (brand, 0)
      ∷ [];
}

all_zero_raises :
    calculate_pick_score whole product (some indifferent) ranges (some 20000) gpu_result none ≡ none
unfolding calculate_pick_score compute_weights total_weight sum final_weight priority_of purpose_mod
    boosted portability_mult
all_zero_raises = refl
