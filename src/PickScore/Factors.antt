-- ===== src/PickScore/Factors.antt =====
-- The eight factors: `_normalize` to `_score_brand` of app/pickscore/engine.py.
use pickwise_v2_backend.Prelude.{
  ℕ, ◌+◌, ◌-◌, String, Bool, true, false, not, ◌||◌, Option, none, some, List, [], ◌∷◌, length,
  keep, any, map, str_eq, if◌then◌else◌,
}
use pickwise_v2_backend.PickScore.Platform.{Platform, fmax, fmin, is_zero}

-- `app/pickscore/schemas.py`.
pub record ScorableProduct (py : Platform) : Type 0 where
  pub product_id : ℕ
  pub brand_name : String
  pub price : py.F
  pub cpu_model : String
  pub gpu_model : String
  pub ram_gb : ℕ
  pub storage_gb : ℕ
  pub storage_type : Option String
  pub weight_kg : Option py.F
  pub battery_wh : py.F
  pub display_size_inch : py.F

-- One entry of the ranges; a missing distribution is empty, a missing bound is 0.0.
pub record Range (py : Platform) : Type 0 where
  pub low : py.F
  pub high : py.F
  pub values : List py.F

pub record Ranges (py : Platform) : Type 0 where
  pub price : Range py
  pub cpu_mark : Range py
  pub gpu_mark : Range py
  pub ram_gb : Range py
  pub storage_gb : Range py
  pub weight_kg : Range py
  pub battery_wh : Range py

pub data Factor : Type 0 where
  price cpu gpu ram_storage portability battery screen_size brand : Factor

-- What the engine reads of `LaptopUserPreference`; an empty list is a missing one. `budget_max` is
-- `budget.get("max")`.
pub record Preference (py : Platform) : Type 0 where
  pub budget_max : Option py.F
  pub purpose : List String
  pub priorities : List (Factor × py.F)
  pub screen_sizes : List String
  pub portability : Option String
  pub brand_preferences : List String

-- What `resolve_gpu_benchmark` returns, as far as the engine reads it.
pub data Resolution : Type 0 where
  direct laptop_variant apple_equivalent integrated unresolved : Resolution

pub record GpuResult : Type 0 where
  pub score : Option ℕ
  pub is_proxy : Bool
  pub resolution : Resolution

-- The words that stand for a note.
pub data Note : Type 0 where
  price_unavailable over_budget : Note
  apple_silicon integrated_graphics gpu_unidentified cpu_unidentified : Note
  not_scored no_preference : Note

abbrev pub gpu_note : Resolution → Option Note
gpu_note direct = none
gpu_note laptop_variant = none
gpu_note apple_equivalent = some apple_silicon
gpu_note integrated = some integrated_graphics
gpu_note unresolved = some gpu_unidentified

pub record GpuFlags : Type 0 where
  pub gpu_score_is_proxy : Bool
  pub gpu_benchmark_unresolved : Bool

module _ (py : Platform) where
  -- `bisect.bisect_left` and `bisect.bisect_right` of a sorted list.
  unfoldable pub bisect_left : List py.F → py.F → ℕ
  bisect_left values v = length (keep (λ x. not (py.le v x)) values)

  unfoldable pub bisect_right : List py.F → py.F → ℕ
  bisect_right values v = length (keep (λ x. py.le x v) values)

  unfoldable pub percentile : List py.F → py.F → py.F
  unfolding bisect_left bisect_right
  percentile values v =
      let below = bisect_left values v in
      let equal = bisect_right values v - below in
      py.mul
        (py.div (py.add (py.of_nat below) (py.div (py.of_nat equal) (py.of_nat 2)))
          (py.of_nat (length values)))
        (py.of_nat 100)

  -- `max(0.0, min(100.0, score))`, and its complement.
  unfoldable pub clamped : Bool → py.F → py.F
  clamped inverse score =
      let bounded = fmax py (py.of_nat 0) (fmin py (py.of_nat 100) score) in
      if inverse then py.sub (py.of_nat 100) bounded else bounded

  unfoldable pub normalize_in : List py.F → Range py → Bool → py.F → py.F
  unfolding percentile clamped
  normalize_in [] range inverse v =
      if py.le range.high range.low
      then py.of_nat 50
      else clamped inverse
          (py.mul (py.div (py.sub v range.low) (py.sub range.high range.low)) (py.of_nat 100))
  normalize_in (x ∷ xs) range inverse v = clamped inverse (percentile (x ∷ xs) v)

  -- `_normalize`.
  unfoldable pub normalize : Option py.F → Range py → Bool → py.F
  unfolding normalize_in
  normalize none range inverse = py.of_nat 50
  normalize (some v) range inverse = normalize_in range.values range inverse v

  unfoldable pub product_screen_bucket : py.F → ℕ
  product_screen_bucket inches =
      if py.le inches (py.of_nat 14) then 0 else if py.le inches (py.of_nat 16) then 1 else 2

  unfoldable pub user_screen_bucket : String → ℕ
  user_screen_bucket pref =
      let s = py.lower pref in
      if py.is_within "13" s || py.is_within "14" s
      then 0
      else if py.is_within "15" s || py.is_within "16" s
      then 1
      else 2

  -- The stated budget of the user: one of 0 or less is unusable.
  unfoldable pub usable_budget : Option py.F → Option py.F
  usable_budget none = none
  usable_budget (some stated) = if py.le stated (py.of_nat 0) then none else some stated

  unfoldable pub budget_of : Option (Preference py) → Option py.F
  unfolding usable_budget
  budget_of none = none
  budget_of (some pref) = usable_budget pref.budget_max

  unfoldable pub penalty : py.F → py.F → py.F
  penalty asked budget_max =
      let over_ratio = py.div (py.sub asked budget_max) budget_max in
      fmax py (py.of_nat 0) (py.sub (py.of_nat 1) (py.mul (py.of_nat 2) over_ratio))

  unfoldable pub attenuated : py.F → py.F → Option py.F → py.F × Option Note
  unfolding penalty
  attenuated base asked none = (base, none)
  attenuated base asked (some budget_max) =
      if py.le asked budget_max
      then (base, none)
      else (py.mul base (penalty asked budget_max), some over_budget)

  -- `_score_price`.
  unfoldable pub score_price :
      ScorableProduct py → Option (Preference py) → Ranges py → py.F × Option Note
  unfolding normalize attenuated budget_of
  score_price product pref ranges =
      if is_zero py product.price
      then (py.of_nat 50, some price_unavailable)
      else attenuated (normalize (some product.price) ranges.price true) product.price
          (budget_of pref)

  -- `_score_cpu`, with the score that `resolve_benchmark` found: the score, and whether it is
  -- unresolved.
  unfoldable pub score_cpu : Option ℕ → Ranges py → py.F × Bool
  unfolding normalize
  score_cpu none ranges = (py.of_nat 50, true)
  score_cpu (some mark) ranges = (normalize (some (py.of_nat mark)) ranges.cpu_mark false, false)

  unfoldable pub score_gpu_mark : Option ℕ → Bool → Ranges py → py.F × GpuFlags
  unfolding normalize
  score_gpu_mark none is_proxy ranges =
      (py.of_nat 50, record { gpu_score_is_proxy = true; gpu_benchmark_unresolved = true })
  score_gpu_mark (some mark) is_proxy ranges = (
    normalize (some (py.of_nat mark)) ranges.gpu_mark false,
    record { gpu_score_is_proxy = is_proxy; gpu_benchmark_unresolved = false },
  )

  -- `_score_gpu`.
  unfoldable pub score_gpu : GpuResult → Ranges py → py.F × GpuFlags × Option Note
  unfolding score_gpu_mark
  score_gpu result ranges =
      let (score, flags) = score_gpu_mark result.score result.is_proxy ranges in
      (score, flags, gpu_note result.resolution)

  abbrev pub is_hdd : Option String → Bool
  is_hdd none = false
  is_hdd (some t) = py.is_within "hdd" (py.lower t)

  unfoldable pub storage_score : ScorableProduct py → Ranges py → py.F
  unfolding normalize
  storage_score product ranges =
      let score = normalize (some (py.of_nat product.storage_gb)) ranges.storage_gb false in
      if is_hdd product.storage_type
      then fmax py (py.of_nat 0) (py.sub score (py.of_nat 15))
      else score

  -- `_score_ram_storage`.
  unfoldable pub score_ram_storage : ScorableProduct py → Ranges py → py.F
  unfolding normalize storage_score
  score_ram_storage product ranges =
      py.add
        (py.mul (normalize (some (py.of_nat product.ram_gb)) ranges.ram_gb false) (py.tenths 6))
        (py.mul (storage_score product ranges) (py.tenths 4))

  -- `_score_portability` and `_score_battery`.
  unfoldable pub score_portability : ScorableProduct py → Ranges py → py.F
  unfolding normalize
  score_portability product ranges = normalize product.weight_kg ranges.weight_kg true

  unfoldable pub score_battery : ScorableProduct py → Ranges py → py.F
  unfolding normalize
  score_battery product ranges = normalize (some product.battery_wh) ranges.battery_wh false

  unfoldable pub screen_size_for : List String → py.F → py.F
  unfolding user_screen_bucket product_screen_bucket
  screen_size_for [] inches = py.of_nat 50
  screen_size_for (first ∷ rest) inches =
      let a = user_screen_bucket first in
      let b = product_screen_bucket inches in
      fmax py (py.of_nat 0)
        (py.sub (py.of_nat 100) (py.mul (py.of_nat (a - b + (b - a))) (py.of_nat 40)))

  -- `_score_screen_size`.
  unfoldable pub score_screen_size : ScorableProduct py → Option (Preference py) → py.F
  unfolding screen_size_for
  score_screen_size product none = py.of_nat 50
  score_screen_size product (some pref) =
      screen_size_for pref.screen_sizes product.display_size_inch

  unfoldable pub brand_for : List String → String → py.F
  brand_for [] name = py.of_nat 50
  brand_for (b ∷ bs) name =
      let prefs = map py.lower (b ∷ bs) in
      if any (str_eq "no preference") prefs
      then py.of_nat 50
      else if any (str_eq (py.lower name)) prefs
      then py.of_nat 100
      else py.of_nat 50

  -- `_score_brand`.
  unfoldable pub score_brand : ScorableProduct py → Option (Preference py) → py.F
  unfolding brand_for
  score_brand product none = py.of_nat 50
  score_brand product (some pref) = brand_for pref.brand_preferences product.brand_name
