-- ===== src/PickScore/Bounds.antt =====
-- The scores of the factors lie between 0 and 100.
use pickwise_v2_backend.Prelude.{
  ℕ, ◌≡◌, refl, String, Bool, true, false, Option, none, some, List, [], ◌∷◌, Bool-cases, inl, inr,
  any, map, str_eq,
}
use pickwise_v2_backend.PickScore.Platform.{Platform, IsOrdered, fmax, fmin, is_zero}
use pickwise_v2_backend.PickScore.Factors.{
  ScorableProduct, Range, Ranges, Factor, price, cpu, gpu, ram_storage, portability, battery,
  screen_size, brand, Preference, GpuResult, clamped, normalize_in, normalize, penalty, attenuated,
  usable_budget, budget_of, score_price, score_cpu, score_gpu_mark, score_gpu, storage_score,
  is_hdd, score_ram_storage, score_portability, score_battery, screen_size_for, score_screen_size,
  brand_for, score_brand,
}
use pickwise_v2_backend.PickScore.Total.{scores_of, factor_score}

module _ (py : Platform) (o : IsOrdered py) where
  -- A score.
  abbrev pub IsScore : py.F → Type 0
  IsScore x = (py.le (py.of_nat 0) x ≡ true) × (py.le x (py.of_nat 100) ≡ true)

  zero_hundred : py.le (py.of_nat 0) (py.of_nat 100) ≡ true
  zero_hundred = o.trans (py.of_nat 0) (py.of_nat 50) (py.of_nat 100) o.zero_fifty o.fifty_hundred

  fifty-IsScore : IsScore (py.of_nat 50)
  fifty-IsScore = (o.zero_fifty, o.fifty_hundred)

  fmin-le : (a b : py.F) → py.le a a ≡ true → py.le (fmin py a b) a ≡ true
  fmin-le a b r = elim (Bool-cases (py.le a b)) [
    | inl below ↦ rw below r
    | inr above ↦ rw above (o.total a b above)
  ]

  le_refl : (a : py.F) → py.le a a ≡ true
  le_refl a = elim (Bool-cases (py.le a a)) [ inl same ↦ same | inr other ↦ o.total a a other ]

  -- `max(0.0, x)` of what is at most 100.
  floor-IsScore : (x : py.F) → py.le x (py.of_nat 100) ≡ true → IsScore (fmax py (py.of_nat 0) x)
  floor-IsScore x h = elim (Bool-cases (py.le x (py.of_nat 0))) [
    | inl below ↦ rw below (le_refl (py.of_nat 0), zero_hundred)
    | inr above ↦ rw above (o.total x (py.of_nat 0) above, h)
  ]

  clamped-IsScore : (inverse : Bool) (x : py.F) → IsScore (clamped py inverse x)
  unfolding clamped
  clamped-IsScore false x =
      floor-IsScore (fmin py (py.of_nat 100) x)
        (fmin-le (py.of_nat 100) x (le_refl (py.of_nat 100)))
  clamped-IsScore true x =
      let (low, high) =
        floor-IsScore (fmin py (py.of_nat 100) x)
          (fmin-le (py.of_nat 100) x (le_refl (py.of_nat 100))) in
      (o.inverse_low _ high, o.inverse_high _ low)

  normalize_in-IsScore :
      (values : List py.F) (range : Range py) (inverse : Bool) (v : py.F)
      → IsScore (normalize_in py values range inverse v)
  unfolding normalize_in
  normalize_in-IsScore (x ∷ xs) range inverse v = clamped-IsScore inverse _
  normalize_in-IsScore [] range inverse v = elim (Bool-cases (py.le range.high range.low)) [
    | inl flat ↦ rw flat fifty-IsScore
    | inr wide ↦ rw wide (clamped-IsScore inverse _)
  ]

  normalize-IsScore :
      (v : Option py.F) (range : Range py) (inverse : Bool) → IsScore (normalize py v range inverse)
  unfolding normalize
  normalize-IsScore none range inverse = fifty-IsScore
  normalize-IsScore (some v) range inverse = normalize_in-IsScore range.values range inverse v

  penalty-share :
      (asked budget : py.F)
      → py.le asked budget ≡ false
      → py.le budget (py.of_nat 0) ≡ false
      → (py.le (py.of_nat 0) (penalty py asked budget) ≡ true)
        × (py.le (penalty py asked budget) (py.of_nat 1) ≡ true)
  unfolding penalty
  penalty-share asked budget over paid =
      let ratio = py.mul (py.of_nat 2) (py.div (py.sub asked budget) budget) in
      elim (Bool-cases (py.le (py.sub (py.of_nat 1) ratio) (py.of_nat 0))) [
        | inl below ↦ rw below (le_refl (py.of_nat 0), o.zero_one)
        | inr above ↦
            rw above
              (o.total _ (py.of_nat 0) above, o.one_less ratio (o.excess asked budget over paid))
      ]

  usable-positive :
      (b : Option py.F) (budget : py.F)
      → usable_budget py b ≡ some budget
      → py.le budget (py.of_nat 0) ≡ false
  unfolding usable_budget
  usable-positive none budget h = cc
  usable-positive (some b) budget h = elim (Bool-cases (py.le b (py.of_nat 0))) [
    | inl unusable ↦ let e : usable_budget py (some b) ≡ none = rw unusable refl in cc
    | inr usable ↦ let e : usable_budget py (some b) ≡ some b = rw usable refl in cc
  ]

  attenuated-IsScore :
      (base asked : py.F) (b : Option py.F)
      → IsScore base
      → ((budget : py.F) → b ≡ some budget → py.le budget (py.of_nat 0) ≡ false)
      → IsScore (attenuated py base asked b).0
  unfolding attenuated
  attenuated-IsScore base asked none h k = h
  attenuated-IsScore base asked (some budget) h k = elim (Bool-cases (py.le asked budget)) [
    | inl within ↦ rw within h
    | inr over ↦
        let (low, high) = penalty-share asked budget over (k budget refl) in
        rw over (o.share_low base _ h.0 low, o.share_high base _ h.1 low high)
  ]

  budget-positive :
      (pref : Option (Preference py)) (budget : py.F)
      → budget_of py pref ≡ some budget
      → py.le budget (py.of_nat 0) ≡ false
  unfolding budget_of
  budget-positive none budget h = cc
  budget-positive (some pref) budget h = usable-positive pref.budget_max budget h

  price-IsScore :
      (product : ScorableProduct py) (pref : Option (Preference py)) (ranges : Ranges py)
      → IsScore (score_price py product pref ranges).0
  unfolding score_price
  price-IsScore product pref ranges = elim (Bool-cases (is_zero py product.price)) [
    | inl unknown ↦ rw unknown fifty-IsScore
    | inr known ↦ rw known (
        attenuated-IsScore _ product.price (budget_of py pref)
          (normalize-IsScore (some product.price) ranges.price true) (budget-positive pref))
  ]

  cpu-IsScore : (mark : Option ℕ) (ranges : Ranges py) → IsScore (score_cpu py mark ranges).0
  unfolding score_cpu
  cpu-IsScore none ranges = fifty-IsScore
  cpu-IsScore (some mark) ranges = normalize-IsScore (some (py.of_nat mark)) ranges.cpu_mark false

  gpu_mark-IsScore :
      (mark : Option ℕ) (p : Bool) (ranges : Ranges py)
      → IsScore (score_gpu_mark py mark p ranges).0
  unfolding score_gpu_mark
  gpu_mark-IsScore none p ranges = fifty-IsScore
  gpu_mark-IsScore (some mark) p ranges =
      normalize-IsScore (some (py.of_nat mark)) ranges.gpu_mark false

  storage-IsScore :
      (product : ScorableProduct py) (ranges : Ranges py)
      → IsScore (storage_score py product ranges)
  unfolding storage_score
  storage-IsScore product ranges =
      let plain = normalize-IsScore (some (py.of_nat product.storage_gb)) ranges.storage_gb false in
      elim (Bool-cases (is_hdd py product.storage_type)) [
        | inl slow ↦ rw slow (floor-IsScore _ (o.fifteen_less _ plain.1))
        | inr fast ↦ rw fast plain
      ]

  ram_storage-IsScore :
      (product : ScorableProduct py) (ranges : Ranges py)
      → IsScore (score_ram_storage py product ranges)
  unfolding score_ram_storage
  ram_storage-IsScore product ranges =
      let ram = normalize-IsScore (some (py.of_nat product.ram_gb)) ranges.ram_gb false in
      let storage = storage-IsScore product ranges in
      (o.mix_low _ _ ram.0 storage.0, o.mix_high _ _ ram.1 storage.1)

  screen-IsScore :
      (product : ScorableProduct py) (sizes : List String)
      → IsScore (screen_size_for py sizes product.display_size_inch)
  unfolding screen_size_for
  screen-IsScore product [] = fifty-IsScore
  screen-IsScore product (s ∷ ss) = floor-IsScore _ (o.forty_less _)

  brand-IsScore : (names : List String) (name : String) → IsScore (brand_for py names name)
  unfolding brand_for
  brand-IsScore [] name = fifty-IsScore
  brand-IsScore (b ∷ bs) name =
      elim (Bool-cases (any (str_eq "no preference") (map py.lower (b ∷ bs)))) [
        | inl indifferent ↦ rw indifferent fifty-IsScore
        | inr choosy ↦ elim (Bool-cases (any (str_eq (py.lower name)) (map py.lower (b ∷ bs)))) [
          | inl liked ↦ rw (choosy, liked) (zero_hundred, le_refl (py.of_nat 100))
          | inr other ↦ rw (choosy, other) fifty-IsScore
        ]
      ]

  -- Every factor's score is between 0 and 100, for every product, preference and catalog, whatever
  -- the benchmark tables know of the CPU and the GPU, if the floats keep the order as stated.
  pub factor_score-bounds :
      (product : ScorableProduct py) (pref : Option (Preference py)) (ranges : Ranges py)
      (cpu_mark : Option ℕ) (gpu_result : GpuResult) (f : Factor)
      → (py.le
            (py.of_nat 0)
            (factor_score py (scores_of py product pref ranges cpu_mark gpu_result) f)
          ≡ true)
        × (py.le
              (factor_score py (scores_of py product pref ranges cpu_mark gpu_result) f)
              (py.of_nat 100)
            ≡ true)
  unfolding factor_score scores_of score_gpu score_portability score_battery score_screen_size
      score_brand
  factor_score-bounds product pref ranges mark g price = price-IsScore product pref ranges
  factor_score-bounds product pref ranges mark g cpu = cpu-IsScore mark ranges
  factor_score-bounds product pref ranges mark g gpu = gpu_mark-IsScore g.score g.is_proxy ranges
  factor_score-bounds product pref ranges mark g ram_storage = ram_storage-IsScore product ranges
  factor_score-bounds product pref ranges mark g portability =
      normalize-IsScore product.weight_kg ranges.weight_kg true
  factor_score-bounds product pref ranges mark g battery =
      normalize-IsScore (some product.battery_wh) ranges.battery_wh false
  factor_score-bounds product none ranges mark g screen_size = fifty-IsScore
  factor_score-bounds product (some pref) ranges mark g screen_size =
      screen-IsScore product pref.screen_sizes
  factor_score-bounds product none ranges mark g brand = fifty-IsScore
  factor_score-bounds product (some pref) ranges mark g brand =
      brand-IsScore pref.brand_preferences product.brand_name
