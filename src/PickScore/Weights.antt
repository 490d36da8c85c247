-- ===== src/PickScore/Weights.antt =====
-- The weights: `_compute_weights` of app/pickscore/engine.py with its tables. A weight of the tables
-- is written in tenths.
use pickwise_v2_backend.Prelude.{
  ℕ, String, Option, none, some, List, [], ◌∷◌, ◌==◌, map, str_eq, if◌then◌else◌,
}
use pickwise_v2_backend.PickScore.Platform.{Platform, fmax, fmin, is_zero}
use pickwise_v2_backend.PickScore.Factors.{
  Factor, price, cpu, gpu, ram_storage, portability, battery, screen_size, brand, Preference,
}

abbrev pub factor_index : Factor → ℕ
factor_index price = 0
factor_index cpu = 1
factor_index gpu = 2
factor_index ram_storage = 3
factor_index portability = 4
factor_index battery = 5
factor_index screen_size = 6
factor_index brand = 7

abbrev pub factors : List Factor
factors = price ∷ cpu ∷ gpu ∷ ram_storage ∷ portability ∷ battery ∷ screen_size ∷ brand ∷ []

-- `DEFAULT_PRIORITY`.
abbrev pub default_priority : Factor → ℕ
default_priority price = 8
default_priority cpu = 7
default_priority gpu = 6
default_priority ram_storage = 5
default_priority portability = 4
default_priority battery = 3
default_priority screen_size = 2
default_priority brand = 1

-- `PURPOSE_MODIFIERS`.
abbrev pub purpose_modifiers : List (String × List (Factor × ℕ))
purpose_modifiers =
    ("Office/Study", (price, 13) ∷ (battery, 12) ∷ (portability, 12) ∷ (cpu, 11) ∷ [])
    ∷ ("Programming/Development", (cpu, 13) ∷ (ram_storage, 13) ∷ (price, 11) ∷ (battery, 11) ∷ [])
    ∷ ("Gaming", (gpu, 13) ∷ (cpu, 12) ∷ (ram_storage, 11) ∷ [])
    ∷ ("Creative Work", (gpu, 13) ∷ (cpu, 12) ∷ (ram_storage, 12) ∷ (screen_size, 11) ∷ [])
    ∷ (
      "General Use",
      (price, 13) ∷ (cpu, 12) ∷ (ram_storage, 12) ∷ (portability, 11) ∷ (battery, 11) ∷ [],
    )
    ∷ []

-- `PORTABILITY_MULTIPLIERS`.
abbrev pub portability_multipliers : List (String × ℕ)
portability_multipliers = ("Yes", 14) ∷ ("Neutral", 10) ∷ ("No", 5) ∷ []

-- `PURPOSE_MODIFIERS.get(purpose, {})`.
unfoldable pub modifiers_of : String → List (String × List (Factor × ℕ)) → List (Factor × ℕ)
modifiers_of purpose [] = []
modifiers_of purpose ((p, mods) ∷ rest) =
    if str_eq p purpose then mods else modifiers_of purpose rest

unfoldable pub priority_of {ℓ} : {A : Type ℓ} → Factor → A → List (Factor × A) → A
priority_of f default [] = default
priority_of f default ((g, w) ∷ rest) =
    if factor_index g == factor_index f then w else priority_of f default rest

module _ (py : Platform) where
  -- `purpose_mods[factor] = min(1.3, max(purpose_mods[factor], mult))`, for one factor.
  unfoldable pub boost : ℕ → py.F → py.F
  boost mult current = fmin py (py.tenths 13) (fmax py current (py.tenths mult))

  unfoldable pub boosted : Factor → List (Factor × ℕ) → py.F → py.F
  unfolding boost
  boosted f [] current = current
  boosted f ((g, mult) ∷ rest) current =
      boosted f rest (if factor_index g == factor_index f then boost mult current else current)

  unfoldable pub purpose_mod : Factor → List String → py.F → py.F
  unfolding boosted modifiers_of
  purpose_mod f [] current = current
  purpose_mod f (purpose ∷ rest) current =
      purpose_mod f rest (boosted f (modifiers_of purpose purpose_modifiers) current)

  -- The first multiplier whose key begins the answer; an answer of none reads as "Neutral".
  unfoldable pub portability_mult : String → List (String × ℕ) → py.F
  portability_mult answer [] = py.of_nat 1
  portability_mult answer ((key, mult) ∷ rest) =
      if py.starts_with answer key then py.tenths mult else portability_mult answer rest

  abbrev pub or_neutral : Option String → String
  or_neutral none = "Neutral"
  or_neutral (some answer) = if str_eq answer "" then "Neutral" else answer

  -- `dict(priority_override or DEFAULT_PRIORITY)`.
  unfoldable pub general_base : Option (List (Factor × py.F)) → Factor → py.F
  unfolding priority_of
  general_base none f = py.of_nat (default_priority f)
  general_base (some []) f = py.of_nat (default_priority f)
  general_base (some (p ∷ ps)) f = priority_of f (py.of_nat 1) (p ∷ ps)

  abbrev pub times_portability : Factor → py.F → py.F → py.F
  times_portability portability mult w = py.mul w mult
  times_portability _ mult w = w

  unfoldable pub final_weight :
      Option (Preference py) → Option (List (Factor × py.F)) → Factor → py.F
  unfolding purpose_mod portability_mult general_base priority_of
  final_weight (some pref) override f =
      times_portability f (portability_mult (or_neutral pref.portability) portability_multipliers) (
        py.mul (priority_of f (py.of_nat 1) pref.priorities)
          (purpose_mod f pref.purpose (py.of_nat 1)))
  final_weight none override f =
      times_portability f (py.of_nat 1) (py.mul (general_base override f) (py.of_nat 1))

  -- `sum(...)`.
  unfoldable pub sum : List py.F → py.F → py.F
  sum [] acc = acc
  sum (x ∷ xs) acc = sum xs (py.add acc x)

  unfoldable pub total_weight : Option (Preference py) → Option (List (Factor × py.F)) → py.F
  unfolding final_weight sum
  total_weight pref override = sum (map (final_weight pref override) factors) (py.of_nat 0)

  -- `_compute_weights`. None is the ZeroDivisionError of a total of 0, which eight priorities of 0
  -- give.
  unfoldable pub compute_weights :
      Option (Preference py) → Option (List (Factor × py.F)) → Option (Factor → py.F)
  unfolding final_weight total_weight
  compute_weights pref override =
      let total = total_weight pref override in
      if is_zero py total then none else some (λ f. py.div (final_weight pref override f) total)
