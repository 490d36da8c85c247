-- ===== src/Rag.antt =====
-- When a search finds too little: app/rag/relaxation.py and app/rag/gating.py. A budget is a number
-- of sen and a weight a number of grams. The retrieval and the reranking come in as functions, a
-- score by the tests that the two modules make of it, and a message by what it is about.
pub mod Relaxing
pub mod Gate
pub mod Rerank
pub mod Order
pub mod Sorted
mod Examples
use pickwise_v2_backend.Prelude.{
  ℕ, zero, suc, ◌+◌, ◌*◌, String, Bool, true, false, not, ◌||◌, ◌&&◌, Option, none, some, List, [],
  ◌∷◌, leb, ◌==◌, any, take, keep, if◌then◌else◌,
}

-- `UserConstraints` of app/rag/reranker.py.
pub record UserConstraints : Type 0 where
  pub budget : Option ℕ
  pub weight_limit : Option ℕ
  pub purpose : List String
  pub brand_preferences : List String

pub data Field : Type 0 where
  weight_limit budget : Field

pub record Rule : Type 0 where
  pub field : Field
  pub step : ℕ
  pub max_steps : ℕ

-- `_RELAXATION_STEPS`: 0.2 kg twice, RM 500 three times.
abbrev pub relaxation_steps : List Rule
relaxation_steps =
    record { field = weight_limit; step = 200; max_steps = 2 }
    ∷ record { field = budget; step = 50_000; max_steps = 3 }
    ∷ []

-- `getattr(constraints, field)` and `setattr`.
unfoldable pub limit_of : Field → UserConstraints → Option ℕ
limit_of weight_limit c = c.weight_limit
limit_of budget c = c.budget

unfoldable pub relaxed_to : Field → ℕ → UserConstraints → UserConstraints
relaxed_to weight_limit v c = record c { weight_limit = some v }
relaxed_to budget v c = record c { budget = some v }

-- The message is built from the field and the two values.
pub record RelaxationResult {ℓ} (R : Type ℓ) : Type ℓ where
  pub candidates : List R
  pub relaxed_field : Field
  pub original_value : ℕ
  pub relaxed_value : ℕ

module _ {ℓ κ} {C : Type ℓ} {R : Type κ} (retrieve : Option ℕ → List C)
    (rerank : List C → UserConstraints → List R) (is_viable : R → Bool) where
  -- `needs_relaxation`.
  unfoldable pub needs_relaxation : List R → Bool
  needs_relaxation candidates = not (any is_viable candidates)

  -- The pipeline with some constraints.
  unfoldable pub search : UserConstraints → List R
  search c = rerank (retrieve c.budget) c

  -- The result of one round of the loop, where it has one.
  unfoldable pub attempt : Rule → UserConstraints → ℕ → ℕ → Option (RelaxationResult R)
  unfolding search relaxed_to
  attempt rule c original n =
      let relaxed = original + rule.step * n in
      let ranked = search (relaxed_to rule.field relaxed c) in
      if any is_viable ranked
      then some (record {
        candidates = ranked;
        relaxed_field = rule.field;
        original_value = original;
        relaxed_value = relaxed;
      })
      else none

  abbrev pub or_else :
      Option (RelaxationResult R) → Option (RelaxationResult R) → Option (RelaxationResult R)
  or_else none other = other
  or_else (some r) other = some r

  -- `for n in range(n, n + left)`.
  unfoldable pub attempts : Rule → UserConstraints → ℕ → ℕ → ℕ → Option (RelaxationResult R)
  unfolding attempt
  attempts rule c original n zero = none
  attempts rule c original n (suc left) =
      or_else (attempt rule c original n) (attempts rule c original (n + 1) left)

  unfoldable pub relax_rule : Rule → UserConstraints → Option ℕ → Option (RelaxationResult R)
  unfolding attempts
  relax_rule rule c none = none
  relax_rule rule c (some original) = attempts rule c original 1 rule.max_steps

  -- `relax_and_retry`, on the steps from its index on.
  unfoldable pub relax_from : List Rule → UserConstraints → Option (RelaxationResult R)
  unfolding relax_rule limit_of
  relax_from [] c = none
  relax_from (rule ∷ rules) c =
      or_else (relax_rule rule c (limit_of rule.field c)) (relax_from rules c)

  unfoldable pub relax_and_retry : UserConstraints → Option (RelaxationResult R)
  unfolding relax_from
  relax_and_retry c = relax_from relaxation_steps c

pub data Bottleneck : Type 0 where
  budget_bottleneck weight_bottleneck general : Bottleneck

-- The two statuses of `GateResult`, with what each carries: the message is that of the bottleneck,
-- or the one for an empty search.
pub data GateResult {ℓ} (R : Type ℓ) : Type ℓ where
  pass : List R → GateResult R
  nothing_found : GateResult R
  gated : Bottleneck → GateResult R

module _ {ℓ} {R : Type ℓ} (is_within : String → String → Bool) (reasons : R → List String)
    (is_below : R → Bool) where
  unfoldable pub hits_in : (String → Bool) → List String → ℕ
  hits_in p [] = 0
  hits_in p (r ∷ rs) = let rest = hits_in p rs in if p r then rest + 1 else rest

  unfoldable pub hits : (String → Bool) → List R → ℕ
  unfolding hits_in
  hits p [] = 0
  hits p (c ∷ cs) = hits_in p (reasons c) + hits p cs

  abbrev pub is_budget_reason : String → Bool
  is_budget_reason r = is_within "budget" r || is_within "over budget" r

  abbrev pub is_weight_reason : String → Bool
  is_weight_reason r = is_within "weight" r

  unfoldable pub bottleneck_of : ℕ → ℕ → Bottleneck
  bottleneck_of budget_hits weight_hits =
      if budget_hits == 0 && weight_hits == 0
      then general
      else if leb weight_hits budget_hits
      then budget_bottleneck
      else weight_bottleneck

  -- `_detect_bottleneck`.
  unfoldable pub detect_bottleneck : List R → Bottleneck
  unfolding bottleneck_of hits
  detect_bottleneck candidates =
      bottleneck_of (hits is_budget_reason (take 10 candidates))
        (hits is_weight_reason (take 10 candidates))

  -- `relevance_gate`; `is_below` is `final_score < RELEVANCE_THRESHOLD`.
  unfoldable pub relevance_gate : List R → GateResult R
  unfolding detect_bottleneck
  relevance_gate [] = nothing_found
  relevance_gate (top ∷ rest) =
      if is_below top then gated (detect_bottleneck (top ∷ rest)) else pass (top ∷ rest)
