-- ===== src/Rag/Examples.antt =====
-- Relaxed searches and the gate on small pools of candidates.
use mathlib.Core.Option
use pickwise_v2_backend.Prelude.{
  map, not, ℕ, ◌≡◌, refl, true, Option, none, some, List, [], ◌∷◌, leb, keep,
}
use pickwise_v2_backend.Rag.{
  UserConstraints, budget, relax_and_retry, relax_from, relax_rule, attempts, attempt, search,
  relaxed_to, limit_of,
}
use pickwise_v2_backend.Rag.Relaxing.{plan, first_that_helps, relax_and_retry-plan}
use pickwise_v2_backend.PickScore.Whole.{whole, whole-IsOrdered}
use pickwise_v2_backend.Rag.Rerank.{
  RetrievalCandidate, Limits, RankedCandidate, rerank, ranked, sort_ranked, insert_ranked,
  is_before, ranked_all, prepend, penalised, with_penalties, over_limit, over_ratio, is_dropped,
  budget_penalty, weight_penalty, over_weight, over_budget, purpose_bonus, purpose_loop,
  brand_bonus, signals_of,
}
use pickwise_v2_backend.Rag.Order.{InOrder, IsRanked, rerank-IsSorted}

-- A candidate is its price.
abbrev pool : Option ℕ → List ℕ
pool most = 420_000 ∷ 700_000 ∷ []

abbrev affordable : List ℕ → UserConstraints → List ℕ
affordable candidates c =
    keep (λ price. elim c.budget [ none ↦ true | some b ↦ leb price b ]) candidates

abbrev asked : UserConstraints
asked = record {
  budget = some 350_000;
  weight_limit = none;
  purpose = "Gaming" ∷ [];
  brand_preferences = [];
}

relax_runs :
    relax_and_retry pool affordable (λ p. true) asked
    ≡ some (record {
      candidates = 420_000 ∷ [];
      relaxed_field = budget;
      original_value = 350_000;
      relaxed_value = 450_000;
    })
unfolding relax_and_retry relax_from relax_rule attempts attempt search relaxed_to limit_of
relax_runs = refl

relax_and_retry-plan_example :
    relax_and_retry pool affordable (λ p. true) asked
    ≡ first_that_helps pool affordable (λ p. true) asked (plan asked)
relax_and_retry-plan_example = relax_and_retry-plan pool affordable (λ p. true) asked

abbrev candidate : ℕ → ℕ → Option ℕ → RetrievalCandidate whole
candidate id similarity weight = record {
  laptop_id = id;
  price_rm = 3000;
  weight_kg = weight;
  processor_model = some "i7";
  brand_name = "acer";
  similarity_score = similarity;
}

abbrev candidates : List (RetrievalCandidate whole)
candidates =
    candidate 4 60 (some 1)
    ∷ candidate 3 90 none
    ∷ candidate 2 70 (some 1)
    ∷ candidate 1 60 (some 1)
    ∷ []

abbrev limits : Limits whole
limits = record {
  budget = some 3500;
  weight_limit = some 2;
  purpose = "Office/Study" ∷ [];
  brand_preferences = "acer" ∷ [];
}

rerank_runs :
    Option.map (map (λ (c : RankedCandidate whole). c.laptop_id)) (rerank whole candidates limits)
    ≡ some (2 ∷ 1 ∷ 4 ∷ [])
unfolding rerank ranked_all ranked prepend penalised with_penalties sort_ranked insert_ranked
    is_before budget_penalty weight_penalty over_weight over_limit over_ratio over_budget
    purpose_bonus purpose_loop brand_bonus signals_of
rerank_runs = refl

-- A budget of 0 raises a division by zero.
zero_budget_raises : rerank whole candidates (record limits { budget = some 0 }) ≡ none
unfolding rerank ranked_all ranked prepend penalised budget_penalty over_ratio
zero_budget_raises = refl

rerank-IsSorted_example :
    InOrder whole (rerank whole candidates limits)
    × IsRanked whole limits
        (λ c. leb 2 c.laptop_id)
        (keep (λ c. not (is_dropped whole limits c)) candidates)
        (rerank whole candidates limits)
rerank-IsSorted_example =
    rerank-IsSorted whole whole-IsOrdered candidates limits (λ c. leb 2 c.laptop_id)
