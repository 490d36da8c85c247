-- ===== src/Rag/Rerank.antt =====
-- Reranking: app/rag/reranker.py, over the floats and the text operations of PickScore/Platform. A
-- laptop's id is a number, in the order of the ids' texts. A reason is what its text is about.
use mathlib.Core.Option
use pickwise_v2_backend.Prelude.{
  ℕ, String, Bool, true, not, ◌&&◌, Option, none, some, List, [], ◌∷◌, ◌++◌, leb, str_eq, any, keep,
  if◌then◌else◌, is_some,
}
use pickwise_v2_backend.PickScore.Platform.{Platform, fmax, fmin, is_zero}

pub record RetrievalCandidate (py : Platform) : Type 0 where
  pub laptop_id : ℕ
  pub price_rm : py.F
  pub weight_kg : Option py.F
  pub processor_model : Option String
  pub brand_name : String
  pub similarity_score : py.F

-- `UserConstraints`, with its floats.
pub record Limits (py : Platform) : Type 0 where
  pub budget : Option py.F
  pub weight_limit : Option py.F
  pub purpose : List String
  pub brand_preferences : List String

pub data PenaltyReason : Type 0 where
  budget_soft budget_medium budget_hard weight_soft weight_hard : PenaltyReason

pub data BonusReason : Type 0 where
  cpu_matches : String → BonusReason
  brand_matches brand_differs : BonusReason

pub record RankedCandidate (py : Platform) : Type 0 where
  pub laptop_id : ℕ
  pub penalty_multiplier : py.F
  pub bonus : py.F
  pub final_score : py.F
  pub penalty_reasons : List PenaltyReason
  pub bonus_reasons : List BonusReason

-- `_PURPOSE_CPU_SIGNALS`.
abbrev pub cpu_signals : List (String × List String)
cpu_signals =
    (
      "Programming/Development",
      "i5" ∷ "i7" ∷ "i9" ∷ "ryzen 5" ∷ "ryzen 7" ∷ "ryzen 9" ∷ "m3" ∷ "m4" ∷ [],
    )
    ∷ ("Office/Study", "i5" ∷ "i7" ∷ "ryzen 5" ∷ "ryzen 7" ∷ [])
    ∷ []

unfoldable pub signals_of : String → List (String × List String) → List String
signals_of purpose [] = []
signals_of purpose ((p, keywords) ∷ rest) =
    if str_eq p purpose then keywords else signals_of purpose rest

module _ (py : Platform) where
  -- The literal of so many hundredths, and its negative.
  abbrev pub hundredths : ℕ → py.F
  hundredths n = py.div (py.of_nat n) (py.of_nat 100)

  -- The multiplier of a price over the budget.
  unfoldable pub over_budget : py.F → py.F × List PenaltyReason
  over_budget over_ratio =
      if py.le over_ratio (hundredths 10)
      then (
        fmax py (hundredths 50) (py.sub (py.of_nat 1) (py.mul over_ratio (py.of_nat 2))),
        budget_soft ∷ [],
      )
      else if py.le over_ratio (hundredths 30)
      then (
        fmax py (hundredths 30) (py.sub (py.of_nat 1) (py.mul over_ratio (hundredths 150))),
        budget_medium ∷ [],
      )
      else (hundredths 10, budget_hard ∷ [])

  -- `(value - limit) / limit`. None is the ZeroDivisionError.
  unfoldable pub over_ratio : py.F → py.F → Option py.F
  over_ratio value limit =
      if is_zero py limit then none else some (py.div (py.sub value limit) limit)

  -- `_budget_penalty`.
  unfoldable pub budget_penalty : py.F → Option py.F → Option (py.F × List PenaltyReason)
  unfolding over_budget over_ratio
  budget_penalty price none = some (py.of_nat 1, [])
  budget_penalty price (some budget) =
      if py.le price budget
      then some (py.of_nat 1, [])
      else Option.map over_budget (over_ratio price budget)

  -- The multiplier of a weight over the limit.
  unfoldable pub over_limit : py.F → py.F × List PenaltyReason
  over_limit ratio =
      if py.le ratio (hundredths 20)
      then (hundredths 70, weight_soft ∷ [])
      else (hundredths 20, weight_hard ∷ [])

  unfoldable pub over_weight : py.F → py.F → Option (py.F × List PenaltyReason)
  unfolding over_limit over_ratio
  over_weight weight limit =
      if py.le weight limit
      then some (py.of_nat 1, [])
      else Option.map over_limit (over_ratio weight limit)

  -- `_weight_penalty`.
  unfoldable pub weight_penalty : Option py.F → Option py.F → Option (py.F × List PenaltyReason)
  unfolding over_weight
  weight_penalty weight none = some (py.of_nat 1, [])
  weight_penalty none (some limit) = some (py.of_nat 1, [])
  weight_penalty (some weight) (some limit) = over_weight weight limit

  -- The loop of `_purpose_bonus`: one bonus for each purpose with a signal in the CPU's name.
  unfoldable pub purpose_loop :
      String → List String → py.F × List BonusReason → py.F × List BonusReason
  unfolding signals_of
  purpose_loop cpu [] acc = acc
  purpose_loop cpu (p ∷ ps) (bonus, reasons) = purpose_loop cpu ps (
      if any (λ kw. py.is_within kw cpu) (signals_of p cpu_signals)
      then (py.add bonus (hundredths 4), reasons ++ cpu_matches p ∷ [])
      else (bonus, reasons))

  abbrev pub cpu_name : Option String → String
  cpu_name none = ""
  cpu_name (some s) = s

  -- `_purpose_bonus`.
  unfoldable pub purpose_bonus : Option String → List String → py.F × List BonusReason
  unfolding purpose_loop
  purpose_bonus processor purpose =
      let (bonus, reasons) =
        purpose_loop (py.lower (cpu_name processor)) purpose (py.of_nat 0, []) in
      (fmin py bonus (hundredths 8), reasons)

  -- `_brand_bonus`.
  unfoldable pub brand_bonus : String → List String → py.F × List BonusReason
  brand_bonus name [] = (py.of_nat 0, [])
  brand_bonus name (b ∷ bs) =
      if any (str_eq "no preference") (b ∷ bs)
      then (py.of_nat 0, [])
      else if any (str_eq (py.lower name)) (b ∷ bs)
      then (hundredths 5, brand_matches ∷ [])
      else (py.sub (py.of_nat 0) (hundredths 25), brand_differs ∷ [])

  -- A candidate with its two penalties.
  unfoldable pub with_penalties :
      Limits py
      → RetrievalCandidate py
      → py.F × List PenaltyReason
      → py.F × List PenaltyReason
      → RankedCandidate py
  unfolding purpose_bonus brand_bonus
  with_penalties limits c (b_mult, b_reasons) (w_mult, w_reasons) =
      let (p_bonus, p_reasons) = purpose_bonus c.processor_model limits.purpose in
      let (br_bonus, br_reasons) = brand_bonus c.brand_name limits.brand_preferences in
      let penalty = py.mul b_mult w_mult in
      let bonus = py.add p_bonus br_bonus in
      record {
        laptop_id = c.laptop_id;
        penalty_multiplier = py.round_to 3 penalty;
        bonus = py.round_to 3 bonus;
        final_score = py.round_to 4 (py.add (py.mul c.similarity_score penalty) bonus);
        penalty_reasons = b_reasons ++ w_reasons;
        bonus_reasons = p_reasons ++ br_reasons;
      }

  unfoldable pub penalised :
      Limits py
      → RetrievalCandidate py
      → Option (py.F × List PenaltyReason)
      → Option (py.F × List PenaltyReason)
      → Option (RankedCandidate py)
  unfolding with_penalties
  penalised limits c none w = none
  penalised limits c (some b) none = none
  penalised limits c (some b) (some w) = some (with_penalties limits c b w)

  unfoldable pub ranked : Limits py → RetrievalCandidate py → Option (RankedCandidate py)
  unfolding budget_penalty weight_penalty penalised
  ranked limits c =
      penalised limits c (budget_penalty c.price_rm limits.budget)
        (weight_penalty c.weight_kg limits.weight_limit)

  -- An unknown weight is dropped where there is a limit.
  abbrev pub is_dropped : Limits py → RetrievalCandidate py → Bool
  is_dropped limits c = is_some limits.weight_limit && not (is_some c.weight_kg)

  -- The order of the key `(-final_score, laptop_id)`.
  unfoldable pub is_before : RankedCandidate py → RankedCandidate py → Bool
  is_before a b =
      if py.le a.final_score b.final_score
      then py.le b.final_score a.final_score && leb a.laptop_id b.laptop_id
      else true

  -- A stable sort.
  unfoldable pub insert_ranked :
      RankedCandidate py → List (RankedCandidate py) → List (RankedCandidate py)
  unfolding is_before
  insert_ranked a [] = a ∷ []
  insert_ranked a (b ∷ bs) = if is_before a b then a ∷ b ∷ bs else b ∷ insert_ranked a bs

  unfoldable pub sort_ranked : List (RankedCandidate py) → List (RankedCandidate py)
  unfolding insert_ranked
  sort_ranked [] = []
  sort_ranked (a ∷ rest) = insert_ranked a (sort_ranked rest)

  -- The first candidate whose ranking raises ends the loop.
  unfoldable pub prepend :
      Option (RankedCandidate py)
      → Option (List (RankedCandidate py))
      → Option (List (RankedCandidate py))
  prepend none rest = none
  prepend (some r) rest = Option.map (λ rs. r ∷ rs) rest

  unfoldable pub ranked_all :
      Limits py → List (RetrievalCandidate py) → Option (List (RankedCandidate py))
  unfolding ranked prepend
  ranked_all limits [] = some []
  ranked_all limits (c ∷ cs) = prepend (ranked limits c) (ranked_all limits cs)

  -- `rerank`. None is the ZeroDivisionError of a penalty.
  unfoldable pub rerank :
      List (RetrievalCandidate py) → Limits py → Option (List (RankedCandidate py))
  unfolding ranked_all sort_ranked
  rerank candidates limits =
      Option.map sort_ranked (ranked_all limits (keep (λ c. not (is_dropped limits c)) candidates))
