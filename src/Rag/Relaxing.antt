-- ===== src/Rag/Relaxing.antt =====
-- What a relaxed search tries, and in which order.
use pickwise_v2_backend.Prelude.{
  ℕ, ◌+◌, ◌≡◌, ◌↔◌, refl, sym, ap, ◌∙◌, Bool, true, false, Option, none, some, List, [], ◌∷◌, ◌++◌,
  any, All, Bool-cases, inl, inr, if◌then◌else◌,
}
use pickwise_v2_backend.Rag.{
  UserConstraints, Field, weight_limit, budget, limit_of, relaxed_to, RelaxationResult, search,
  attempt, or_else, attempts, relax_rule, relax_from, relax_and_retry,
}

-- One relaxation: the field, its value, and the value it is raised to.
abbrev pub Relaxation : Type 0
Relaxation = Field × ℕ × ℕ

abbrev pub weight_plan : Option ℕ → List Relaxation
weight_plan none = []
weight_plan (some g) = (weight_limit, g, g + 200) ∷ (weight_limit, g, g + 400) ∷ []

abbrev pub budget_plan : Option ℕ → List Relaxation
budget_plan none = []
budget_plan (some b) =
    (budget, b, b + 50_000) ∷ (budget, b, b + 100_000) ∷ (budget, b, b + 150_000) ∷ []

-- Everything that may be tried, in order: the weight first, the budget next, never the brand.
abbrev pub plan : UserConstraints → List Relaxation
plan c = weight_plan c.weight_limit ++ budget_plan c.budget

module _ {ℓ κ} {C : Type ℓ} {R : Type κ} (retrieve : Option ℕ → List C)
    (rerank : List C → UserConstraints → List R) (is_viable : R → Bool) where
  -- The results of a relaxation, and whether one of them is viable.
  abbrev pub found_by : UserConstraints → Relaxation → List R
  found_by c (f, original, value) = search retrieve rerank is_viable (relaxed_to f value c)

  abbrev pub helps : UserConstraints → Relaxation → Bool
  helps c r = any is_viable (found_by c r)

  abbrev pub outcome : UserConstraints → Relaxation → RelaxationResult R
  outcome c (f, original, value) = record {
    candidates = found_by c (f, original, value);
    relaxed_field = f;
    original_value = original;
    relaxed_value = value;
  }

  abbrev pub first_that_helps : UserConstraints → List Relaxation → Option (RelaxationResult R)
  first_that_helps c [] = none
  first_that_helps c (r ∷ rs) = if helps c r then some (outcome c r) else first_that_helps c rs

  first-append :
      (c : UserConstraints) (rs qs : List Relaxation)
      → first_that_helps c (rs ++ qs)
        ≡ or_else retrieve rerank is_viable (first_that_helps c rs) (first_that_helps c qs)
  first-append c [] qs = refl
  first-append c (r ∷ rs) qs = elim (Bool-cases (helps c r)) [
    | inl good ↦ rw good refl
    | inr bad ↦ rw bad (first-append c rs qs)
  ]

  or_else-if :
      (b : Bool) (r : RelaxationResult R) (o : Option (RelaxationResult R))
      → or_else retrieve rerank is_viable (if b then some r else none) o ≡ (if b then some r else o)
  or_else-if true r o = refl
  or_else-if false r o = refl

  -- One round that stands before others.
  or_else-step :
      (c : UserConstraints) (r : Relaxation) (o p : Option (RelaxationResult R))
      → o ≡ p
      → or_else retrieve rerank is_viable (if helps c r then some (outcome c r) else none) o
        ≡ (if helps c r then some (outcome c r) else p)
  or_else-step c r o p h =
      or_else-if (helps c r) (outcome c r) o
      ∙ ap (λ x. if helps c r then some (outcome c r) else x) h

  rule-weight :
      (c : UserConstraints) (o : Option ℕ)
      → relax_rule retrieve rerank is_viable
          (record { field = weight_limit; step = 200; max_steps = 2 })
          c
          o
        ≡ first_that_helps c (weight_plan o)
  unfolding relax_rule attempts attempt
  rule-weight c none = refl
  rule-weight c (some g) =
      or_else-step c (weight_limit, g, g + 200) _ _
        (or_else-step c (weight_limit, g, g + 400) none none refl)

  rule-budget :
      (c : UserConstraints) (o : Option ℕ)
      → relax_rule retrieve rerank is_viable
          (record { field = budget; step = 50_000; max_steps = 3 })
          c
          o
        ≡ first_that_helps c (budget_plan o)
  unfolding relax_rule attempts attempt
  rule-budget c none = refl
  rule-budget c (some b) =
      or_else-step c (budget, b, b + 50_000) _ _
        (or_else-step c (budget, b, b + 100_000) _ _
          (or_else-step c (budget, b, b + 150_000) none none refl))

  or_else-none : (o : Option (RelaxationResult R)) → or_else retrieve rerank is_viable o none ≡ o
  or_else-none none = refl
  or_else-none (some r) = refl

  -- A relaxed search gives the first relaxation of the plan that finds something viable, with what
  -- it finds: the weight limit raised by 0.2 kg and 0.4 kg, then the budget by RM 500, 1000 and
  -- 1500, each alone and only where it is set.
  pub relax_and_retry-plan :
      (c : UserConstraints)
      → relax_and_retry retrieve rerank is_viable c ≡ first_that_helps c (plan c)
  unfolding relax_and_retry relax_from limit_of
  relax_and_retry-plan c =
      rw
        (
          rule-weight c c.weight_limit,
          rule-budget c c.budget,
          or_else-none (first_that_helps c (budget_plan c.budget)),
        )
        (sym (first-append c (weight_plan c.weight_limit) (budget_plan c.budget)))

  none-first :
      (c : UserConstraints) (rs : List Relaxation)
      → (first_that_helps c rs ≡ none) ↔ All (λ r. helps c r ≡ false) rs
  none-first c [] = (λ e. tt, λ e. refl)
  none-first c (r ∷ rs) = elim (Bool-cases (helps c r)) [
    | inl good ↦ rw good (λ e. cc, λ e. cc)
    | inr bad ↦ rw bad (λ e. (refl, (none-first c rs).0 e), λ e. (none-first c rs).1 e.1)
  ]

  -- A relaxed search gives up exactly if no relaxation of the plan finds anything viable.
  pub relax_and_retry-none :
      (c : UserConstraints)
      → (relax_and_retry retrieve rerank is_viable c ≡ none) ↔ All (λ r. helps c r ≡ false) (plan c)
  relax_and_retry-none c = rw (relax_and_retry-plan c) (none-first c (plan c))
