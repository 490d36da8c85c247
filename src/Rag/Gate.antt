-- ===== src/Rag/Gate.antt =====
-- What the gate asks the user about.
use pickwise_v2_backend.Prelude.{
  ℕ, ◌≡◌, ◌↔◌, refl, String, Bool, true, false, ◌&&◌, List, [], ◌∷◌, ◌==◌, take, All, Bool-cases,
  inl, inr, arith, if◌then◌else◌,
}
use pickwise_v2_backend.Rag.{
  budget_bottleneck, weight_bottleneck, general, hits_in, hits, is_budget_reason, is_weight_reason,
  bottleneck_of, detect_bottleneck,
}

flags-general :
    (z l : Bool)
    → (if z then general else if l then budget_bottleneck else weight_bottleneck) ≡ general
    → z ≡ true
flags-general true l h = refl
flags-general false true h = cc
flags-general false false h = cc

both-zero : (b w : ℕ) → (b == 0 && w == 0) ≡ true → (b ≡ 0) × (w ≡ 0)
both-zero b w h = ground arith

module _ {ℓ} {R : Type ℓ} (is_within : String → String → Bool) (reasons : R → List String)
    (is_below : R → Bool) where
  hits_in-zero :
      (p : String → Bool) (rs : List String)
      → (hits_in is_within reasons is_below p rs ≡ 0) ↔ All (λ r. p r ≡ false) rs
  unfolding hits_in
  hits_in-zero p [] = (λ e. tt, λ e. refl)
  hits_in-zero p (r ∷ rs) = elim (Bool-cases (p r)) [
    | inl named ↦ rw named ((λ e. absurd (omega (arith, e))), λ e. cc)
    | inr other ↦ rw other ((λ e. (refl, (hits_in-zero p rs).0 e)), λ e. (hits_in-zero p rs).1 e.1)
  ]

  hits-zero :
      (p : String → Bool) (cs : List R)
      → (hits is_within reasons is_below p cs ≡ 0)
        ↔ All (λ c. All (λ r. p r ≡ false) (reasons c)) cs
  unfolding hits
  hits-zero p [] = (λ e. tt, λ e. refl)
  hits-zero p (c ∷ cs) = (
    λ e. ((hits_in-zero p (reasons c)).0 (omega arith), (hits-zero p cs).0 (omega arith)),
    λ e.
        let here = (hits_in-zero p (reasons c)).1 e.0 in
        let there = (hits-zero p cs).1 e.1 in omega arith,
  )

  -- The gate asks about the search in general exactly if none of the first ten candidates was
  -- penalised for a reason that names the budget or the weight.
  pub detect_bottleneck-general :
      (cs : List R)
      → (detect_bottleneck is_within reasons is_below cs ≡ general) ↔ (
          All
            (λ c. All (λ r. is_budget_reason is_within reasons is_below r ≡ false) (reasons c))
            (take 10 cs)
          × All
              (λ c. All (λ r. is_weight_reason is_within reasons is_below r ≡ false) (reasons c))
              (take 10 cs))
  unfolding detect_bottleneck bottleneck_of
  detect_bottleneck-general cs = (
    λ e.
        let (b, w) = both-zero _ _ (flags-general _ _ e) in
        ((hits-zero _ (take 10 cs)).0 b, (hits-zero _ (take 10 cs)).0 w),
    λ e.
        rw
          (
            (hits-zero (is_budget_reason is_within reasons is_below) (take 10 cs)).1 e.0,
            (hits-zero (is_weight_reason is_within reasons is_below) (take 10 cs)).1 e.1,
          )
          refl,
  )
