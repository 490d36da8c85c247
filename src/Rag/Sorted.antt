-- ===== src/Rag/Sorted.antt =====
-- The sort of the reranked candidates.
use pickwise_v2_backend.Prelude.{
  ℕ, ◌≡◌, refl, Bool, true, false, ◌&&◌, List, [], ◌∷◌, length, keep, ◌⊎◌, ◌≤◌, leb, Bool-cases,
  inl, inr, arith, if◌then◌else◌,
}
use pickwise_v2_backend.PickScore.Platform.{Platform, IsOrdered}
use pickwise_v2_backend.Rag.Rerank.{RankedCandidate, is_before, insert_ranked, sort_ranked}

flags-total :
    (x y : Bool) (m n : ℕ)
    → (if x then y && leb m n else true) ≡ false
    → (if y then x && leb n m else true) ≡ true
flags-total true true m n h = ground arith
flags-total true false m n h = refl
flags-total false y m n h = cc

and_parts : (a b : Bool) → (a && b) ≡ true → (a ≡ true) × (b ≡ true)
and_parts a b h = ground arith

module _ (py : Platform) where
  -- Each candidate may stand before the next, by the code's test.
  abbrev IsSorted : List (RankedCandidate py) → Type 0
  IsSorted [] = Unit
  IsSorted (a ∷ []) = Unit
  IsSorted (a ∷ b ∷ rest) = (is_before py a b ≡ true) × IsSorted (b ∷ rest)

  -- No score is below the next one, and of two equal scores the lower id is first.
  abbrev pub IsDescending : List (RankedCandidate py) → Type 0
  IsDescending [] = Unit
  IsDescending (a ∷ []) = Unit
  IsDescending (a ∷ b ∷ rest) =
      (py.le b.final_score a.final_score ≡ true)
      × ((py.le a.final_score b.final_score ≡ false) ⊎ (a.laptop_id ≤ b.laptop_id))
      × IsDescending (b ∷ rest)

  insert-count :
      (p : RankedCandidate py → Bool) (a : RankedCandidate py) (xs : List (RankedCandidate py))
      → length (keep p (insert_ranked py a xs)) ≡ length (keep p (a ∷ xs))
  unfolding insert_ranked
  insert-count p a [] = refl
  insert-count p a (b ∷ xs) = ground (arith, insert-count p a xs)

  pub sort-count :
      (p : RankedCandidate py → Bool) (xs : List (RankedCandidate py))
      → length (keep p (sort_ranked py xs)) ≡ length (keep p xs)
  unfolding sort_ranked
  sort-count p [] = refl
  sort-count p (a ∷ xs) = ground (arith, insert-count p a (sort_ranked py xs), sort-count p xs)

  before-total :
      (o : IsOrdered py) (a b : RankedCandidate py)
      → is_before py a b ≡ false
      → is_before py b a ≡ true
  unfolding is_before
  before-total o a b h =
      flags-total (py.le a.final_score b.final_score) (py.le b.final_score a.final_score)
        a.laptop_id b.laptop_id h

  prepend-IsSorted :
      (a b c : RankedCandidate py) (xs : List (RankedCandidate py))
      → is_before py b a ≡ true
      → is_before py b c ≡ true
      → IsSorted (insert_ranked py a (c ∷ xs))
      → IsSorted (b ∷ insert_ranked py a (c ∷ xs))
  unfolding insert_ranked
  prepend-IsSorted a b c xs ba bc = elim (Bool-cases (is_before py a c)) [
    | inl first ↦ rw first (λ s. (ba, s))
    | inr later ↦ rw later (λ s. (bc, s))
  ]

  insert-IsSorted :
      (o : IsOrdered py) (a : RankedCandidate py) (xs : List (RankedCandidate py))
      → IsSorted xs
      → IsSorted (insert_ranked py a xs)
  unfolding insert_ranked
  insert-IsSorted o a [] h = tt
  insert-IsSorted o a (b ∷ []) h = elim (Bool-cases (is_before py a b)) [
    | inl first ↦ rw first (first, tt)
    | inr later ↦ rw later (before-total o a b later, tt)
  ]
  insert-IsSorted o a (b ∷ c ∷ xs) h = elim (Bool-cases (is_before py a b)) [
    | inl first ↦ rw first (first, h)
    | inr later ↦ rw later (
        prepend-IsSorted a b c xs (before-total o a b later) h.0 (insert-IsSorted o a (c ∷ xs) h.1))
  ]

  pub sort-IsSorted :
      (o : IsOrdered py) (xs : List (RankedCandidate py)) → IsSorted (sort_ranked py xs)
  unfolding sort_ranked
  sort-IsSorted o [] = tt
  sort-IsSorted o (a ∷ xs) = insert-IsSorted o a (sort_ranked py xs) (sort-IsSorted o xs)

  before_pair :
      (o : IsOrdered py) (a b : RankedCandidate py)
      → is_before py a b ≡ true
      → (py.le b.final_score a.final_score ≡ true)
        × ((py.le a.final_score b.final_score ≡ false) ⊎ (a.laptop_id ≤ b.laptop_id))
  unfolding is_before
  before_pair o a b h = elim (Bool-cases (py.le a.final_score b.final_score)) [
    | inl low ↦
        let both : (py.le b.final_score a.final_score && leb a.laptop_id b.laptop_id) ≡ true =
          rw low at h in
        let (q, r) =
          and_parts (py.le b.final_score a.final_score) (leb a.laptop_id b.laptop_id) both in
        (q, inr (ground (arith, r)))
    | inr high ↦ (o.total _ _ high, inl high)
  ]

  pub sorted-IsDescending :
      (o : IsOrdered py) (xs : List (RankedCandidate py)) → IsSorted xs → IsDescending xs
  sorted-IsDescending o [] h = tt
  sorted-IsDescending o (a ∷ []) h = tt
  sorted-IsDescending o (a ∷ b ∷ rest) h =
      let (q, r) = before_pair o a b h.0 in (q, r, sorted-IsDescending o (b ∷ rest) h.1)
