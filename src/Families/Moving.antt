-- ===== src/Families/Moving.antt =====
-- `move_laptops` moves all of the selection or none of it.
use mathlib.Core.Option
use pickwise_v2_backend.Prelude.{
  ℕ, ◌+◌, ◌≡◌, refl, sym, ap, ◌∙◌, Bool, true, false, ◌||◌, Option, none, some, List, [], ◌∷◌,
  arith, ◌==◌, ==_iff, length, any, keep, if◌then◌else◌, get, get-put, Bool-cases, inl, inr,
}
use pickwise_v2_backend.Families.{
  Laptop, Catalog, nothing_moved, distinct, is_missing, distinct_from, row_family, moved_to,
  in_family, assign, family_of, stayed, went, move_each, move_laptops,
}

in_family-eq : (o target : Option ℕ) → in_family o target ≡ true → o ≡ target
unfolding in_family
in_family-eq none none h = refl
in_family-eq none (some g) h = cc
in_family-eq (some f) none h = cc
in_family-eq (some f) (some g) h = ap some ((==_iff f g).0 h)

assign-get :
    (target : Option ℕ) (o : Option Laptop) (i j : ℕ) (catalog : Catalog)
    → get i catalog ≡ o
    → get j (assign target o i catalog)
      ≡ (if i == j then Option.map (moved_to target) o else get j catalog)
unfolding assign
assign-get target none i j catalog e = ground arith
assign-get target (some l) i j catalog e = rw (get-put i j (moved_to target l) catalog, e)

row-same :
    (target : Option ℕ) (o : Option Laptop)
    → row_family o ≡ target
    → Option.map (moved_to target) o ≡ o
row-same target none h = refl
row-same target (some l) h = rw (sym h)

map-twice :
    (target : Option ℕ) (o : Option Laptop)
    → Option.map (moved_to target) (Option.map (moved_to target) o) ≡ Option.map (moved_to target) o
map-twice target none = refl
map-twice target (some l) = refl

-- What the loop of the writes leaves behind each key.
move_each-get :
    (target : Option ℕ) (ids : List ℕ) (j : ℕ) (catalog : Catalog)
    → get j (move_each target ids catalog).0 ≡ (
        if any (λ i. i == j) ids
        then Option.map (moved_to target) (get j catalog)
        else get j catalog)
unfolding move_each stayed went
move_each-get target [] j catalog = refl
move_each-get target (i ∷ ids) j catalog =
    elim (Bool-cases (in_family (family_of catalog i) target)) [
      | inl same ↦
          rw (same, move_each)
            (ground (
              arith,
              move_each-get target ids j catalog,
              row-same target (get i catalog) (in_family-eq _ target same),
            ))
      | inr other ↦
          rw (other, move_each)
            (ground (
              arith,
              move_each-get target ids j (assign target (get i catalog) i catalog),
              assign-get target (get i catalog) i j catalog refl,
              map-twice target (get i catalog),
            ))
    ]

move_each-count :
    (target : Option ℕ) (ids : List ℕ) (catalog : Catalog)
    → (move_each target ids catalog).1 + (move_each target ids catalog).2 ≡ length ids
unfolding move_each stayed went
move_each-count target [] catalog = refl
move_each-count target (i ∷ ids) catalog =
    elim (Bool-cases (in_family (family_of catalog i) target)) [
      | inl same ↦ rw (same, move_each) (omega (arith, move_each-count target ids catalog))
      | inr other ↦
          rw (other, move_each)
            (omega (arith, move_each-count target ids (assign target (get i catalog) i catalog)))
    ]

any-flip : (i j : ℕ) (seen : List ℕ) → (i == j) ≡ true → any (◌==◌ i) seen ≡ any (λ s. s == j) seen
any-flip i j [] h = refl
any-flip i j (s ∷ seen) h = ground (arith, any-flip i j seen h)

distinct_from-any :
    (ids seen : List ℕ) (j : ℕ)
    → (any (λ i. i == j) seen || any (λ i. i == j) (distinct_from seen ids))
      ≡ (any (λ i. i == j) seen || any (λ i. i == j) ids)
unfolding distinct_from
distinct_from-any [] seen j = refl
distinct_from-any (i ∷ ids) seen j = elim (Bool-cases (any (◌==◌ i) seen)) [
  | inl old ↦
      rw (old, distinct_from) (ground (arith, distinct_from-any ids seen j, any-flip i j seen))
  | inr new ↦ rw (new, distinct_from) (ground (arith, distinct_from-any ids (i ∷ seen) j))
]

keep-any :
    (p : ℕ → Bool) (i : ℕ) (ids : List ℕ)
    → p i ≡ true
    → any (λ s. s == i) ids ≡ true
    → (m : ℕ) × (ms : List ℕ) × (keep p ids ≡ m ∷ ms)
keep-any p i [] h k = cc
keep-any p i (s ∷ ids) h k = elim (Bool-cases (p s)) [
  | inl yes_p ↦ (s, keep p ids, rw yes_p)
  | inr no_p ↦
      let other : (s == i) ≡ false = ground arith in
      let (m, ms, e) = keep-any p i ids h (rw other at k) in (m, ms, rw no_p e)
]

module _ (laptop_ids : List ℕ) (target : Option ℕ) (catalog : Catalog) where
  -- If every id is known, each selected laptop has the target family afterwards and every other row
  -- is as it was, the moved and the unchanged laptops are the selected ones, each counted once, and
  -- no id is reported as missing.
  pub move_laptops-all :
      (j : ℕ)
      → keep (is_missing catalog) (distinct laptop_ids) ≡ []
      → (get j (move_laptops laptop_ids target catalog).0 ≡ (
          if any (λ i. i == j) laptop_ids
          then Option.map (moved_to target) (get j catalog)
          else get j catalog))
        × ((move_laptops laptop_ids target catalog).1.moved
              + (move_laptops laptop_ids target catalog).1.unchanged
            ≡ length (distinct laptop_ids))
        × ((move_laptops laptop_ids target catalog).1.missing ≡ [])
  unfolding move_laptops
  move_laptops-all j known = rw known (
    rw (sym (distinct_from-any laptop_ids [] j))
        (move_each-get target (distinct laptop_ids) j catalog),
    move_each-count target (distinct laptop_ids) catalog,
    refl,
  )

  -- If an id is not in the catalog, the catalog stays as it was, nothing is counted as moved, and
  -- the report lists the unknown ids of the selection.
  pub move_laptops-none :
      (i : ℕ)
      → any (λ s. s == i) laptop_ids ≡ true
      → get i catalog ≡ none
      → ((move_laptops laptop_ids target catalog).0 ≡ catalog)
        × ((move_laptops laptop_ids target catalog).1
            ≡ record nothing_moved { missing = keep (is_missing catalog) (distinct laptop_ids) })
  unfolding move_laptops
  move_laptops-none i wanted gone =
      let unknown : is_missing catalog i ≡ true = unfold is_missing in rw gone in
      let (m, ms, e) =
        keep-any (is_missing catalog) i (distinct laptop_ids) unknown
          (distinct_from-any laptop_ids [] i ∙ wanted) in
      rw e (refl, refl)
