-- ===== src/Families/Examples.antt =====
-- Families at concrete inputs.
use mathlib.Core.Option
use pickwise_v2_backend.Prelude.{
  String, put, ℕ, ◌+◌, ◌≡◌, refl, Option, none, some, List, [], ◌∷◌, arith, ◌==◌, any, keep, get,
  map, length, if◌then◌else◌,
}
use pickwise_v2_backend.Families.{
  Catalog, deduplicate_by_family, closest_to_budget, distinct, is_missing, moved_to, move_laptops,
  nothing_moved, Prefer, distinct_from, assign,
}
use pickwise_v2_backend.Families.Ranking.{firsts, deduplicate_by_family-firsts}
use pickwise_v2_backend.Families.Regroup.{
  regroup_unassigned, regroup_keys, regroup_members, adopt, assign_each, members_of, families_with,
}
use pickwise_v2_backend.Families.Grouping.{regroup_unassigned-assigned}
use pickwise_v2_backend.Families.Moving.{move_laptops-all, move_laptops-none}

-- An item is its family and its price.
abbrev ranked : List (Option ℕ × ℕ)
ranked = (some 1, 5000) ∷ (none, 3000) ∷ (some 2, 4000) ∷ (some 1, 3900) ∷ (none, 3000) ∷ []

abbrev by_budget : Prefer (Option ℕ × ℕ)
by_budget = closest_to_budget (λ t. t.1) 4000

dedup_runs :
    deduplicate_by_family (λ t. t.0) (some by_budget) ranked
    ≡ (some 1, 3900) ∷ (none, 3000) ∷ (some 2, 4000) ∷ (none, 3000) ∷ []
unfolding deduplicate_by_family closest_to_budget get
dedup_runs = refl

by_budget-family : (a b : Option ℕ × ℕ) → a.0 ≡ b.0 → (by_budget a b).0 ≡ a.0
unfolding closest_to_budget
by_budget-family a b e = ground arith

deduplicate_by_family-firsts_example :
    map (λ t. t.0) (deduplicate_by_family (λ t. t.0) (some by_budget) ranked)
    ≡ firsts [] (map (λ t. t.0) ranked)
deduplicate_by_family-firsts_example =
    deduplicate_by_family-firsts (λ t. t.0) (some by_budget) ranked by_budget-family

abbrev catalog : Catalog
catalog =
    (1, record { product_name = "A14"; family_id = some 7 })
    ∷ (2, record { product_name = "A16"; family_id = some 8 })
    ∷ []

all_known : keep (is_missing catalog) (distinct (1 ∷ 2 ∷ 1 ∷ [])) ≡ []
unfolding distinct is_missing get
all_known = refl

move_laptops-all_example :
    (get 2 (move_laptops (1 ∷ 2 ∷ 1 ∷ []) (some 7) catalog).0 ≡ (
      if any (λ i. i == 2) (1 ∷ 2 ∷ 1 ∷ [])
      then Option.map (moved_to (some 7)) (get 2 catalog)
      else get 2 catalog))
    × ((move_laptops (1 ∷ 2 ∷ 1 ∷ []) (some 7) catalog).1.moved
          + (move_laptops (1 ∷ 2 ∷ 1 ∷ []) (some 7) catalog).1.unchanged
        ≡ length (distinct (1 ∷ 2 ∷ 1 ∷ [])))
    × ((move_laptops (1 ∷ 2 ∷ 1 ∷ []) (some 7) catalog).1.missing ≡ [])
move_laptops-all_example = move_laptops-all (1 ∷ 2 ∷ 1 ∷ []) (some 7) catalog 2 all_known

move_laptops-none_example :
    ((move_laptops (1 ∷ 9 ∷ []) (some 7) catalog).0 ≡ catalog)
    × ((move_laptops (1 ∷ 9 ∷ []) (some 7) catalog).1
        ≡ record nothing_moved { missing = keep (is_missing catalog) (distinct (1 ∷ 9 ∷ [])) })
unfolding get
move_laptops-none_example = move_laptops-none (1 ∷ 9 ∷ []) (some 7) catalog 9 refl refl

abbrev named : Catalog
named =
    (1, record { product_name = "pro"; family_id = some 7 })
    ∷ (2, record { product_name = "pro"; family_id = some 8 })
    ∷ (3, record { product_name = "pro"; family_id = none })
    ∷ (4, record { product_name = "air"; family_id = none })
    ∷ []

abbrev name_key : String → String
name_key s = s

abbrev in_order : List String → List String
in_order keys = keys

regroup_runs :
    get 4 (regroup_unassigned name_key in_order 9 named).catalog
    ≡ some (record { product_name = "air"; family_id = some 9 })
unfolding regroup_unassigned regroup_keys regroup_members adopt assign_each members_of families_with
    distinct distinct_from assign get put
regroup_runs = refl

regroup_unassigned-assigned_example :
    get 2 (regroup_unassigned name_key in_order 9 named).catalog
    ≡ some (record { product_name = "pro"; family_id = some 8 })
unfolding get
regroup_unassigned-assigned_example =
    regroup_unassigned-assigned name_key in_order 9 2 8 named
      (record { product_name = "pro"; family_id = some 8 }) (refl, (refl, (refl, (refl, tt)))) refl
      refl
