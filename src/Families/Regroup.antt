-- ===== src/Families/Regroup.antt =====
-- Families from names: `resolve_family_id` and `regroup_unassigned` of app/laptops/family_service.py.
-- The key of a name is the text function of app/laptops/family_key.py and comes in as `family_key`.
-- `sorted_keys` is the order in which the groups are worked through, each once. The database gives
-- a new family the next number.
use pickwise_v2_backend.Prelude.{
  ℕ, ◌+◌, String, Bool, true, not, ◌&&◌, Option, none, some, List, [], ◌∷◌, ◌++◌, ◌==◌, str_eq,
  length, keep, map, filter_some, get, is_some,
}
use pickwise_v2_backend.Families.{Catalog, distinct, assign}

-- A row of the new families: its number and its key.
abbrev pub NewFamily : Type 0
NewFamily = ℕ × String

pub record Regrouped : Type 0 where
  pub catalog : Catalog
  pub families : List NewFamily
  pub next_id : ℕ
  pub families_created : ℕ
  pub laptops_assigned : ℕ
  pub left_null : ℕ

abbrev pub before_groups : ℕ → Catalog → Regrouped
before_groups next_id catalog = record {
  catalog = catalog;
  families = [];
  next_id = next_id;
  families_created = 0;
  laptops_assigned = 0;
  left_null = 0;
}

-- The one element of a set, if it has one only.
abbrev pub only : List ℕ → Option ℕ
only (f ∷ []) = some f
only _ = none

abbrev pub is_other_row : Option ℕ → ℕ → Bool
is_other_row none i = true
is_other_row (some excluded) i = not (excluded == i)

-- The writes of a group.
unfoldable pub assign_each : ℕ → List ℕ → Catalog → Catalog
assign_each target [] catalog = catalog
assign_each target (i ∷ ids) catalog =
    assign_each target ids (assign (some target) (get i catalog) i catalog)

unfoldable pub adopt : ℕ → List ℕ → Regrouped → Regrouped
unfolding assign_each
adopt target members r = record r {
  catalog = assign_each target members r.catalog;
  laptops_assigned = r.laptops_assigned + length members;
}

module _ (family_key : String → String) where
  -- The families of the rows that share a key, without one row.
  unfoldable pub families_with : Option ℕ → String → Catalog → List ℕ
  families_with excluded key catalog = distinct (
      filter_some (
        map (λ row. row.1.family_id)
          (keep (λ row. is_other_row excluded row.0 && str_eq (family_key row.1.product_name) key)
            catalog)))

  -- `resolve_family_id`.
  unfoldable pub resolve_family_id : String → Option ℕ → Catalog → Option ℕ
  unfolding families_with
  resolve_family_id product_name excluded catalog =
      only (families_with excluded (family_key product_name) catalog)

  -- `groups[key]`: the laptops with no family that share a key.
  unfoldable pub members_of : String → Catalog → List ℕ
  members_of key catalog =
      map (λ row. row.0)
        (keep (λ row. not (is_some row.1.family_id) && str_eq (family_key row.1.product_name) key)
          catalog)

  -- One group, with the families that share its key.
  unfoldable pub regroup_members : String → List ℕ → List ℕ → Regrouped → Regrouped
  unfolding adopt
  regroup_members key members [] r = adopt r.next_id members (record r {
    families = r.families ++ (r.next_id, key) ∷ [];
    next_id = r.next_id + 1;
    families_created = r.families_created + 1;
  })
  regroup_members key members (f ∷ []) r = adopt f members r
  regroup_members key members (f ∷ g ∷ fs) r = record r { left_null = r.left_null + length members }

  unfoldable pub regroup_keys : Catalog → List String → Regrouped → Regrouped
  unfolding regroup_members members_of families_with
  regroup_keys before [] r = r
  regroup_keys before (key ∷ keys) r =
      regroup_keys before keys
        (regroup_members key (members_of key before) (families_with none key before) r)

  abbrev pub unassigned_keys : Catalog → List String
  unassigned_keys catalog =
      map (λ row. family_key row.1.product_name)
        (keep (λ row. not (is_some row.1.family_id)) catalog)

  -- `regroup_unassigned`.
  unfoldable pub regroup_unassigned : (List String → List String) → ℕ → Catalog → Regrouped
  unfolding regroup_keys
  regroup_unassigned sorted_keys next_id catalog =
      regroup_keys catalog (sorted_keys (unassigned_keys catalog)) (before_groups next_id catalog)
