-- ===== src/Families.antt =====
-- Laptop families: app/laptops/family_service.py. A laptop's id and a family's id are numbers, and
-- a price is a number of sen. `T` is the type of the ranked items.
pub mod Ranking
pub mod Moving
pub mod Regroup
pub mod Grouping
mod Examples
use pickwise_v2_backend.Prelude.{
  ℕ, suc, ◌+◌, ◌-◌, String, Bool, true, false, not, ◌&&◌, ◌||◌, Option, none, some, List, [], ◌∷◌,
  ◌++◌, ltb, leb, ◌==◌, length, get_elem?, set, keep, any, is_some, if◌then◌else◌, get, put, map,
  filter_some,
}

-- `prefer`: which of the incumbent and the challenger represents the family.
abbrev pub Prefer {ℓ} : Type ℓ → Type ℓ
Prefer T = T → T → T

abbrev pub Position : Type 0
Position = List (ℕ × ℕ)

pub seen_at : Option ℕ → Position → Option ℕ
seen_at none position = none
seen_at (some fid) position = get fid position

module _ {ℓ} {T : Type ℓ} where
  -- `out[seen_at] = prefer(out[seen_at], item)`.
  pub represent : Prefer T → List T → ℕ → T → Option T → List T
  represent prefer out at item none = out
  represent prefer out at item (some incumbent) = set out at (prefer incumbent item)

  pub challenge : Option (Prefer T) → List T → ℕ → T → List T
  unfolding represent
  challenge none out at item = out
  challenge (some prefer) out at item = represent prefer out at item (get_elem? out at)

  -- One round of the loop: the list and the positions of the families in it.
  pub place : Option (Prefer T) → Option ℕ → Option ℕ → T → List T × Position → List T × Position
  unfolding challenge
  place prefer none seen_at item (out, position) = (out ++ item ∷ [], position)
  place prefer (some fid) none item (out, position) =
      (out ++ item ∷ [], (fid, length out) ∷ position)
  place prefer (some fid) (some at) item (out, position) = (challenge prefer out at item, position)

  pub dedup_from : (T → Option ℕ) → Option (Prefer T) → List T × Position → List T → List T
  unfolding place seen_at
  dedup_from family_id_of prefer (out, position) [] = out
  dedup_from family_id_of prefer (out, position) (item ∷ items) =
      dedup_from family_id_of prefer
        (place prefer (family_id_of item) (seen_at (family_id_of item) position) item
          (out, position))
        items

  -- `deduplicate_by_family`.
  unfoldable pub deduplicate_by_family : (T → Option ℕ) → Option (Prefer T) → List T → List T
  unfolding dedup_from
  deduplicate_by_family family_id_of prefer items = dedup_from family_id_of prefer ([], []) items

-- `abs(a - b)`.
abbrev pub distance : ℕ → ℕ → ℕ
distance a b = a - b + (b - a)

-- `closest_to_budget`.
unfoldable pub closest_to_budget {ℓ} : {T : Type ℓ} → (T → ℕ) → ℕ → Prefer T
closest_to_budget price_of budget incumbent challenger =
    if ltb (distance (price_of challenger) budget) (distance (price_of incumbent) budget)
    then challenger
    else incumbent

-- The rows of `laptops`, as far as the family service reads and writes them.
pub record Laptop : Type 0 where
  pub product_name : String
  pub family_id : Option ℕ

abbrev pub Catalog : Type 0
Catalog = List (ℕ × Laptop)

pub record Report : Type 0 where
  pub moved : ℕ
  pub unchanged : ℕ
  pub missing : List ℕ
  pub emptied : List ℕ

abbrev pub nothing_moved : Report
nothing_moved = record { moved = 0; unchanged = 0; missing = []; emptied = [] }

-- `list(dict.fromkeys(ids))`: the first of each.
unfoldable pub distinct_from : List ℕ → List ℕ → List ℕ
distinct_from seen [] = []
distinct_from seen (i ∷ ids) = elim (any (◌==◌ i) seen) [
  | true ↦ distinct_from seen ids
  | false ↦ i ∷ distinct_from (i ∷ seen) ids
]

unfoldable pub distinct : List ℕ → List ℕ
unfolding distinct_from
distinct ids = distinct_from [] ids

pub is_missing : Catalog → ℕ → Bool
unfolding get
is_missing catalog i = not (is_some (get i catalog))

pub in_family : Option ℕ → Option ℕ → Bool
in_family none none = true
in_family none (some g) = false
in_family (some f) none = false
in_family (some f) (some g) = f == g

abbrev pub moved_to : Option ℕ → Laptop → Laptop
moved_to target laptop = record laptop { family_id = target }

-- `laptop.family_id = target_family_id`, on the row behind a key.
unfoldable pub assign : Option ℕ → Option Laptop → ℕ → Catalog → Catalog
assign target none i catalog = catalog
assign target (some laptop) i catalog = put i (moved_to target laptop) catalog

abbrev pub row_family : Option Laptop → Option ℕ
row_family none = none
row_family (some laptop) = laptop.family_id

abbrev pub family_of : Catalog → ℕ → Option ℕ
family_of catalog i = row_family (get i catalog)

pub stayed : Catalog × ℕ × ℕ → Catalog × ℕ × ℕ
stayed (catalog, moved, unchanged) = (catalog, moved, unchanged + 1)

pub went : Catalog × ℕ × ℕ → Catalog × ℕ × ℕ
went (catalog, moved, unchanged) = (catalog, moved + 1, unchanged)

-- The loop of the writes: the catalog, and how many moved and stayed.
pub move_each : Option ℕ → List ℕ → Catalog → Catalog × ℕ × ℕ
unfolding in_family assign stayed went
move_each target [] catalog = (catalog, 0, 0)
move_each target (i ∷ ids) catalog = elim (in_family (family_of catalog i) target) [
  | true ↦ stayed (move_each target ids catalog)
  | false ↦ went (move_each target ids (assign target (get i catalog) i catalog))
]

-- The families that the moved laptops come from, without the target.
pub sources : Option ℕ → List ℕ → Catalog → List ℕ
unfolding in_family
sources target ids catalog =
    keep (λ f. not (in_family (some f) target)) (filter_some (map (family_of catalog) ids))

pub is_empty_family : Catalog → ℕ → Bool
unfolding in_family
is_empty_family catalog f = not (any (λ row. in_family row.1.family_id (some f)) catalog)

-- `move_laptops`. The emptied families are listed in the order of the laptops, where the code
-- sorts them by the text of their ids.
pub report_of : Option ℕ → List ℕ → Catalog → Catalog × ℕ × ℕ → Catalog × Report
unfolding sources is_empty_family distinct
report_of target wanted catalog (c, moved, unchanged) = (
  c,
  record {
    moved = moved;
    unchanged = unchanged;
    missing = [];
    emptied = keep (is_empty_family c) (distinct (sources target wanted catalog));
  },
)

pub move_wanted : Option ℕ → List ℕ → List ℕ → Catalog → Catalog × Report
unfolding report_of move_each
move_wanted target wanted [] catalog =
    report_of target wanted catalog (move_each target wanted catalog)
move_wanted target wanted (i ∷ is) catalog = (catalog, record nothing_moved { missing = i ∷ is })

pub move_laptops : List ℕ → Option ℕ → Catalog → Catalog × Report
unfolding distinct is_missing move_wanted
move_laptops laptop_ids target catalog =
    move_wanted target (distinct laptop_ids) (keep (is_missing catalog) (distinct laptop_ids))
      catalog
