-- ===== src/PriceGuide/Examples.antt =====
-- A guide applied to three laptops.
use pickwise_v2_backend.Prelude.{
  ℕ, ◌≡◌, refl, none, some, List, [], ◌∷◌, ◌++◌, arith, get, put, length, false, true, All, ◌↔◌,
}
use pickwise_v2_backend.PriceGuide.{
  manual, is_guide, History, Store, latest_source, apply_guide, use_guide_price, not_selectable,
  updated, selectable, guide,
}
use pickwise_v2_backend.PriceGuide.Apply.{
  price_in, WrittenBy, apply_guide_protects, apply_guide-history,
}
use pickwise_v2_backend.PriceGuide.Select.{
  awaits, use_guide_price-prices, use_guide_price-updated_iff,
}
use pickwise_v2_backend.PriceGuide.Rerun.{apply_guide_again}

-- The second laptop's price was typed in by an admin.
abbrev shop : Store
shop = record {
  laptops =
      (1, record { price_rm = some 0; price_checked_at = none })
      ∷ (2, record { price_rm = some 500_000; price_checked_at = some 3 })
      ∷ (3, record { price_rm = some 410_000; price_checked_at = some 3 })
      ∷ [];
  history =
      record { laptop_id = 2; price_rm = 500_000; source = some manual; price_guide_id = none }
      ∷ [];
}

abbrev offers : List (ℕ × ℕ)
offers = (1, 399_900) ∷ (2, 479_900) ∷ (3, 410_000) ∷ []

apply_counts :
    (apply_guide 9 5 7 offers shop).1 ≡ record { filled = 1; confirmed = 1; differing = 1 }
unfolding apply_guide get put
apply_counts = refl

admin_price : is_guide (latest_source 2 shop.history) ≡ false
unfolding is_guide latest_source
admin_price = refl

apply_guide_protects_example :
    price_in (get 2 (apply_guide 9 5 7 offers shop).0.laptops) ≡ some 500_000
unfolding get
apply_guide_protects_example =
    apply_guide_protects 9 5 7 2 500_000 offers shop (omega arith) admin_price refl

apply_guide-history_example :
    (added : List History) × ((apply_guide 9 5 7 offers shop).0.history ≡ added ++ shop.history)
    × (length added ≡ (apply_guide 9 5 7 offers shop).1.filled)
    × WrittenBy 9 added
apply_guide-history_example = apply_guide-history 9 5 7 offers shop

apply_guide_again_example :
    ((apply_guide 9 5 8 offers (apply_guide 9 5 7 offers shop).0).0
      ≡ (apply_guide 9 5 7 offers shop).0)
    × ((apply_guide 9 5 8 offers (apply_guide 9 5 7 offers shop).0).1.filled ≡ 0)
    × ((apply_guide 9 5 8 offers (apply_guide 9 5 7 offers shop).0).1.confirmed ≡ 0)
apply_guide_again_example =
    apply_guide_again 9 5 7 8 offers shop (refl, (refl, (refl, tt)))
      (((refl, refl), ((refl, refl), tt)), (((refl, refl), tt), (tt, tt))) (omega arith)

-- An id that is on neither list refuses the whole selection.
unlisted_refused : use_guide_price 9 7 [] offers (2 ∷ 3 ∷ []) shop ≡ not_selectable (3 ∷ [])
unfolding use_guide_price get
unlisted_refused = refl

-- The second laptop waits for an admin, who takes the guide's price.
abbrev sold : Store
sold = record {
  laptops =
      (1, record { price_rm = some 0; price_checked_at = none })
      ∷ (2, record { price_rm = some 479_900; price_checked_at = some 7 })
      ∷ (3, record { price_rm = some 410_000; price_checked_at = some 3 })
      ∷ [];
  history =
      record { laptop_id = 2; price_rm = 479_900; source = some guide; price_guide_id = some 9 }
      ∷ record { laptop_id = 2; price_rm = 500_000; source = some manual; price_guide_id = none }
      ∷ [];
}

selection_sold : use_guide_price 9 7 [] offers (2 ∷ []) shop ≡ updated sold
unfolding use_guide_price get put
selection_sold = refl

two_listed : get 2 (selectable [] offers shop) ≡ some 479_900
unfolding selectable get
two_listed = refl

use_guide_price-prices_example : price_in (get 2 sold.laptops) ≡ some 479_900
unfolding get
use_guide_price-prices_example =
    use_guide_price-prices 9 7 2 479_900 [] offers (2 ∷ []) shop sold selection_sold refl two_listed
      refl

use_guide_price-updated_iff_example :
    ((s' : Store) × (use_guide_price 9 7 [] offers (2 ∷ 3 ∷ []) shop ≡ updated s'))
    ↔ All (λ i. awaits [] offers shop i ≡ true) (2 ∷ 3 ∷ [])
use_guide_price-updated_iff_example = use_guide_price-updated_iff 9 7 [] offers (2 ∷ 3 ∷ []) shop
