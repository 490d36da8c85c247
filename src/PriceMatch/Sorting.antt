-- ===== src/PriceMatch/Sorting.antt =====
-- What the lists of a match hold.
use pickwise_v2_backend.Prelude.{
  ℕ, ◌+◌, ◌≡◌, refl, Bool, true, false, not, ◌||◌, some, List, [], ◌∷◌, length, all, All,
  All-weaken, All-keep_test, none, Option, ==_iff, ap, arith, if◌then◌else◌,
}
use pickwise_v2_backend.PriceMatch.{
  TextTests, GuideRow, CatalogRow, Pricing, no_reading, Bucket, matched, conflict, suffix_rule,
  base_code, is_in, prices_differ, panels_differ, needs_suffix_rule, needs_base_code, same_nat,
  bucket, in_bucket, pricings, read_guides, result_of, match_guide,
}
use pickwise_v2_backend.PriceMatch.Claims.{Fits, IsById, match-Fits, and_true}

same_nat_eq : (a b : Option ℕ) → same_nat a b ≡ true → a ≡ b
same_nat_eq none none h = refl
same_nat_eq none (some b) h = cc
same_nat_eq (some a) none h = cc
same_nat_eq (some a) (some b) h = ap some ((==_iff a b).0 h)

all-All :
    (p : Option ℕ) (gs : List GuideRow)
    → all (λ r. same_nat r.price_rm p) gs ≡ true
    → All (λ g. g.price_rm ≡ p) gs
all-All p [] h = tt
all-All p (g ∷ gs) h =
    let (same, rest) = and_true (same_nat g.price_rm p) _ h in
    (same_nat_eq g.price_rm p same, all-All p gs rest)

not_eq_false : (a : Bool) → not a ≡ false → a ≡ true
not_eq_false true h = refl
not_eq_false false h = cc

matched-flags :
    (c d s b : Bool)
    → is_in matched
        (if c || d then conflict else if s then suffix_rule else if b then base_code else matched)
      ≡ true
    → (c ≡ false) × (d ≡ false) × (s ≡ false) × (b ≡ false)
matched-flags true d s b h = cc
matched-flags false true s b h = cc
matched-flags false false true b h = cc
matched-flags false false false true h = cc
matched-flags false false false false h = (refl, refl, refl, refl)

one_more :
    (b : Bucket) (p : Pricing) (w x y z : List Pricing)
    → length (if is_in matched b then p ∷ w else w)
        + length (if is_in conflict b then p ∷ x else x)
        + (length (if is_in suffix_rule b then p ∷ y else y)
            + length (if is_in base_code b then p ∷ z else z))
      ≡ length w + length x + (length y + length z) + 1
one_more matched p w x y z = omega arith
one_more conflict p w x y z = omega arith
one_more suffix_rule p w x y z = omega arith
one_more base_code p w x y z = omega arith

module _ (text : TextTests) where
  -- The guide rows agree on one price, none of them differs from the laptop in its panel, and one
  -- of them has the laptop's SKU as it is spelled or names its code.
  abbrev pub IsSure : Pricing → Type 0
  IsSure (row, gs) =
      ((price : Option ℕ) × All (λ g. g.price_rm ≡ price) gs)
      × (panels_differ text row gs ≡ false)
      × (needs_suffix_rule text row gs ≡ false)
      × (needs_base_code text row gs ≡ false)

  one_price :
      (gs : List GuideRow)
      → prices_differ gs ≡ false
      → (price : Option ℕ) × All (λ g. g.price_rm ≡ price) gs
  unfolding prices_differ
  one_price [] h = (none, tt)
  one_price (g ∷ gs) h = (g.price_rm, (refl, all-All g.price_rm gs (not_eq_false _ h)))

  bucket-IsSure : (p : Pricing) → is_in matched (bucket text p) ≡ true → IsSure p
  unfolding bucket
  bucket-IsSure (row, gs) h =
      let (one, panels, suffix, base) = matched-flags _ _ _ _ h in
      (one_price gs one, panels, suffix, base)

  -- If the ids of the catalog tell its rows apart, each row of the guide that prices a matched
  -- laptop has a price and fits it: by the SKU of a laptop that has one, and by the specs of a
  -- laptop that has none. These rows agree on one price, none differs from the laptop in its panel,
  -- and the match needs neither the suffix rule nor a base code.
  pub match_guide-matched :
      (guides : List GuideRow) (catalog : List CatalogRow)
      → All (IsById text catalog) catalog
      → All (λ p. All (Fits text p.0) p.1 × IsSure p) (match_guide text guides catalog).matched_rows
  unfolding match_guide result_of in_bucket
  match_guide-matched guides catalog d =
      All-weaken _ _ _ (λ p h. (h.0, bucket-IsSure p h.1))
        (All-keep_test _ (λ p. is_in matched (bucket text p)) _ (match-Fits text guides catalog d))

  in_bucket-length :
      (ps : List Pricing)
      → length ps
        ≡ length (in_bucket text matched ps)
          + length (in_bucket text conflict ps)
          + (length (in_bucket text suffix_rule ps) + length (in_bucket text base_code ps))
  unfolding in_bucket
  in_bucket-length [] = refl
  in_bucket-length (p ∷ ps) = omega (
    arith,
    in_bucket-length ps,
    one_more (bucket text p) p (in_bucket text matched ps) (in_bucket text conflict ps)
        (in_bucket text suffix_rule ps) (in_bucket text base_code ps),
  )

  -- The lists of the matched laptops, the conflicts, the suffix rule and the base codes have
  -- together as many entries as the guide's rows claim laptops.
  pub match_guide-length :
      (guides : List GuideRow) (catalog : List CatalogRow)
      → length (pricings text catalog (read_guides text catalog guides no_reading).claims)
        ≡ length (match_guide text guides catalog).matched_rows
          + length (match_guide text guides catalog).conflicts
          + (length (match_guide text guides catalog).suffix_rules
              + length (match_guide text guides catalog).base_codes)
  unfolding match_guide result_of
  match_guide-length guides catalog =
      in_bucket-length (pricings text catalog (read_guides text catalog guides no_reading).claims)
