-- ===== src/PriceMatch.antt =====
-- Which catalog rows a product guide prices: app/laptops/price_guide.py. The tests on text are
-- regular expressions and come in as a record of functions: `sku_key`, `spelled` (strip and upper case),
-- `names` (_names), `panel_kind`, `cpu_part`, `base_of` (the group of _BASE) and `letter_fits`
-- (_letter_fits). A price is a number of sen.
pub mod Claims
pub mod Sorting
mod Examples
use pickwise_v2_backend.Prelude.{
  ℕ, String, Bool, true, false, not, ◌&&◌, ◌||◌, Option, none, some, List, [], ◌∷◌, ◌++◌, ◌==◌,
  str_eq, keep, any, all, map, is_some, filter_some, if◌then◌else◌,
}

pub record GuideRow : Type 0 where
  pub sku : String
  pub model_code : String
  pub price_rm : Option ℕ
  pub cpu : Option String
  pub ram_gb : Option ℕ
  pub ssd_gb : Option ℕ
  pub panel : Option String

pub record CatalogRow : Type 0 where
  pub id : ℕ
  pub model_code : String
  pub product_name : String
  pub processor_model : Option String
  pub ram_gb : Option ℕ
  pub ssd_gb : Option ℕ
  pub manufacturer_sku : Option String
  pub panel : Option String

-- `row.manufacturer_sku or ""`, and whether it is true.
abbrev pub or_blank : Option String → String
or_blank none = ""
or_blank (some s) = s

abbrev pub has_sku : CatalogRow → Bool
has_sku row = not (str_eq (or_blank row.manufacturer_sku) "")

abbrev pub same_nat : Option ℕ → Option ℕ → Bool
same_nat none none = true
same_nat (some a) (some b) = a == b
same_nat _ _ = false

abbrev pub same_text : Option String → Option String → Bool
same_text none none = true
same_text (some a) (some b) = str_eq a b
same_text _ _ = false

abbrev pub Pricing : Type 0
Pricing = CatalogRow × List GuideRow

abbrev pub Claims : Type 0
Claims = List (ℕ × List GuideRow)

-- `claims.setdefault(id, []).append(guide)`.
unfoldable pub claim : GuideRow → ℕ → Claims → Claims
claim guide i [] = (i, guide ∷ []) ∷ []
claim guide i ((j, guides) ∷ rest) =
    if j == i then (j, guides ++ guide ∷ []) ∷ rest else (j, guides) ∷ claim guide i rest

unfoldable pub claim_each : GuideRow → List CatalogRow → Claims → Claims
unfolding claim
claim_each guide [] claims = claims
claim_each guide (hit ∷ hits) claims = claim_each guide hits (claim guide hit.id claims)

-- What the loop over the guide's rows builds up.
pub record Reading : Type 0 where
  pub claims : Claims
  pub in_doubt : List ℕ
  pub ambiguous : List (GuideRow × List CatalogRow)
  pub unmatched_guide : List GuideRow
  pub unpriced : List GuideRow

abbrev pub no_reading : Reading
no_reading = record {
  claims = [];
  in_doubt = [];
  ambiguous = [];
  unmatched_guide = [];
  unpriced = [];
}

-- `rows_by_id`: of two rows with one id, the later.
abbrev pub or_row : Option CatalogRow → Option CatalogRow → Option CatalogRow
or_row none other = other
or_row (some row) other = some row

unfoldable pub row_by_id : ℕ → List CatalogRow → Option CatalogRow
row_by_id i [] = none
row_by_id i (c ∷ cs) = or_row (row_by_id i cs) (if c.id == i then some c else none)

-- `len({r.price_rm for r in rows}) > 1`.
unfoldable pub prices_differ : List GuideRow → Bool
prices_differ [] = false
prices_differ (g ∷ gs) = not (all (λ r. same_nat r.price_rm g.price_rm) gs)

pub data Bucket : Type 0 where
  matched conflict suffix_rule base_code : Bucket

abbrev pub is_in : Bucket → Bucket → Bool
is_in matched matched = true
is_in conflict conflict = true
is_in suffix_rule suffix_rule = true
is_in base_code base_code = true
is_in _ _ = false

pub record MatchResult : Type 0 where
  pub matched_rows : List Pricing
  pub ambiguous : List (GuideRow × List CatalogRow)
  pub conflicts : List Pricing
  pub suffix_rules : List Pricing
  pub base_codes : List Pricing
  pub unmatched_guide : List GuideRow
  pub unpriced : List GuideRow
  pub uncovered : List CatalogRow

-- The body of the loop for a guide row with a price, once the laptops with its SKU and the
-- candidates by its specs are known.
unfoldable pub read_priced : GuideRow → List CatalogRow → List CatalogRow → Reading → Reading
unfolding claim_each
read_priced guide (hit ∷ hits) candidates r = record r {
  claims = claim_each guide (hit ∷ hits) r.claims;
}
read_priced guide [] [] r = record r { unmatched_guide = r.unmatched_guide ++ guide ∷ [] }
read_priced guide [] (c ∷ []) r = record r { claims = claim_each guide (c ∷ []) r.claims }
read_priced guide [] (c ∷ d ∷ cs) r = record r {
  ambiguous = r.ambiguous ++ (guide, c ∷ d ∷ cs) ∷ [];
  in_doubt = r.in_doubt ++ map (λ x. x.id) (c ∷ d ∷ cs);
}

-- The tests on text.
pub record TextTests : Type 0 where
  pub sku_key : String → String
  pub spelled : String → String
  pub names : CatalogRow → String → Bool
  pub panel_kind : Option String → Option String
  pub cpu_part : Option String → Option String
  pub base_of : String → Option String
  pub letter_fits : GuideRow → CatalogRow → Bool

module _ (text : TextTests) where
  -- `_needs_suffix_rule`.
  unfoldable pub needs_suffix_rule : CatalogRow → List GuideRow → Bool
  needs_suffix_rule row guides =
      let stored = text.spelled (or_blank row.manufacturer_sku) in
      not (str_eq stored "") && all (λ g. not (str_eq (text.spelled g.sku) stored)) guides

  -- `panel_kind(g.panel) not in (None, stored)`.
  abbrev pub is_other_kind : Option String → Option String → Bool
  is_other_kind none stored = false
  is_other_kind (some kind) stored = not (same_text (some kind) stored)

  unfoldable pub panels_differ : CatalogRow → List GuideRow → Bool
  panels_differ row guides =
      is_some (text.panel_kind row.panel)
      && any (λ g. is_other_kind (text.panel_kind g.panel) (text.panel_kind row.panel)) guides

  -- `_needs_base_code`.
  unfoldable pub needs_base_code : CatalogRow → List GuideRow → Bool
  needs_base_code row guides =
      not (has_sku row) && not (any (λ g. text.names row g.model_code) guides)

  -- `by_sku.get(text.sku_key(guide.sku))`.
  unfoldable pub sku_hits : GuideRow → List CatalogRow → List CatalogRow
  sku_hits guide catalog =
      keep
        (λ c.
          has_sku c && str_eq (text.sku_key (or_blank c.manufacturer_sku)) (text.sku_key guide.sku))
        catalog

  -- The rows that name the base code of the guide's row.
  unfoldable pub named_base : Option String → List CatalogRow → List CatalogRow
  named_base none catalog = []
  named_base (some code) catalog = keep (λ c. text.names c code) catalog

  unfoldable pub or_base : GuideRow → List CatalogRow → List CatalogRow → List CatalogRow
  unfolding named_base
  or_base guide [] catalog = named_base (text.base_of guide.model_code) catalog
  or_base guide (c ∷ cs) catalog = c ∷ cs

  unfoldable pub fits_specs : GuideRow → CatalogRow → Bool
  fits_specs guide c =
      same_text (text.cpu_part c.processor_model) (text.cpu_part guide.cpu)
      && same_nat c.ram_gb guide.ram_gb
      && same_nat c.ssd_gb guide.ssd_gb
      && text.letter_fits guide c

  -- `_spec_candidates`.
  unfoldable pub spec_candidates : GuideRow → List CatalogRow → List CatalogRow
  unfolding or_base fits_specs
  spec_candidates guide catalog =
      if is_some (text.cpu_part guide.cpu) && is_some guide.ram_gb && is_some guide.ssd_gb
      then keep (fits_specs guide)
          (or_base guide (keep (λ c. text.names c guide.model_code) catalog) catalog)
      else []

  -- The body of the loop over the guide's rows.
  unfoldable pub read_guide : List CatalogRow → GuideRow → Reading → Reading
  unfolding read_priced sku_hits spec_candidates
  read_guide catalog guide r =
      if is_some guide.price_rm
      then read_priced guide (sku_hits guide catalog)
          (spec_candidates guide (keep (λ c. not (has_sku c)) catalog)) r
      else record r { unpriced = r.unpriced ++ guide ∷ [] }

  unfoldable pub read_guides : List CatalogRow → List GuideRow → Reading → Reading
  unfolding read_guide
  read_guides catalog [] r = r
  read_guides catalog (g ∷ gs) r = read_guides catalog gs (read_guide catalog g r)

  -- The body of the loop over the claims: the list that a claim goes to.
  unfoldable pub bucket : Pricing → Bucket
  unfolding needs_suffix_rule panels_differ needs_base_code prices_differ
  bucket (row, guides) =
      if prices_differ guides || panels_differ row guides
      then conflict
      else if needs_suffix_rule row guides
      then suffix_rule
      else if needs_base_code row guides
      then base_code
      else matched

  -- `rows_by_id[laptop_id]`, with the claims on it.
  abbrev pub with_row : Option CatalogRow → List GuideRow → Option Pricing
  with_row none guides = none
  with_row (some row) guides = some (row, guides)

  unfoldable pub pricings : List CatalogRow → Claims → List Pricing
  unfolding row_by_id
  pricings catalog claims = filter_some (map (λ e. with_row (row_by_id e.0 catalog) e.1) claims)

  unfoldable pub in_bucket : Bucket → List Pricing → List Pricing
  unfolding bucket
  in_bucket b ps = keep (λ p. is_in b (bucket p)) ps

  unfoldable pub is_uncovered : Reading → CatalogRow → Bool
  is_uncovered r c = not (any (λ e. e.0 == c.id) r.claims) && not (any (◌==◌ c.id) r.in_doubt)

  unfoldable pub result_of : List CatalogRow → Reading → MatchResult
  unfolding pricings in_bucket is_uncovered
  result_of catalog r =
      let ps = pricings catalog r.claims in
      record {
        matched_rows = in_bucket matched ps;
        ambiguous = r.ambiguous;
        conflicts = in_bucket conflict ps;
        suffix_rules = in_bucket suffix_rule ps;
        base_codes = in_bucket base_code ps;
        unmatched_guide = r.unmatched_guide;
        unpriced = r.unpriced;
        uncovered = keep (is_uncovered r) catalog;
      }

  -- `match`.
  unfoldable pub match_guide : List GuideRow → List CatalogRow → MatchResult
  unfolding read_guides result_of
  match_guide guides catalog = result_of catalog (read_guides catalog guides no_reading)
