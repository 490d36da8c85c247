-- ===== src/PriceMatch/Examples.antt =====
-- A small guide and a small catalog, with plain tests on text.
use pickwise_v2_backend.Prelude.{◌≡◌, refl, true, none, some, List, [], ◌∷◌, str_eq, length, All}
use pickwise_v2_backend.PriceMatch.{
  TextTests, GuideRow, CatalogRow, match_guide, pricings, read_guides, row_by_id, read_guide,
  read_priced, sku_hits, spec_candidates, or_base, named_base, fits_specs, claim_each, claim,
  in_bucket, bucket, needs_suffix_rule, panels_differ, needs_base_code, prices_differ, is_uncovered,
  result_of,
}
use pickwise_v2_backend.PriceMatch.Claims.{Fits}
use pickwise_v2_backend.PriceMatch.Sorting.{IsSure, match_guide-matched}

abbrev plain : TextTests
plain = record {
  sku_key = λ s. s;
  spelled = λ s. s;
  names = λ c code. str_eq c.model_code code;
  panel_kind = λ p. p;
  cpu_part = λ c. c;
  base_of = λ code. none;
  letter_fits = λ g c. true;
}

abbrev guides : List GuideRow
guides =
    record {
      sku = "S1-W";
      model_code = "S1";
      price_rm = some 399900;
      cpu = none;
      ram_gb = none;
      ssd_gb = none;
      panel = some "oled";
    }
    ∷ record {
      sku = "X9-W";
      model_code = "X9";
      price_rm = some 599900;
      cpu = some "ultra:125h";
      ram_gb = some 16;
      ssd_gb = some 512;
      panel = none;
    }
    ∷ record {
      sku = "Z0-W";
      model_code = "Z0";
      price_rm = none;
      cpu = none;
      ram_gb = none;
      ssd_gb = none;
      panel = none;
    }
    ∷ []

abbrev catalog : List CatalogRow
catalog =
    record {
      id = 1;
      model_code = "S1";
      product_name = "Slim 1";
      processor_model = none;
      ram_gb = none;
      ssd_gb = none;
      manufacturer_sku = some "S1-W";
      panel = some "oled";
    }
    ∷ record {
      id = 2;
      model_code = "X9";
      product_name = "Extra 9";
      processor_model = some "ultra:125h";
      ram_gb = some 16;
      ssd_gb = some 512;
      manufacturer_sku = none;
      panel = none;
    }
    ∷ record {
      id = 3;
      model_code = "Q7";
      product_name = "Quiet 7";
      processor_model = none;
      ram_gb = some 8;
      ssd_gb = some 256;
      manufacturer_sku = none;
      panel = none;
    }
    ∷ []

matched_runs : length (match_guide plain guides catalog).matched_rows ≡ 2
unfolding match_guide result_of read_guides read_guide read_priced sku_hits spec_candidates or_base
    named_base fits_specs claim_each claim in_bucket bucket pricings row_by_id needs_suffix_rule
    panels_differ needs_base_code prices_differ is_uncovered
matched_runs = refl

match_guide-matched_example :
    All
      (λ p. All (Fits plain p.0) p.1 × IsSure plain p)
      (match_guide plain guides catalog).matched_rows
unfolding row_by_id
match_guide-matched_example = match_guide-matched plain guides catalog (refl, (refl, (refl, tt)))
