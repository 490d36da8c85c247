-- ===== src/PriceMatch/Claims.antt =====
-- What holds of every claim that the loop over the guide's rows makes.
use pickwise_v2_backend.Prelude.{
  ℕ, ◌≡◌, refl, sym, ◌∙◌, Bool, true, false, not, ◌&&◌, ◌⊎◌, inl, inr, some, List, [], ◌∷◌, ◌==◌,
  keep, is_some, All, All-append, All-keep, All-weaken, All-keep_test, Bool-cases, eq_iff,
  Option-cases, ==_iff,
}
use mathlib.Core.Path.{subst}
use pickwise_v2_backend.PriceMatch.{
  TextTests, GuideRow, CatalogRow, Claims, Reading, no_reading, claim, claim_each, read_priced,
  row_by_id, has_sku, or_blank, sku_hits, fits_specs, or_base, named_base, spec_candidates,
  read_guide, read_guides, pricings,
}

pub and_true : (a b : Bool) → (a && b) ≡ true → (a ≡ true) × (b ≡ true)
and_true true b h = (refl, h)
and_true false b h = cc

not_eq_true : (a : Bool) → not a ≡ true → a ≡ false
not_eq_true true h = cc
not_eq_true false h = refl

some-inj : (c d : CatalogRow) → some c ≡ some d → c ≡ d
some-inj c d h = cc

-- A property of every claimed id with every guide row that claims it.
abbrev pub Hold : (ℕ → GuideRow → Type 0) → Claims → Type 0
Hold P claims = All (λ e. All (P e.0) e.1) claims

module _ (P : ℕ → GuideRow → Type 0) where
  claim-Hold :
      (g : GuideRow) (i : ℕ) (claims : Claims) → P i g → Hold P claims → Hold P (claim g i claims)
  unfolding claim
  claim-Hold g i [] h k = ((h, tt), tt)
  claim-Hold g i ((j, gs) ∷ rest) h k = elim (Bool-cases (j == i)) [
    | inl same ↦ rw same (
      All-append (P j) gs (g ∷ []) k.0 (subst (λ x. P x g) (sym ((==_iff j i).0 same)) h, tt),
      k.1,
    )
    | inr other ↦ rw other (k.0, claim-Hold g i rest h k.1)
  ]

  claim_each-Hold :
      (g : GuideRow) (cs : List CatalogRow) (claims : Claims)
      → All (λ c. P c.id g) cs
      → Hold P claims
      → Hold P (claim_each g cs claims)
  unfolding claim_each
  claim_each-Hold g [] claims h k = k
  claim_each-Hold g (c ∷ cs) claims h k =
      claim_each-Hold g cs (claim g c.id claims) h.1 (claim-Hold g c.id claims h.0 k)

  pub read_priced-Hold :
      (g : GuideRow) (hits candidates : List CatalogRow) (r : Reading)
      → All (λ c. P c.id g) hits
      → All (λ c. P c.id g) candidates
      → Hold P r.claims
      → Hold P (read_priced g hits candidates r).claims
  unfolding read_priced
  read_priced-Hold g (hit ∷ hits) candidates r h k c = claim_each-Hold g (hit ∷ hits) r.claims h c
  read_priced-Hold g [] [] r h k c = c
  read_priced-Hold g [] (x ∷ []) r h k c = claim_each-Hold g (x ∷ []) r.claims k c
  read_priced-Hold g [] (x ∷ y ∷ xs) r h k c = c

module _ (text : TextTests) where
  -- The guide row has a price, and it is about this laptop: by the SKU of a laptop that has one,
  -- or by the specs of a laptop that has none.
  abbrev pub Fits : CatalogRow → GuideRow → Type 0
  Fits row g =
      (is_some g.price_rm ≡ true)
      × (((has_sku row ≡ true)
            × (text.sku_key (or_blank row.manufacturer_sku) ≡ text.sku_key g.sku))
          ⊎ ((has_sku row ≡ false) × (fits_specs text g row ≡ true)))

  -- What a claim says of the row behind its id.
  abbrev Claimed : List CatalogRow → ℕ → GuideRow → Type 0
  Claimed catalog i g = (row : CatalogRow) → row_by_id i catalog ≡ some row → Fits row g

  -- The row is the one behind its id.
  abbrev pub IsById : List CatalogRow → CatalogRow → Type 0
  IsById catalog c = row_by_id c.id catalog ≡ some c

  Fits-Claimed :
      (catalog : List CatalogRow) (g : GuideRow) (c : CatalogRow)
      → IsById catalog c
      → Fits c g
      → Claimed catalog c.id g
  Fits-Claimed catalog g c d h row e = subst (λ x. Fits x g) (some-inj c row (sym d ∙ e)) h

  hits-Fits :
      (catalog : List CatalogRow) (g : GuideRow)
      → is_some g.price_rm ≡ true
      → All (IsById catalog) catalog
      → All (λ c. Claimed catalog c.id g) (sku_hits text g catalog)
  unfolding sku_hits
  hits-Fits catalog g p d =
      All-weaken _ _ _
        (λ c h.
          let (owned, same) = and_true (has_sku c) _ h.1 in
          Fits-Claimed catalog g c h.0 (p, inl (owned, (eq_iff _ _).0 same)))
        (All-keep_test (IsById catalog) _ catalog d)

  or_base-All :
      (P : CatalogRow → Type 0) (g : GuideRow) (named cs : List CatalogRow)
      → All P cs
      → All P named
      → All P (or_base text g named cs)
  unfolding or_base named_base
  or_base-All P g (n ∷ named) cs h k = k
  or_base-All P g [] cs h k = elim (Option-cases (text.base_of g.model_code)) [
    | inl no_base ↦ rw (no_base, named_base) tt
    | inr (code, e) ↦ rw (e, named_base) (All-keep P (λ c. text.names c code) cs h)
  ]

  candidates-Fits :
      (catalog : List CatalogRow) (g : GuideRow)
      → is_some g.price_rm ≡ true
      → All (IsById catalog) catalog
      → All
          (λ c. Claimed catalog c.id g)
          (spec_candidates text g (keep (λ c. not (has_sku c)) catalog))
  unfolding spec_candidates
  candidates-Fits catalog g p d =
      let no_sku = keep (λ c. not (has_sku c)) catalog in
      let named = keep (λ c. text.names c g.model_code) no_sku in
      let Alone : CatalogRow → Type 0 = λ c. IsById catalog c × (not (has_sku c) ≡ true) in
      let alone : All Alone no_sku = All-keep_test (IsById catalog) _ catalog d in
      let fitting : All (λ c. Claimed catalog c.id g)
          (keep (fits_specs text g) (or_base text g named no_sku)) =
        All-weaken _ _ _
          (λ c h. Fits-Claimed catalog g c h.0.0 (p, inr (not_eq_true (has_sku c) h.0.1, h.1)))
          (All-keep_test Alone (fits_specs text g) _
            (or_base-All Alone g named no_sku alone (All-keep Alone _ no_sku alone))) in
      elim (Bool-cases (is_some (text.cpu_part g.cpu) && is_some g.ram_gb && is_some g.ssd_gb)) [
        | inl complete ↦ rw complete fitting
        | inr short ↦ rw short tt
      ]

  read_guide-Hold :
      (catalog : List CatalogRow) (g : GuideRow) (r : Reading)
      → All (IsById catalog) catalog
      → Hold (Claimed catalog) r.claims
      → Hold (Claimed catalog) (read_guide text catalog g r).claims
  unfolding read_guide
  read_guide-Hold catalog g r d h = elim (Bool-cases (is_some g.price_rm)) [
    | inl priced ↦ rw priced (
        read_priced-Hold (Claimed catalog) g (sku_hits text g catalog)
          (spec_candidates text g (keep (λ c. not (has_sku c)) catalog)) r
          (hits-Fits catalog g priced d) (candidates-Fits catalog g priced d) h)
    | inr unpriced ↦ rw unpriced h
  ]

  read_guides-Hold :
      (catalog : List CatalogRow) (gs : List GuideRow) (r : Reading)
      → All (IsById catalog) catalog
      → Hold (Claimed catalog) r.claims
      → Hold (Claimed catalog) (read_guides text catalog gs r).claims
  unfolding read_guides
  read_guides-Hold catalog [] r d h = h
  read_guides-Hold catalog (g ∷ gs) r d h =
      read_guides-Hold catalog gs (read_guide text catalog g r) d (read_guide-Hold catalog g r d h)

  -- Every claim comes to a laptop that each of its guide rows fits.
  pub pricings-Fits :
      (catalog : List CatalogRow) (claims : Claims)
      → Hold (Claimed catalog) claims
      → All (λ p. All (Fits p.0) p.1) (pricings text catalog claims)
  unfolding pricings
  pricings-Fits catalog [] h = tt
  pricings-Fits catalog ((i, gs) ∷ claims) h = elim (Option-cases (row_by_id i catalog)) [
    | inl none_there ↦ rw none_there (pricings-Fits catalog claims h.1)
    | inr (row, e) ↦ rw e (
      All-weaken (Claimed catalog i) (Fits row) gs (λ g k. k row e) h.0,
      pricings-Fits catalog claims h.1,
    )
  ]

  pub match-Fits :
      (guides : List GuideRow) (catalog : List CatalogRow)
      → All (IsById catalog) catalog
      → All
          (λ p. All (Fits p.0) p.1)
          (pricings text catalog (read_guides text catalog guides no_reading).claims)
  match-Fits guides catalog d =
      pricings-Fits catalog _ (read_guides-Hold catalog guides no_reading d tt)
