-- ===== src/Configurator/Quoted.antt =====
-- Which kit a quote is on.
use mathlib.Core.Path.{subst}
use pickwise_v2_backend.Prelude.{
  ◌≡◌, refl, sym, ◌∙◌, ◌⊎◌, inl, inr, Bool-cases, Option-cases, String, Bool, true, false, ◌&&◌,
  not, Option, none, some, List, [], ◌∷◌, map, keep, any, is_some, str_eq, All, arith, get_text,
}
use pickwise_v2_backend.Configurator.Kits.{
  Money, Kit, Quote, allows, add_on, total, allows_all, cheaper, cheapest, kit_of, quote_total,
  quote_on, quote_from, quote,
}
use pickwise_v2_backend.Configurator.Priced.{IsPriced, first_add_on-allowed, total-some}

-- The prices are ordered.
pub record IsOrder {A : Type 0} (money : Money A) : Type 0 where
  pub is_less_irrefl : (a : A) → money.is_less a a ≡ false
  pub is_less_trans :
      (a b c : A) → money.is_less a b ≡ true → money.is_less b c ≡ true → money.is_less a c ≡ true
  pub not_less_trans :
      (a b c : A)
      → money.is_less a b ≡ false
      → money.is_less b c ≡ false
      → money.is_less a c ≡ false

and_split : (a b : Bool) → (a && b) ≡ true → (a ≡ true) × (b ≡ true)
and_split a b h = ground arith

module _ {A : Type 0} (money : Money A) where
  -- No kit is cheaper than the one that is given.
  abbrev pub IsLeast : Kit A → List (Kit A) → Type 0
  IsLeast m ks = All (λ k. money.is_less k.price_rm m.price_rm ≡ false) ks

  cheaper-All :
      (P : Kit A → Type 0) (best : Kit A) (ks : List (Kit A))
      → P best
      → All P ks
      → P (cheaper money best ks)
  unfolding cheaper
  cheaper-All P best [] p h = p
  cheaper-All P best (k ∷ ks) p h = elim (Bool-cases (money.is_less k.price_rm best.price_rm)) [
    | inl less ↦ rw less (cheaper-All P k ks h.0 h.1)
    | inr kept ↦ rw kept (cheaper-All P best ks p h.1)
  ]

  cheaper-IsLeast :
      (order : IsOrder money) (best : Kit A) (ks : List (Kit A))
      → IsLeast (cheaper money best ks) (best ∷ ks)
  unfolding cheaper
  cheaper-IsLeast order best [] = (order.is_less_irrefl best.price_rm, tt)
  cheaper-IsLeast order best (k ∷ ks) = elim (Bool-cases (money.is_less k.price_rm best.price_rm)) [
    | inl less ↦
        let later = cheaper-IsLeast order k ks in
        let m = cheaper money k ks in
        let e : cheaper money best (k ∷ ks) ≡ m = rw less refl in
        subst (λ w. IsLeast w (best ∷ k ∷ ks)) (sym e)
          (elim (Bool-cases (money.is_less best.price_rm m.price_rm)) [
            | inl under ↦
                let over = order.is_less_trans k.price_rm best.price_rm m.price_rm less under in
                let impossible : true ≡ false = sym over ∙ later.0 in cc
            | inr fine ↦ (fine, later)
          ])
    | inr kept ↦
        let later = cheaper-IsLeast order best ks in
        let m = cheaper money best ks in
        let e : cheaper money best (k ∷ ks) ≡ m = rw kept refl in
        subst (λ w. IsLeast w (best ∷ k ∷ ks)) (sym e)
          (
            later.0,
            (order.not_less_trans k.price_rm best.price_rm m.price_rm kept later.0, later.1),
          )
  ]

  allows_all-IsPriced :
      (kit : Kit A) (choices : List (String × Option String))
      → allows_all money choices kit ≡ true
      → All (IsPriced money kit) choices
  unfolding allows_all add_on allows
  allows_all-IsPriced kit [] h = tt
  allows_all-IsPriced kit ((g, v) ∷ choices) h =
      let (first, rest) = and_split (allows money kit g v) (allows_all money choices kit) h in
      (first_add_on-allowed money g v kit.options first, allows_all-IsPriced kit choices rest)

  -- A quote on a kit that allows the choices.
  quote_on-allowed :
      (chip : String) (choices : List (String × Option String)) (kit : Kit A)
      → allows_all money choices kit ≡ true
      → (q : Quote A) × (quote_on money chip choices (some kit) ≡ some q)
        × (q.quote_chip ≡ kit.chip)
        × (total money kit choices ≡ some q.total_rm)
  unfolding quote_on quote_total
  quote_on-allowed chip choices kit h = elim (Option-cases (total money kit choices)) [
    | inl unpriced ↦
        let e : is_some (total money kit choices) ≡ false = rw unpriced refl in
        let impossible : true ≡ false =
          sym (total-some money kit choices (allows_all-IsPriced kit choices h)) ∙ e in
        cc
    | inr (rm, priced) ↦ (
      record { quote_chip = kit.chip; total_rm = rm; chip_changed = not (str_eq kit.chip chip) },
      rw priced refl,
      refl,
      priced,
    )
  ]

  cheapest-cases :
      (order : IsOrder money) (ks : List (Kit A))
      → ((ks ≡ []) × (cheapest money ks ≡ none))
        ⊎ ((m : Kit A) × (cheapest money ks ≡ some m)
            × IsLeast m ks
            × ((P : Kit A → Type 0) → All P ks → P m))
  unfolding cheapest
  cheapest-cases order [] = inl (refl, refl)
  cheapest-cases order (k ∷ ks) =
      inr
        (cheaper money k ks, refl, cheaper-IsLeast order k ks, (λ P h. cheaper-All P k ks h.0 h.1))

  -- A quote for a chip of the laptop: its kit allows the choices and gives its price.
  abbrev pub IsQuote :
      List (String × Kit A) → Kit A → List (String × Option String) → Quote A → Type 0
  IsQuote kits own choices q =
      (kit : Kit A) × (allows_all money choices kit ≡ true)
      × (q.quote_chip ≡ kit.chip)
      × (total money kit choices ≡ some q.total_rm)
      × (allows_all money choices own ≡ true → kit ≡ own)
      × (allows_all money choices own ≡ false
          → IsLeast kit (keep (allows_all money choices) (map kit_of kits)))

  keep-empty : (p : Kit A → Bool) (ks : List (Kit A)) → keep p ks ≡ [] → any p ks ≡ false
  keep-empty p [] h = refl
  keep-empty p (k ∷ ks) h = elim (Bool-cases (p k)) [
    | inl taken ↦ let e : keep p (k ∷ ks) ≡ k ∷ keep p ks = rw taken refl in cc
    | inr passed ↦
        let e : keep p (k ∷ ks) ≡ keep p ks = rw passed refl in
        rw passed (keep-empty p ks (sym e ∙ h))
  ]

  keep-All_test : (p : Kit A → Bool) (ks : List (Kit A)) → All (λ k. p k ≡ true) (keep p ks)
  keep-All_test p [] = tt
  keep-All_test p (k ∷ ks) = elim (Bool-cases (p k)) [
    | inl taken ↦ rw taken (taken, keep-All_test p ks)
    | inr passed ↦ rw passed (keep-All_test p ks)
  ]

  -- If the prices are ordered, a quote for a chip of the laptop fails exactly if neither its kit nor
  -- any other allows all the choices. Otherwise it is on a kit that allows them, with the kit's price
  -- and the choices' add-ons on it: on the chip's own kit where that allows them, and else on one than
  -- which no kit that allows them is cheaper.
  pub quote-IsQuote :
      (order : IsOrder money) (kits : List (String × Kit A)) (chip : String)
      (choices : List (String × Option String)) (own : Kit A)
      → get_text chip kits ≡ some own
      → ((quote money kits chip choices ≡ none)
          × (allows_all money choices own ≡ false)
          × (any (allows_all money choices) (map kit_of kits) ≡ false))
        ⊎ ((q : Quote A) × (quote money kits chip choices ≡ some q) × IsQuote kits own choices q)
  unfolding quote quote_from
  quote-IsQuote order kits chip choices own there =
      elim (Bool-cases (allows_all money choices own)) [
        | inl fine ↦
            let (q, made, on, priced) = quote_on-allowed chip choices own fine in
            inr (
              q,
              rw (there, fine) made,
              (
                own,
                fine,
                on,
                priced,
                (λ t. refl),
                (λ f. let impossible : true ≡ false = sym fine ∙ f in cc),
              ),
            )
        | inr bad ↦
            let allowing = keep (allows_all money choices) (map kit_of kits) in
            elim (cheapest-cases order allowing) [
              | inl (empty, none_left) ↦ inl (
                rw (there, bad, none_left) refl,
                bad,
                keep-empty (allows_all money choices) (map kit_of kits) empty,
              )
              | inr (m, found, least, passes) ↦
                  let fine =
                    passes (λ k. allows_all money choices k ≡ true)
                      (keep-All_test (allows_all money choices) (map kit_of kits)) in
                  let (q, made, on, priced) = quote_on-allowed chip choices m fine in
                  inr (
                    q,
                    rw (there, bad, found) made,
                    (
                      m,
                      fine,
                      on,
                      priced,
                      (λ t. let impossible : true ≡ false = sym t ∙ bad in cc),
                      (λ f. least),
                    ),
                  )
            ]
      ]
