-- ===== src/Configurator/Priced.antt =====
-- When a kit prices a choice, and a list of choices.
use mathlib.Core.Path.{subst}
use pickwise_v2_backend.Prelude.{
  ◌≡◌, refl, sym, ap, ◌∙◌, inl, inr, Bool-cases, String, true, ◌&&◌, not, Option, none, some, List,
  [], ◌∷◌, any, str_eq, eq_iff, is_some, All,
}
use pickwise_v2_backend.Configurator.Kits.{
  Money, KitOption, Kit, has_option, first_add_on, add_on, add_both, sum_add_ons, total_from, total,
}
use pickwise_v2_backend.Configurator.Service.{first_included}

module _ {A : Type 0} (money : Money A) where
  pub first_add_on-allowed :
      (g : String) (v : Option String) (os : List (KitOption A))
      → any (λ o. has_option money g v o && not o.is_blocked) os ≡ true
      → is_some (first_add_on money g v os) ≡ true
  unfolding first_add_on
  first_add_on-allowed g v [] h = cc
  first_add_on-allowed g v (o ∷ os) h = elim (Bool-cases (has_option money g v o)) [
    | inl here ↦ rw here refl
    | inr past ↦
        let e : any (λ p. has_option money g v p && not p.is_blocked) (o ∷ os)
            ≡ any (λ p. has_option money g v p && not p.is_blocked) os =
          rw past refl in
        rw past (first_add_on-allowed g v os (sym e ∙ h))
  ]

  first_add_on-later :
      (g : String) (v : Option String) (o : KitOption A) (os : List (KitOption A))
      → is_some (first_add_on money g v os) ≡ true
      → is_some (first_add_on money g v (o ∷ os)) ≡ true
  unfolding first_add_on
  first_add_on-later g v o os h = elim (Bool-cases (has_option money g v o)) [
    | inl here ↦ rw here refl
    | inr past ↦ rw past h
  ]

  pub first_add_on-included :
      (g : String) (os : List (KitOption A))
      → is_some (first_included money g os) ≡ true
      → is_some (first_add_on money g (first_included money g os) os) ≡ true
  unfolding first_included first_add_on has_option
  first_add_on-included g [] h = cc
  first_add_on-included g (o ∷ os) h = elim (Bool-cases (str_eq o.group g)) [
    | inl same ↦ elim (Bool-cases o.is_included) [
      | inl with_it ↦ rw (same, with_it) (rw ((eq_iff o.value o.value).1 refl) refl)
      | inr without ↦
          let later = first_included money g os in
          let e : first_included money g (o ∷ os) ≡ later = rw (same, without) refl in
          subst (λ v. is_some (first_add_on money g v (o ∷ os)) ≡ true) (sym e)
            (first_add_on-later g later o os (first_add_on-included g os (ap is_some (sym e) ∙ h)))
    ]
    | inr other ↦
        let e : first_included money g (o ∷ os) ≡ first_included money g os = rw other refl in
        subst (λ v. is_some (first_add_on money g v (o ∷ os)) ≡ true) (sym e)
          (first_add_on-later g (first_included money g os) o os
            (first_add_on-included g os (ap is_some (sym e) ∙ h)))
  ]

  add_both-some :
      (a b : Option A) → is_some a ≡ true → is_some b ≡ true → is_some (add_both money a b) ≡ true
  unfolding add_both
  add_both-some none b h k = cc
  add_both-some (some a) none h k = cc
  add_both-some (some a) (some b) h k = refl

  total_from-some :
      (price : A) (o : Option A) → is_some o ≡ true → is_some (total_from money price o) ≡ true
  unfolding total_from
  total_from-some price none h = cc
  total_from-some price (some a) h = refl

  -- A choice of the kit's group that the kit prices.
  abbrev pub IsPriced : Kit A → String × Option String → Type 0
  IsPriced kit (g, v) = is_some (add_on money kit g v) ≡ true

  sum_add_ons-some :
      (kit : Kit A) (choices : List (String × Option String)) (so_far : Option A)
      → is_some so_far ≡ true
      → All (IsPriced kit) choices
      → is_some (sum_add_ons money kit so_far choices) ≡ true
  unfolding sum_add_ons
  sum_add_ons-some kit [] so_far h k = h
  sum_add_ons-some kit ((g, v) ∷ choices) so_far h k =
      sum_add_ons-some kit choices (add_both money so_far (add_on money kit g v))
        (add_both-some so_far (add_on money kit g v) h k.0) k.1

  pub total-some :
      (kit : Kit A) (choices : List (String × Option String))
      → All (IsPriced kit) choices
      → is_some (total money kit choices) ≡ true
  unfolding total
  total-some kit choices k =
      total_from-some kit.price_rm (sum_add_ons money kit (some money.zero_rm) choices)
        (sum_add_ons-some kit choices (some money.zero_rm) refl k)
