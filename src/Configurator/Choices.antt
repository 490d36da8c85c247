-- ===== src/Configurator/Choices.antt =====
-- How the chip and the choice of each group are made from what is asked for.
use mathlib.Core.Path.{subst}
use pickwise_v2_backend.Prelude.{
  any, ◌&&◌, false, eq_iff, ◌≡◌, refl, sym, ap, ◌∙◌, inl, inr, Bool-cases, String, ◌⊎◌, str_eq,
  true, false, Option, none, some, List, [], ◌∷◌, map, keep, is_some, All, get_text,
}
use pickwise_v2_backend.Configurator.Kits.{KitOption, Money, Kit, allows}
use pickwise_v2_backend.Configurator.Service.{
  first_included, asked, or_blank, included, has_group, choice_of, choices_in, chip_or, asked_text,
}

-- The chip that is asked for with a text that is not empty, else the laptop's own.
abbrev pub IsChip : String → Option String → String → Type 0
IsChip own none chosen = chosen ≡ own
IsChip own (some chip) chosen =
    ((str_eq chip "" ≡ true) × (chosen ≡ own)) ⊎ ((str_eq chip "" ≡ false) × (chosen ≡ chip))

pub chip_or-IsChip :
    (own : String) (chip : Option String) → IsChip own chip (chip_or own (asked_text chip))
chip_or-IsChip own none = refl
chip_or-IsChip own (some chip) = elim (Bool-cases (str_eq chip "")) [
  | inl blank ↦ inl (blank, rw blank refl)
  | inr filled ↦ inr (filled, rw filled refl)
]

-- A value of an option of the group that is included, or nothing where there is no such option.
abbrev pub IsIncluded : {A : Type 0} → List (KitOption A) → String → Option String → Type 0
IsIncluded options g none = any (λ o. str_eq o.group g && o.is_included) options ≡ false
IsIncluded options g (some value) =
    any (λ o. (str_eq o.group g && o.is_included) && str_eq o.value value) options ≡ true

skip-IsIncluded :
    {A : Type 0} (o : KitOption A) (options : List (KitOption A)) (g : String) (v : Option String)
    → (str_eq o.group g && o.is_included) ≡ false
    → IsIncluded options g v
    → IsIncluded (o ∷ options) g v
skip-IsIncluded o options g none other h = rw (other, h) refl
skip-IsIncluded o options g (some value) other h = rw (other, h) refl

first_included-IsIncluded :
    {A : Type 0} (money : Money A) (g : String) (options : List (KitOption A))
    → IsIncluded options g (first_included money g options)
unfolding first_included
first_included-IsIncluded money g [] = refl
first_included-IsIncluded money g (o ∷ options) =
    elim (Bool-cases (str_eq o.group g && o.is_included)) [
      | inl here ↦ rw here (rw (here, (eq_iff o.value o.value).1 refl) refl)
      | inr past ↦ rw past (
          skip-IsIncluded o options g (first_included money g options) past
            (first_included-IsIncluded money g options))
    ]

module _ {A : Type 0} (money : Money A) where
  module _ (standard : List (String × String)) (kit : Kit A) (given : List (String × String)) where
    -- How a choice is made.
    abbrev pub IsMade : String × Option String → Type 0
    IsMade (g, v) = v ≡ choice_of money standard kit g (asked given g)

    -- What is asked for is allowed.
    abbrev pub IsAllowed : String × Option String → Type 0
    IsAllowed (g, v) = is_some (asked given g) ≡ true → allows money kit g v ≡ true

    pub choices_in-IsMade : (gs : List String) → All IsMade (choices_in money standard kit given gs)
    unfolding choices_in
    choices_in-IsMade [] = tt
    choices_in-IsMade (g ∷ gs) = elim (Bool-cases (has_group money kit g)) [
      | inl there ↦ rw there (refl, choices_in-IsMade gs)
      | inr absent ↦ rw absent (choices_in-IsMade gs)
    ]

  module _ (standard : List (String × String)) (kit : Kit A) where
    -- The standard value where the kit allows it, else the one that the kit comes with.
    abbrev pub IsStandard : String → Option String → Type 0
    IsStandard g v =
        ((allows money kit g (some (or_blank (get_text g standard))) ≡ true)
          × (v ≡ some (or_blank (get_text g standard))))
        ⊎ ((allows money kit g (some (or_blank (get_text g standard))) ≡ false)
            × IsIncluded kit.options g v)

    -- A value that is asked for with a text that is not empty, which the kit allows.
    abbrev pub IsChosen : String → Option String → Option String → Type 0
    IsChosen g none v = IsStandard g v
    IsChosen g (some value) v =
        ((str_eq value "" ≡ true) × IsStandard g v)
        ⊎ ((str_eq value "" ≡ false) × (v ≡ some value) × (allows money kit g v ≡ true))

    standard-IsStandard : (g : String) → IsStandard g (choice_of money standard kit g none)
    unfolding choice_of included
    standard-IsStandard g =
        elim (Bool-cases (allows money kit g (some (or_blank (get_text g standard))))) [
          | inl own ↦ inl (own, rw own refl)
          | inr other ↦ inr (other, rw other (first_included-IsIncluded money g kit.options))
        ]

    value-IsChosen :
        (g : String) (o v : Option String)
        → v ≡ choice_of money standard kit g (asked_text o)
        → (is_some (asked_text o) ≡ true → allows money kit g v ≡ true)
        → IsChosen g o v
    unfolding choice_of
    value-IsChosen g none v made h = subst (IsStandard g) (sym made) (standard-IsStandard g)
    value-IsChosen g (some value) v made h = elim (Bool-cases (str_eq value "")) [
      | inl blank ↦
          let e : v ≡ choice_of money standard kit g none = made ∙ rw blank refl in
          inl (blank, subst (IsStandard g) (sym e) (standard-IsStandard g))
      | inr filled ↦
          let e : v ≡ some value = made ∙ rw filled refl in inr (filled, e, h (rw filled refl))
    ]

    abbrev pub RowIsChosen : List (String × String) → String × Option String → Type 0
    RowIsChosen given (g, v) = IsChosen g (get_text g given) v

    pub rows-IsChosen :
        (given : List (String × String)) (rows : List (String × Option String))
        → All (IsMade standard kit given) rows
        → All (IsAllowed standard kit given) rows
        → All (RowIsChosen given) rows
    rows-IsChosen given [] m a = tt
    rows-IsChosen given ((g, v) ∷ rows) m a =
        (value-IsChosen g (get_text g given) v m.0 a.0, rows-IsChosen given rows m.1 a.1)

    pub choices_in-groups :
        (given : List (String × String)) (gs : List String)
        → map (λ (row : String × Option String). row.0) (choices_in money standard kit given gs)
          ≡ keep (λ g. any (λ o. str_eq o.group g) kit.options) gs
    unfolding choices_in
    choices_in-groups given [] = refl
    choices_in-groups given (g ∷ gs) = elim (Bool-cases (has_group money kit g)) [
      | inl there ↦ rw there (ap (λ rest. g ∷ rest) (choices_in-groups given gs))
      | inr absent ↦ rw absent (choices_in-groups given gs)
    ]
