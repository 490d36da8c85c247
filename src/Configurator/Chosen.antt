-- ===== src/Configurator/Chosen.antt =====
-- What a configuration that passes the check has chosen, and that it has a price.
use mathlib.Core.Path.{subst}
use pickwise_v2_backend.Prelude.{
  any, str_eq, ◌≡◌, refl, sym, ap, ◌∙◌, inl, inr, Bool-cases, Option-cases, String, Bool, true,
  false, Option, none, some, List, [], ◌∷◌, map, keep, is_some, All, get_text, All-get_text,
}
use pickwise_v2_backend.Configurator.Kits.{
  Money, Kit, allows, add_on, Problem, problem_of, not_allowed,
}
use pickwise_v2_backend.Configurator.Service.{
  groups, Configurable, Checked, accepted, chip_not_offered, refused, asked, or_blank, included,
  has_group, choice_of, choices_in, choices_for, check_problems, check_kit, chip_or, asked_text,
  checked_choices, total_kit, total_of,
}
use pickwise_v2_backend.Configurator.Priced.{
  first_add_on-allowed, first_add_on-included, IsPriced, total-some,
}
use pickwise_v2_backend.Configurator.Choices.{
  IsAllowed, choices_in-IsMade, IsChip, chip_or-IsChip, RowIsChosen, rows-IsChosen,
  choices_in-groups,
}

abbrev chip_of : Checked → String
chip_of (accepted chip choices) = chip
chip_of (chip_not_offered chip offered) = chip
chip_of (refused problems) = ""

abbrev choices_of : Checked → List (String × Option String)
choices_of (accepted chip choices) = choices
choices_of (chip_not_offered chip offered) = []
choices_of (refused problems) = []

module _ {A : Type 0} (money : Money A) where
  -- Each group of the kit that may be left out comes with an option.
  abbrev pub IsWhole : Kit A → Type 0
  IsWhole kit =
      All (λ group. has_group money kit group ≡ true → is_some (included money kit group) ≡ true)
        groups

  no_problems :
      (kits : List (String × Kit A)) (kit : Kit A) (p : String × Option String → Bool)
      (choices : List (String × Option String))
      → not_allowed money kits kit (keep p choices) ≡ []
      → All (λ ch. p ch ≡ true → allows money kit ch.0 ch.1 ≡ true) choices
  unfolding not_allowed
  no_problems kits kit p [] h = tt
  no_problems kits kit p ((g, v) ∷ choices) h = elim (Bool-cases (p (g, v))) [
    | inl taken ↦ elim (Bool-cases (allows money kit g v)) [
      | inl fine ↦
          let e : not_allowed money kits kit (keep p ((g, v) ∷ choices))
              ≡ not_allowed money kits kit (keep p choices) =
            rw (taken, fine) refl in
          ((λ t. fine), no_problems kits kit p choices (sym e ∙ h))
      | inr bad ↦
          let e : not_allowed money kits kit (keep p ((g, v) ∷ choices))
              ≡ problem_of money kits kit (g, v) ∷ not_allowed money kits kit (keep p choices) =
            rw (taken, bad) refl in
          cc
    ]
    | inr passed ↦
        let e : not_allowed money kits kit (keep p ((g, v) ∷ choices))
            ≡ not_allowed money kits kit (keep p choices) =
          rw passed refl in
        (
          (λ t. let impossible : true ≡ false = sym t ∙ passed in cc),
          no_problems kits kit p choices (sym e ∙ h),
        )
  ]

  module _ (standard : List (String × String)) (kit : Kit A) (given : List (String × String)) where
    choice_of-IsPriced :
        (g : String) (o : Option String)
        → (is_some o ≡ true → allows money kit g (choice_of money standard kit g o) ≡ true)
        → is_some (included money kit g) ≡ true
        → IsPriced money kit (g, choice_of money standard kit g o)
    unfolding choice_of add_on included allows
    choice_of-IsPriced g (some v) h k = first_add_on-allowed money g (some v) kit.options (h refl)
    choice_of-IsPriced g none h k =
        elim (Bool-cases (allows money kit g (some (or_blank (get_text g standard))))) [
          | inl own ↦
              rw own (
                first_add_on-allowed money g (some (or_blank (get_text g standard))) kit.options
                  own)
          | inr other ↦ rw other (first_add_on-included money g kit.options k)
        ]

    choices_in-IsPriced :
        (gs : List String)
        → All (λ g. has_group money kit g ≡ true → is_some (included money kit g) ≡ true) gs
        → All (IsAllowed money standard kit given) (choices_in money standard kit given gs)
        → All (IsPriced money kit) (choices_in money standard kit given gs)
    unfolding choices_in
    choices_in-IsPriced [] w h = tt
    choices_in-IsPriced (g ∷ gs) w h = elim (Bool-cases (has_group money kit g)) [
      | inl there ↦
          let choice : String × Option String =
            (g, choice_of money standard kit g (asked given g)) in
          let e : choices_in money standard kit given (g ∷ gs)
              ≡ choice ∷ choices_in money standard kit given gs =
            rw there refl in
          let h' : IsAllowed money standard kit given choice
              × All (IsAllowed money standard kit given) (choices_in money standard kit given gs) =
            subst (All (IsAllowed money standard kit given)) e h in
          rw there
            (choice_of-IsPriced g (asked given g) h'.0 (w.0 there), choices_in-IsPriced gs w.1 h'.1)
      | inr absent ↦
          let e : choices_in money standard kit given (g ∷ gs)
              ≡ choices_in money standard kit given gs =
            rw absent refl in
          rw absent
            (choices_in-IsPriced gs w.1 (subst (All (IsAllowed money standard kit given)) e h))
    ]

    check_problems-accepted :
        (chip chosen : String) (choices result : List (String × Option String)) (ps : List Problem)
        → check_problems money chip choices ps ≡ accepted chosen result
        → (ps ≡ []) × (chip ≡ chosen) × (choices ≡ result)
    unfolding check_problems
    check_problems-accepted chip chosen choices result [] h = (refl, ap chip_of h, ap choices_of h)
    check_problems-accepted chip chosen choices result (p ∷ ps) h = cc

  -- An accepted configuration: the chip, its kit, the groups, how each choice is made, and that there
  -- is a price.
  abbrev pub IsAccepted :
      Configurable A
      → Option String
      → List (String × String)
      → String
      → List (String × Option String)
      → Type 0
  IsAccepted c chip given chosen choices =
      IsChip c.chip chip chosen
      × ((kit : Kit A) × (get_text chosen c.kits ≡ some kit)
          × (map (λ (row : String × Option String). row.0) choices
              ≡ keep (λ g. any (λ o. str_eq o.group g) kit.options) groups)
          × All (RowIsChosen money c.standard kit given) choices
          × (is_some (total_of money c chosen choices) ≡ true))

  -- An accepted configuration of a laptop whose kits come with an option for each of their groups is
  -- on the chip that was asked for, or on the laptop's own where none was, never on another. It has a
  -- choice for each group of the chip's kit and no other. A group of the kit that was asked for has
  -- the value that was asked for, and the kit allows it. Any other group of the kit has the standard
  -- value where the kit allows that, and one that the kit comes with otherwise. An empty text asks
  -- for nothing. The configuration has a price.
  pub checked_choices-IsAccepted :
      (c : Configurable A) (chip : Option String) (given : List (String × String)) (chosen : String)
      (choices : List (String × Option String))
      → All (λ row. IsWhole row.1) c.kits
      → checked_choices money c chip given ≡ accepted chosen choices
      → IsAccepted c chip given chosen choices
  unfolding checked_choices check_kit choices_for total_of total_kit
  checked_choices-IsAccepted c chip given chosen choices whole h =
      let own = chip_or c.chip (asked_text chip) in
      elim (Option-cases (get_text own c.kits)) [
        | inl missing ↦
            let e : checked_choices money c chip given
                ≡ chip_not_offered own (map (λ (row : String × Kit A). row.0) c.kits) =
              rw missing refl in
            cc
        | inr (kit, there) ↦
            let made = choices_for money c kit given in
            let problems =
              not_allowed money c.kits kit
                (keep (λ (g : String × Option String). is_some (asked given g.0)) made) in
            let e : checked_choices money c chip given ≡ check_problems money own made problems =
              rw there refl in
            let (solved, same_chip, same_choices) =
              check_problems-accepted c.standard kit given own chosen made choices problems
                (sym e ∙ h) in
            let allowed = no_problems c.kits kit (λ g. is_some (asked given g.0)) made solved in
            let priced = total-some money kit made (
              choices_in-IsPriced c.standard kit given groups
                (All-get_text (λ row. IsWhole row.1) own c.kits kit whole there) allowed) in
            subst (λ x. IsAccepted c chip given x choices) same_chip
              (subst (λ y. IsAccepted c chip given own y) same_choices
                (
                  chip_or-IsChip c.chip chip,
                  (
                    kit,
                    there,
                    choices_in-groups money c.standard kit given groups,
                    rows-IsChosen money c.standard kit given made
                        (choices_in-IsMade money c.standard kit given groups) allowed,
                    rw there priced,
                  ),
                ))
      ]
