-- ===== src/Configurator/Service.antt =====
-- The choices of a configured laptop: app/laptops/options_service.py. The laptop with its kits comes
-- in as `Configurable`; no option has the empty text as its value.
use pickwise_v2_backend.Prelude.{
  String, Bool, ◌&&◌, Option, none, some, List, [], ◌∷◌, map, keep, any, str_eq, is_some, get_text,
  if◌then◌else◌,
}
use pickwise_v2_backend.Configurator.Kits.{
  Money, KitOption, Kit, allows, total, Problem, not_allowed,
}

abbrev pub groups : List String
groups = "memory" ∷ "storage" ∷ "adapter" ∷ "display" ∷ "keyboard" ∷ []

pub record Configurable (A : Type 0) : Type 0 where
  pub kits : List (String × Kit A)
  pub chip : String  -- of the standard configuration
  pub standard : List (String × String)

pub data Checked : Type 0 where
  accepted : String → List (String × Option String) → Checked
  chip_not_offered : String → List String → Checked
  refused : List Problem → Checked

-- A text that Python takes as true.
abbrev pub asked_text : Option String → Option String
asked_text none = none
asked_text (some s) = if str_eq s "" then none else some s

-- `given.get(group)`, where it is true.
abbrev pub asked : List (String × String) → String → Option String
asked given group = asked_text (get_text group given)

abbrev pub chip_or : String → Option String → String
chip_or own none = own
chip_or own (some chip) = chip

abbrev pub or_blank : Option String → String
or_blank none = ""
or_blank (some s) = s

module _ {A : Type 0} (money : Money A) where
  unfoldable pub first_included : String → List (KitOption A) → Option String
  first_included group [] = none
  first_included group (o ∷ os) =
      if str_eq o.group group && o.is_included then some o.value else first_included group os

  -- `_included`.
  unfoldable pub included : Kit A → String → Option String
  unfolding first_included
  included kit group = first_included group kit.options

  unfoldable pub has_group : Kit A → String → Bool
  has_group kit group = any (λ o. str_eq o.group group) kit.options

  unfoldable pub choice_of : List (String × String) → Kit A → String → Option String → Option String
  unfolding allows included
  choice_of standard kit group (some value) = some value
  choice_of standard kit group none =
      let own = some (or_blank (get_text group standard)) in
      if allows money kit group own then own else included kit group

  unfoldable pub choices_in :
      List (String × String)
      → Kit A
      → List (String × String)
      → List String
      → List (String × Option String)
  unfolding has_group choice_of
  choices_in standard kit given [] = []
  choices_in standard kit given (group ∷ gs) =
      let rest = choices_in standard kit given gs in
      if has_group kit group
      then (group, choice_of standard kit group (asked given group)) ∷ rest
      else rest

  -- `choices_for`, on the kit of the chip.
  unfoldable pub choices_for :
      Configurable A → Kit A → List (String × String) → List (String × Option String)
  unfolding choices_in
  choices_for c kit given = choices_in c.standard kit given groups

  unfoldable pub check_problems : String → List (String × Option String) → List Problem → Checked
  check_problems chip choices [] = accepted chip choices
  check_problems chip choices (p ∷ ps) = refused (p ∷ ps)

  unfoldable pub check_kit :
      Configurable A → String → Option (Kit A) → List (String × String) → Checked
  unfolding check_problems choices_for not_allowed
  check_kit c chip none given = chip_not_offered chip (map (λ (row : String × Kit A). row.0) c.kits)
  check_kit c chip (some kit) given =
      let choices = choices_for c kit given in
      check_problems chip choices (
        not_allowed money c.kits kit
          (keep (λ (g : String × Option String). is_some (asked given g.0)) choices))

  -- `checked_choices`.
  unfoldable pub checked_choices : Configurable A → Option String → List (String × String) → Checked
  unfolding check_kit
  checked_choices c chip given =
      let chosen = chip_or c.chip (asked_text chip) in
      check_kit c chosen (get_text chosen c.kits) given

  unfoldable pub total_kit : Option (Kit A) → List (String × Option String) → Option A
  unfolding total
  total_kit none choices = none
  total_kit (some kit) choices = total money kit choices

  -- `total_of`.
  unfoldable pub total_of : Configurable A → String → List (String × Option String) → Option A
  unfolding total_kit
  total_of c chip choices = total_kit (get_text chip c.kits) choices
