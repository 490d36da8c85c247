-- ===== src/Configurator/Examples.antt =====
-- A laptop with two chips, with whole prices.
use pickwise_v2_backend.Prelude.{
  ℕ, ◌+◌, ◌≡◌, refl, ◌⊎◌, String, Bool, true, false, Option, none, some, List, [], ◌∷◌, map, any,
  ltb, get_text, put_text, arith,
}
use pickwise_v2_backend.Configurator.Kits.{
  Money, KitOption, Kit, OptionRow, Quote, allows_all, kit_of, quote, kits_from_rows,
}
use pickwise_v2_backend.Configurator.Service.{Configurable, accepted, checked_choices, included}
use pickwise_v2_backend.Configurator.Chosen.{IsAccepted, checked_choices-IsAccepted}
use pickwise_v2_backend.Configurator.Quoted.{IsOrder, IsQuote, quote-IsQuote}

abbrev ringgit : Money ℕ
ringgit = record { zero_rm = 0; add_rm = λ a b. a + b; rounded = λ a. a; is_less = ltb }

ringgit-IsOrder : IsOrder ringgit
ringgit-IsOrder = record {
  is_less_irrefl = λ a. ground arith;
  is_less_trans = λ a b c h k. ground arith;
  not_less_trans = λ a b c h k. ground arith;
}

abbrev option : String → String → ℕ → Bool → KitOption ℕ
option group value rm is_included = record {
  group = group;
  value = value;
  add_on_rm = some rm;
  is_included = is_included;
  is_blocked = false;
}

abbrev small : Kit ℕ
small = record {
  chip = "10-8";
  price_rm = 4000;
  options =
      option "memory" "16gb" 0 true
      ∷ option "memory" "24gb" 800 false
      ∷ option "storage" "256gb" 0 true
      ∷ [];
}

abbrev large : Kit ℕ
large = record {
  chip = "10-10";
  price_rm = 5000;
  options =
      option "memory" "24gb" 0 true
      ∷ option "memory" "32gb" 900 false
      ∷ option "storage" "512gb" 0 true
      ∷ [];
}

abbrev kits : List (String × Kit ℕ)
kits = ("10-8", small) ∷ ("10-10", large) ∷ []

abbrev air : Configurable ℕ
air = record {
  kits = kits;
  chip = "10-8";
  standard = ("memory", "16gb") ∷ ("storage", "256gb") ∷ [];
}

abbrev memory : List (String × String)
memory = ("memory", "32gb") ∷ []

abbrev choices : List (String × Option String)
choices = ("memory", some "32gb") ∷ ("storage", some "512gb") ∷ []

checked_choices-IsAccepted_example : IsAccepted ringgit air (some "10-10") memory "10-10" choices
unfolding checked_choices included get_text
checked_choices-IsAccepted_example =
    checked_choices-IsAccepted ringgit air (some "10-10") memory "10-10" choices
      (
        ((λ t. refl), ((λ t. refl), ((λ t. cc), ((λ t. cc), ((λ t. cc), tt))))),
        (((λ t. refl), ((λ t. refl), ((λ t. cc), ((λ t. cc), ((λ t. cc), tt))))), tt),
      )
      refl

-- A choice of a group that the kit does not have is passed over.
display_runs :
    checked_choices ringgit air none (("display", "nano") ∷ [])
    ≡ accepted "10-8" (("memory", some "16gb") ∷ ("storage", some "256gb") ∷ [])
unfolding checked_choices included get_text
display_runs = refl

quote-IsQuote_example :
    ((quote ringgit kits "10-8" choices ≡ none)
      × (allows_all ringgit choices small ≡ false)
      × (any (allows_all ringgit choices) (map kit_of kits) ≡ false))
    ⊎ ((q : Quote ℕ) × (quote ringgit kits "10-8" choices ≡ some q)
        × IsQuote ringgit kits small choices q)
unfolding get_text
quote-IsQuote_example = quote-IsQuote ringgit ringgit-IsOrder kits "10-8" choices small refl

quote_runs :
    quote ringgit kits "10-8" choices
    ≡ some (record { quote_chip = "10-10"; total_rm = 5900; chip_changed = true })
unfolding quote get_text
quote_runs = refl

abbrev row : String → String → String → Option ℕ → OptionRow ℕ
row chip group value price = record {
  row_chip = chip;
  option_group = group;
  row_value = value;
  kit_price_rm = price;
  row_add_on = some 0;
  row_included = true;
  row_blocked = false;
}

kits_runs :
    map
      (λ (r : String × Kit ℕ). r.0)
      (kits_from_rows ringgit
        (row "a" "memory" "16gb" none ∷ row "a" "chip" "a" (some 1) ∷ row "b" "chip" "b" none ∷ []))
    ≡ "a" ∷ []
unfolding kits_from_rows put_text
kits_runs = refl
