-- ===== src/Configurator/Kits.antt =====
-- Chip kits and their prices: app/processor/apple_options.py. A price is a float, whose operations
-- come in, and a dict is a table in the order of its insertion. Apple's pages and answers, which the
-- scraper reads into the rows, are not modelled.
use pickwise_v2_backend.Prelude.{
  String, Bool, false, ◌&&◌, not, Option, none, some, List, [], ◌∷◌, ◌++◌, map, keep, any, all,
  str_eq, get_text, put_text, if◌then◌else◌,
}

pub record Money (A : Type 0) : Type 0 where
  pub zero_rm : A
  pub add_rm : A → A → A
  pub rounded : A → A  -- `round(…, 2)`
  pub is_less : A → A → Bool

module _ (A : Type 0) where
  pub record KitOption : Type 0 where
    pub group : String
    pub value : String
    pub add_on_rm : Option A
    pub is_included : Bool
    pub is_blocked : Bool

  pub record Kit : Type 0 where
    pub chip : String
    pub price_rm : A
    pub options : List KitOption

  pub record Quote : Type 0 where
    pub quote_chip : String
    pub total_rm : A
    pub chip_changed : Bool

  -- A row of `laptop_options`.
  pub record OptionRow : Type 0 where
    pub row_chip : String
    pub option_group : String
    pub row_value : String
    pub kit_price_rm : Option A
    pub row_add_on : Option A
    pub row_included : Bool
    pub row_blocked : Bool

pub record Problem : Type 0 where
  pub problem_group : String
  pub problem_value : Option String
  pub allowed : List String
  pub offered_by : List String

abbrev pub kit_of : {A : Type 0} → String × Kit A → Kit A
kit_of (chip, kit) = kit

-- A value, where there is one.
abbrev pub is_value : Option String → String → Bool
is_value none v = false
is_value (some w) v = str_eq v w

module _ {A : Type 0} (money : Money A) where
  unfoldable pub has_option : String → Option String → KitOption A → Bool
  has_option group value o = str_eq o.group group && is_value value o.value

  -- `Kit.allows`.
  unfoldable pub allows : Kit A → String → Option String → Bool
  unfolding has_option
  allows kit group value = any (λ o. has_option group value o && not o.is_blocked) kit.options

  unfoldable pub or_zero : Option A → A
  or_zero none = money.zero_rm
  or_zero (some a) = a

  unfoldable pub first_add_on : String → Option String → List (KitOption A) → Option A
  unfolding has_option or_zero
  first_add_on group value [] = none
  first_add_on group value (o ∷ os) =
      if has_option group value o then some (or_zero o.add_on_rm) else first_add_on group value os

  -- `Kit.add_on`: nothing is the exception of `next`.
  unfoldable pub add_on : Kit A → String → Option String → Option A
  unfolding first_add_on
  add_on kit group value = first_add_on group value kit.options

  unfoldable pub add_both : Option A → Option A → Option A
  add_both (some a) (some b) = some (money.add_rm a b)
  add_both _ _ = none

  -- `sum(kit.add_on(g, v) for g, v in choices.items())`, from what there is so far.
  unfoldable pub sum_add_ons : Kit A → Option A → List (String × Option String) → Option A
  unfolding add_both add_on
  sum_add_ons kit so_far [] = so_far
  sum_add_ons kit so_far ((group, value) ∷ choices) =
      sum_add_ons kit (add_both so_far (add_on kit group value)) choices

  unfoldable pub total_from : A → Option A → Option A
  total_from price none = none
  total_from price (some sum) = some (money.rounded (money.add_rm price sum))

  unfoldable pub total : Kit A → List (String × Option String) → Option A
  unfolding total_from sum_add_ons
  total kit choices = total_from kit.price_rm (sum_add_ons kit (some money.zero_rm) choices)

  unfoldable pub allows_all : List (String × Option String) → Kit A → Bool
  unfolding allows
  allows_all choices kit = all (λ c. allows kit c.0 c.1) choices

  -- `min(…, key=…, default=None)`: the first of the cheapest.
  unfoldable pub cheaper : Kit A → List (Kit A) → Kit A
  cheaper best [] = best
  cheaper best (k ∷ ks) = cheaper (if money.is_less k.price_rm best.price_rm then k else best) ks

  unfoldable pub cheapest : List (Kit A) → Option (Kit A)
  unfolding cheaper
  cheapest [] = none
  cheapest (k ∷ ks) = some (cheaper k ks)

  unfoldable pub quote_total : String → Kit A → Option A → Option (Quote A)
  quote_total chip kit none = none
  quote_total chip kit (some rm) =
      some
        (record { quote_chip = kit.chip; total_rm = rm; chip_changed = not (str_eq kit.chip chip) })

  unfoldable pub quote_on :
      String → List (String × Option String) → Option (Kit A) → Option (Quote A)
  unfolding quote_total total
  quote_on chip choices none = none
  quote_on chip choices (some kit) = quote_total chip kit (total kit choices)

  unfoldable pub quote_from :
      List (String × Kit A)
      → String
      → List (String × Option String)
      → Option (Kit A)
      → Option (Quote A)
  unfolding quote_on cheapest allows_all
  quote_from kits chip choices none = none
  quote_from kits chip choices (some kit) = quote_on chip choices (
      if allows_all choices kit
      then some kit
      else cheapest (keep (allows_all choices) (map kit_of kits)))

  -- `quote`: nothing is an exception, for a chip that is not there or choices that no chip allows.
  unfoldable pub quote :
      List (String × Kit A) → String → List (String × Option String) → Option (Quote A)
  unfolding quote_from
  quote kits chip choices = quote_from kits chip choices (get_text chip kits)

  unfoldable pub problem_of : List (String × Kit A) → Kit A → String × Option String → Problem
  unfolding allows
  problem_of kits kit (group, value) = record {
    problem_group = group;
    problem_value = value;
    allowed =
        map (λ (o : KitOption A). o.value)
          (keep (λ o. str_eq o.group group && not o.is_blocked) kit.options);
    offered_by =
        map (λ (row : String × Kit A). row.0) (keep (λ row. allows row.1 group value) kits);
  }

  -- `not_allowed`, on the kit of the chip.
  unfoldable pub not_allowed :
      List (String × Kit A) → Kit A → List (String × Option String) → List Problem
  unfolding problem_of allows
  not_allowed kits kit choices =
      map (problem_of kits kit) (keep (λ c. not (allows kit c.0 c.1)) choices)

  unfoldable pub chip_prices :
      List (OptionRow A) → List (String × Option A) → List (String × Option A)
  chip_prices [] prices = prices
  chip_prices (r ∷ rows) prices =
      chip_prices rows
        (if str_eq r.option_group "chip" then put_text r.row_chip r.kit_price_rm prices else prices)

  unfoldable pub priced_kits : List (String × Option A) → List (String × Kit A)
  priced_kits [] = []
  priced_kits ((chip, none) ∷ prices) = priced_kits prices
  priced_kits ((chip, some rm) ∷ prices) =
      (chip, record { chip = chip; price_rm = rm; options = [] }) ∷ priced_kits prices

  abbrev pub option_of : OptionRow A → KitOption A
  option_of r = record {
    group = r.option_group;
    value = r.row_value;
    add_on_rm = r.row_add_on;
    is_included = r.row_included;
    is_blocked = r.row_blocked;
  }

  abbrev pub with_option : KitOption A → Kit A → Kit A
  with_option o kit = record kit { options = kit.options ++ o ∷ [] }

  unfoldable pub append_option :
      String → KitOption A → List (String × Kit A) → List (String × Kit A)
  append_option chip o [] = []
  append_option chip o ((c, kit) ∷ kits) =
      let rest = append_option chip o kits in
      if str_eq c chip then (c, with_option o kit) ∷ kits else (c, kit) ∷ rest

  unfoldable pub append_options : List (OptionRow A) → List (String × Kit A) → List (String × Kit A)
  unfolding append_option
  append_options [] kits = kits
  append_options (r ∷ rows) kits =
      append_options rows
        (if str_eq r.option_group "chip" then kits else append_option r.row_chip (option_of r) kits)

  -- `kits_from_rows`.
  unfoldable pub kits_from_rows : List (OptionRow A) → List (String × Kit A)
  unfolding chip_prices priced_kits append_options
  kits_from_rows rows = append_options rows (priced_kits (chip_prices rows []))
