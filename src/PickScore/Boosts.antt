-- ===== src/PickScore/Boosts.antt =====
-- The purposes of a user only raise a factor's weight, and not by more than the cap.
use pickwise_v2_backend.Prelude.{ℕ, ◌≡◌, String, true, List, [], ◌∷◌, ◌==◌, Bool-cases, inl, inr}
use pickwise_v2_backend.PickScore.Platform.{Platform, IsOrdered, fmax}
use pickwise_v2_backend.PickScore.Factors.{Factor}
use pickwise_v2_backend.PickScore.Weights.{
  factor_index, purpose_modifiers, modifiers_of, boost, boosted, purpose_mod,
}

module _ (py : Platform) (o : IsOrdered py) where
  abbrev IsBoost : py.F → Type 0
  IsBoost x = (py.le (py.of_nat 1) x ≡ true) × (py.le x (py.tenths 13) ≡ true)

  one-IsBoost : IsBoost (py.of_nat 1)
  one-IsBoost = (
    elim (Bool-cases (py.le (py.of_nat 1) (py.of_nat 1))) [
      | inl same ↦ same
      | inr other ↦ o.total _ _ other
    ],
    o.one_cap,
  )

  fmax-above :
      (a b : py.F) → py.le (py.of_nat 1) a ≡ true → py.le (py.of_nat 1) (fmax py a b) ≡ true
  fmax-above a b h = elim (Bool-cases (py.le b a)) [
    | inl below ↦ rw below h
    | inr above ↦ rw above (o.trans _ a b h (o.total b a above))
  ]

  boost-IsBoost : (mult : ℕ) (x : py.F) → IsBoost x → IsBoost (boost py mult x)
  unfolding boost
  boost-IsBoost mult x h = elim (Bool-cases (py.le (py.tenths 13) (fmax py x (py.tenths mult)))) [
    | inl capped ↦ rw capped (
      o.one_cap,
      elim (Bool-cases (py.le (py.tenths 13) (py.tenths 13))) [
        | inl same ↦ same
        | inr other ↦ o.total _ _ other
      ],
    )
    | inr free ↦ rw free (fmax-above x (py.tenths mult) h.0, o.total _ _ free)
  ]

  boosted-IsBoost :
      (f : Factor) (mods : List (Factor × ℕ)) (x : py.F) → IsBoost x → IsBoost (boosted py f mods x)
  unfolding boosted
  boosted-IsBoost f [] x h = h
  boosted-IsBoost f ((g, mult) ∷ rest) x h = elim (Bool-cases (factor_index g == factor_index f)) [
    | inl same ↦ rw same (boosted-IsBoost f rest (boost py mult x) (boost-IsBoost mult x h))
    | inr other ↦ rw other (boosted-IsBoost f rest x h)
  ]

  purposes-IsBoost :
      (f : Factor) (purposes : List String) (x : py.F)
      → IsBoost x
      → IsBoost (purpose_mod py f purposes x)
  unfolding purpose_mod
  purposes-IsBoost f [] x h = h
  purposes-IsBoost f (p ∷ ps) x h =
      purposes-IsBoost f ps _ (boosted-IsBoost f (modifiers_of p purpose_modifiers) x h)

  -- The modifier of a factor is between 1.0 and 1.3, whichever purposes the user names and however
  -- many, if the floats keep the order as stated.
  pub purpose_mod-bounds :
      (f : Factor) (purposes : List String)
      → (py.le (py.of_nat 1) (purpose_mod py f purposes (py.of_nat 1)) ≡ true)
        × (py.le (purpose_mod py f purposes (py.of_nat 1)) (py.tenths 13) ≡ true)
  purpose_mod-bounds f purposes = purposes-IsBoost f purposes (py.of_nat 1) one-IsBoost
