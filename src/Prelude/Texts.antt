-- ===== src/Prelude/Texts.antt =====
-- Tables whose keys are texts: a dict in the order of its insertion.
use mathlib.Core.Path.{◌≡◌, refl, sym, ◌∙◌, subst}
use mathlib.Core.Option.{Option, none, some}
use mathlib.Core.List.{List, [], ◌∷◌}
use mathlib.Core.Logic.{inl, inr}
use Prim.Native.String.{String}
use text.Mathlib.Text.{◌==◌ as str_eq}
use text.Mathlib.TextEquality.{eq_iff}
use pickwise_v2_backend.Prelude.Tests.{if◌then◌else◌, Bool-cases}
use pickwise_v2_backend.Prelude.Lists.{All}

module _ {ℓ} {V : Type ℓ} where
  unfoldable pub get_text : String → List (String × V) → Option V
  get_text k [] = none
  get_text k ((j, v) ∷ rows) = if str_eq j k then some v else get_text k rows

  -- A key that is there keeps its place and gets the new value.
  unfoldable pub put_text : String → V → List (String × V) → List (String × V)
  put_text k v [] = (k, v) ∷ []
  put_text k v ((j, w) ∷ rows) =
      let rest = put_text k v rows in if str_eq j k then (j, v) ∷ rows else (j, w) ∷ rest

some-inj {ℓ} : {V : Type ℓ} {v w : V} → some v ≡ some w → v ≡ w
some-inj h = cc

module _ {ℓ κ} {V : Type ℓ} (P : String × V → Type κ) where
  -- A value that is found stands in a row of the table.
  pub All-get_text :
      (k : String) (rows : List (String × V)) (v : V)
      → All P rows
      → get_text k rows ≡ some v
      → P (k, v)
  unfolding get_text
  All-get_text k [] v h e = cc
  All-get_text k ((j, w) ∷ rows) v h e = elim (Bool-cases (str_eq j k)) [
    | inl here ↦
        let same : get_text k ((j, w) ∷ rows) ≡ some w = rw here refl in
        let e' : w ≡ v = some-inj (sym same ∙ e) in
        subst (λ i. P (i, v)) ((eq_iff j k).0 here) (subst (λ x. P (j, x)) e' h.0)
    | inr past ↦
        let same : get_text k ((j, w) ∷ rows) ≡ get_text k rows = rw past refl in
        All-get_text k rows v h.1 (sym same ∙ e)
  ]

  pub All-put_text :
      (k : String) (v : V) (rows : List (String × V))
      → P (k, v)
      → All P rows
      → All P (put_text k v rows)
  unfolding put_text
  All-put_text k v [] p h = (p, tt)
  All-put_text k v ((j, w) ∷ rows) p h = elim (Bool-cases (str_eq j k)) [
    | inl here ↦ rw here (subst (λ i. P (i, v)) (sym ((eq_iff j k).0 here)) p, h.1)
    | inr past ↦ rw past (h.0, All-put_text k v rows p h.1)
  ]
