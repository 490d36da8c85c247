-- ===== src/Families/Ranking.antt =====
-- Deduplication keeps the rank of each family's best-placed member.
use mathlib.Core.Option
use mathlib.Core.List.{append-nil, append_assoc, map-append}
use pickwise_v2_backend.Prelude.{
  ℕ, ◌≡◌, refl, sym, ap, ◌∙◌, true, false, Option, none, some, List, [], ◌∷◌, ◌++◌, arith, ◌==◌,
  length, get_elem?, any, is_some, get, map, Bool-cases, inl, inr, get_elem?-append,
  get_elem?-append_length, map-set, get_elem?-map, ==_iff,
}
use pickwise_v2_backend.Families.{
  Prefer, Position, represent, challenge, place, seen_at, dedup_from, deduplicate_by_family,
}

-- The promise, on the families alone: the first of each family stays, and so does every item that
-- has none.
pub firsts : List ℕ → List (Option ℕ) → List (Option ℕ)
firsts seen [] = []
firsts seen (none ∷ fs) = none ∷ firsts seen fs
firsts seen (some f ∷ fs) = elim (any (◌==◌ f) seen) [
  | true ↦ firsts seen fs
  | false ↦ some f ∷ firsts (f ∷ seen) fs
]

abbrev families : Position → List ℕ
families position = map (λ e. e.0) position

get-families :
    (f : ℕ) (position : Position) → is_some (get f position) ≡ any (◌==◌ f) (families position)
unfolding get
get-families f [] = refl
get-families f ((g, at) ∷ position) = ground (arith, get-families f position)

module _ {ℓ} {T : Type ℓ} (family_id_of : T → Option ℕ) where
  -- The members of one family represent it, whichever is preferred.
  abbrev pub KeepsFamily : Option (Prefer T) → Type ℓ
  KeepsFamily none = Unit
  KeepsFamily (some prefer) =
      (a b : T) → family_id_of a ≡ family_id_of b → family_id_of (prefer a b) ≡ family_id_of a

  -- A remembered position holds an item of its family.
  abbrev IsPlaced : List T → Position → Type 0
  IsPlaced out position =
      (f at : ℕ) → get f position ≡ some at → get_elem? (map family_id_of out) at ≡ some (some f)

  represent-families :
      (prefer : Prefer T) (out : List T) (at f : ℕ) (item : T) (o : Option T)
      → KeepsFamily (some prefer)
      → get_elem? out at ≡ o
      → Option.map family_id_of o ≡ some (some f)
      → family_id_of item ≡ some f
      → map family_id_of (represent prefer out at item o) ≡ map family_id_of out
  unfolding represent
  represent-families prefer out at f item none k h q e = refl
  represent-families prefer out at f item (some old) k h q e =
      let old_family : family_id_of old ≡ some f = cc in
      map-set family_id_of out at (prefer old item) old h (k old item (old_family ∙ sym e))

  challenge-families :
      (prefer : Option (Prefer T)) (out : List T) (at f : ℕ) (item : T)
      → KeepsFamily prefer
      → get_elem? (map family_id_of out) at ≡ some (some f)
      → family_id_of item ≡ some f
      → map family_id_of (challenge prefer out at item) ≡ map family_id_of out
  unfolding challenge
  challenge-families none out at f item k h e = refl
  challenge-families (some prefer) out at f item k h e =
      represent-families prefer out at f item (get_elem? out at) k refl
        (sym (get_elem?-map family_id_of out at) ∙ h) e

  IsPlaced-more :
      (out : List T) (position : Position) (item : T)
      → IsPlaced out position
      → IsPlaced (out ++ item ∷ []) position
  IsPlaced-more out position item h g at q =
      rw (map-append family_id_of out (item ∷ []))
        (get_elem?-append (map family_id_of out) (family_id_of item ∷ []) at (h g at q))

  IsPlaced-append :
      (out : List T) (position : Position) (f : ℕ) (item : T)
      → IsPlaced out position
      → family_id_of item ≡ some f
      → IsPlaced (out ++ item ∷ []) ((f, length out) ∷ position)
  unfolding get
  IsPlaced-append out position f item h e g at q = elim (Bool-cases (f == g)) [
    | inl same ↦
        let last : get_elem? (map family_id_of (out ++ item ∷ [])) (length out)
            ≡ some (family_id_of item) =
          get_elem?-map family_id_of (out ++ item ∷ []) (length out)
          ∙ rw (get_elem?-append_length out item) in
        let here : length out ≡ at = ground arith in
        let g_is : f ≡ g = (==_iff f g).0 same in rw (← here, ← g_is) (last ∙ ap some e)
    | inr other ↦ IsPlaced-more out position item h g at (rw other at q)
  ]

  place-firsts :
      (prefer : Option (Prefer T)) (out : List T) (position : Position) (item : T) (items : List T)
      → KeepsFamily prefer
      → IsPlaced out position
      → ((out' : List T) (position' : Position)
          → IsPlaced out' position'
          → map family_id_of (dedup_from family_id_of prefer (out', position') items)
            ≡ map family_id_of out' ++ firsts (families position') (map family_id_of items))
      → (o s : Option ℕ) → family_id_of item ≡ o
      → seen_at o position ≡ s
      → map family_id_of
          (dedup_from family_id_of prefer (place prefer o s item (out, position)) items)
        ≡ map family_id_of out ++ firsts (families position) (o ∷ map family_id_of items)
  unfolding place seen_at firsts
  place-firsts prefer out position item items k h ih none s e q =
      ih (out ++ item ∷ []) position (IsPlaced-more out position item h)
      ∙ rw (map-append family_id_of out (item ∷ []), e, append_assoc)
  place-firsts prefer out position item items k h ih (some f) none e q =
      ih (out ++ item ∷ []) ((f, length out) ∷ position) (IsPlaced-append out position f item h e)
      ∙ rw (
        map-append family_id_of out (item ∷ []),
        e,
        append_assoc,
        sym (get-families f position) ∙ ap is_some q,
        firsts,
      )
  place-firsts prefer out position item items k h ih (some f) (some at) e q =
      let same = challenge-families prefer out at f item k (h f at q) e in
      ih (challenge prefer out at item) position (λ g i r. rw same (h g i r))
      ∙ rw (same, sym (get-families f position) ∙ ap is_some q, firsts)

  dedup_from-firsts :
      (prefer : Option (Prefer T)) (out : List T) (position : Position) (items : List T)
      → KeepsFamily prefer
      → IsPlaced out position
      → map family_id_of (dedup_from family_id_of prefer (out, position) items)
        ≡ map family_id_of out ++ firsts (families position) (map family_id_of items)
  unfolding dedup_from firsts
  dedup_from-firsts prefer out position [] k h = sym (append-nil _)
  dedup_from-firsts prefer out position (item ∷ items) k h =
      place-firsts prefer out position item items k h
        (λ out' position' h'. dedup_from-firsts prefer out' position' items k h')
        (family_id_of item) (seen_at (family_id_of item) position) refl refl

  -- The families of the result, in order, are the first occurrences of the families of the items,
  -- and every item with no family stays in its place, whichever member is preferred to represent a
  -- family, if it is one of the members.
  pub deduplicate_by_family-firsts :
      (prefer : Option (Prefer T)) (items : List T)
      → KeepsFamily prefer
      → map family_id_of (deduplicate_by_family family_id_of prefer items)
        ≡ firsts [] (map family_id_of items)
  unfolding deduplicate_by_family get
  deduplicate_by_family-firsts prefer items k =
      dedup_from-firsts prefer [] [] items k (λ f at q. cc)
