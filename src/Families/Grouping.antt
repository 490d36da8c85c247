-- ===== src/Families/Grouping.antt =====
-- What a regrouping leaves alone.
use pickwise_v2_backend.Prelude.{
  ℕ, ◌≡◌, ◌≢◌, refl, sym, ap, ◌∙◌, String, Bool, true, false, not, ◌&&◌, Option, none, some, List,
  [], ◌∷◌, ◌==◌, ==_iff, str_eq, eq_iff, get, get-put, is_some, All, All-weaken, All-map,
  All-keep_test, Bool-cases, inl, inr, ◌⊎◌,
}
use pickwise_v2_backend.Families.{Laptop, Catalog, assign, moved_to}
use pickwise_v2_backend.Families.Regroup.{
  Regrouped, assign_each, adopt, families_with, members_of, regroup_members, regroup_keys,
  regroup_unassigned, unassigned_keys, before_groups,
}

laptop-inj : (k l : Laptop) → some k ≡ some l → k ≡ l
laptop-inj k l h = cc

true-false : true ≢ false
true-false h = cc

and_false : (b : Bool) → (b && false) ≡ false
and_false true = refl
and_false false = refl

-- A key is not among some.
abbrev pub IsAbsent : ℕ → List ℕ → Type 0
IsAbsent i = All (λ m. (m == i) ≡ false)

assign-other :
    (t m i : ℕ) (o : Option Laptop) (catalog : Catalog)
    → (m == i) ≡ false
    → get i (assign (some t) o m catalog) ≡ get i catalog
unfolding assign
assign-other t m i none catalog h = refl
assign-other t m i (some l) catalog h = rw (get-put m i (moved_to (some t) l) catalog, h) refl

assign_each-other :
    (t i : ℕ) (members : List ℕ) (catalog : Catalog)
    → IsAbsent i members
    → get i (assign_each t members catalog) ≡ get i catalog
unfolding assign_each
assign_each-other t i [] catalog h = refl
assign_each-other t i (m ∷ ms) catalog h =
    assign_each-other t i ms (assign (some t) (get m catalog) m catalog) h.1
    ∙ assign-other t m i (get m catalog) catalog h.0

module _ (family_key : String → String) where
  regroup-other :
      (key : String) (i : ℕ) (members families : List ℕ) (r : Regrouped)
      → IsAbsent i members
      → get i (regroup_members family_key key members families r).catalog ≡ get i r.catalog
  unfolding regroup_members adopt
  regroup-other key i members [] r h = assign_each-other r.next_id i members r.catalog h
  regroup-other key i members (f ∷ []) r h = assign_each-other f i members r.catalog h
  regroup-other key i members (f ∷ g ∷ fs) r h = refl

  -- The members of a group have no family, and its key.
  members-lem :
      (key : String) (catalog : Catalog) (i : ℕ) (l : Laptop)
      → All (λ row. get row.0 catalog ≡ some row.1) catalog
      → get i catalog ≡ some l
      → (not (is_some l.family_id) && str_eq (family_key l.product_name) key) ≡ false
      → IsAbsent i (members_of family_key key catalog)
  unfolding members_of
  members-lem key catalog i l d h k =
      All-map (λ m. (m == i) ≡ false) (λ (row : ℕ × Laptop). row.0) _
        (All-weaken _ _ _
          (λ row e. elim (Bool-cases (row.0 == i)) [
            | inr other ↦ other
            | inl same ↦
                let there : get i catalog ≡ some row.1 =
                  ap (λ j. get j catalog) (sym ((==_iff row.0 i).0 same)) ∙ e.0 in
                let row_l : row.1 ≡ l = laptop-inj row.1 l (sym there ∙ h) in
                absurd (true-false (sym e.1 ∙ (ap test row_l ∙ k)))
          ])
          (All-keep_test (λ row. get row.0 catalog ≡ some row.1) _ catalog d))
    where
      test : Laptop → Bool
      test x = not (is_some x.family_id) && str_eq (family_key x.product_name) key

  -- The group of a key does not write to a laptop: it is not in the group, or the key spans two
  -- families.
  IsSpared : Catalog → ℕ → String → Type 0
  IsSpared before i key =
      IsAbsent i (members_of family_key key before)
      ⊎ ((f : ℕ) × (g : ℕ) × (fs : List ℕ) × (families_with family_key none key before
            ≡ f ∷ g ∷ fs))

  keys-other :
      (before : Catalog) (i : ℕ) (keys : List String) (r : Regrouped)
      → ((key : String) → IsSpared before i key)
      → get i (regroup_keys family_key before keys r).catalog ≡ get i r.catalog
  unfolding regroup_keys IsSpared
  keys-other before i [] r h = refl
  keys-other before i (key ∷ keys) r h = keys-other before i keys _ h ∙ (elim (h key) [
    | inl absent ↦
        regroup-other key i (members_of family_key key before)
          (families_with family_key none key before) r absent
    | inr (f, g, fs, e) ↦ rw (e, regroup_members) refl
  ])

  -- Regrouping never changes a laptop that has a family already, whatever its name, if the keys of
  -- the catalog tell its rows apart.
  pub regroup_unassigned-assigned :
      (sorted_keys : List String → List String) (next_id i f : ℕ) (catalog : Catalog) (l : Laptop)
      → All (λ row. get row.0 catalog ≡ some row.1) catalog
      → get i catalog ≡ some l
      → l.family_id ≡ some f
      → get i (regroup_unassigned family_key sorted_keys next_id catalog).catalog ≡ some l
  unfolding regroup_unassigned IsSpared
  regroup_unassigned-assigned sorted_keys next_id i f catalog l d h k =
      keys-other catalog i (sorted_keys (unassigned_keys family_key catalog))
        (before_groups next_id catalog) (λ key. inl (members-lem key catalog i l d h (rw k refl)))
      ∙ h

  -- Regrouping does not change a laptop whose key is shared by laptops of two families, if the keys of the
  -- catalog tell its rows apart.
  pub regroup_unassigned-straddling :
      (sorted_keys : List String → List String) (next_id i f g : ℕ) (fs : List ℕ)
      (catalog : Catalog) (l : Laptop)
      → All (λ row. get row.0 catalog ≡ some row.1) catalog
      → get i catalog ≡ some l
      → families_with family_key none (family_key l.product_name) catalog ≡ f ∷ g ∷ fs
      → get i (regroup_unassigned family_key sorted_keys next_id catalog).catalog ≡ some l
  unfolding regroup_unassigned IsSpared
  regroup_unassigned-straddling sorted_keys next_id i f g fs catalog l d h k =
      keys-other catalog i (sorted_keys (unassigned_keys family_key catalog))
        (before_groups next_id catalog)
        (λ key. elim (Bool-cases (str_eq (family_key l.product_name) key)) [
          | inl same ↦ inr (f, g, fs, rw (sym ((eq_iff (family_key l.product_name) key).0 same)) k)
          | inr other ↦ inl (members-lem key catalog i l d h (rw other (and_false _)))
        ])
      ∙ h
