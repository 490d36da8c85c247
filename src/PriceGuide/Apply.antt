-- ===== src/PriceGuide/Apply.antt =====
-- What an apply may write.
use mathlib.Core.List.{append_assoc}
use pickwise_v2_backend.Prelude.{
  ℕ, ◌+◌, ◌≡◌, ◌≢◌, refl, sym, ap, ◌∙◌, true, false, Option, none, some, List, [], ◌∷◌, ◌++◌, arith,
  ◌==◌, ==_iff, length, length-append, All-append, get, put, get-put, All, Bool-cases, inl, inr,
}
use pickwise_v2_backend.PriceGuide.{
  Action, fill, confirm, differs, PriceSource, guide, Laptop, History, Store, Counts, is_guide,
  decide, latest_source, priced, checked, write_guide_price, is_outdated, act, apply_row,
  apply_rows, no_counts, apply_guide,
}

-- The price that is stored behind a key.
abbrev pub price_in : Option Laptop → Option ℕ
price_in none = none
price_in (some l) = l.price_rm

-- A known price that did not come from a guide is not to be filled.
protected-ne-fill :
    (stored : ℕ) (source : Option PriceSource) (price : ℕ)
    → (stored == 0) ≡ false
    → is_guide source ≡ false
    → decide (some stored) source price ≢ fill
unfolding decide
protected-ne-fill stored source price h k = ground arith

-- Moving Last Checked leaves every price.
pub checked-price :
    (now id j : ℕ) (l : Laptop) (laptops : List (ℕ × Laptop))
    → get id laptops ≡ some l
    → price_in (get j (put id (checked now l) laptops)) ≡ price_in (get j laptops)
checked-price now id j l laptops e = elim (Bool-cases (id == j)) [
  | inl same ↦
      let here : get j laptops ≡ some l =
        ap (λ k. get k laptops) (sym ((==_iff id j).0 same)) ∙ e in
      rw (get-put id j (checked now l) laptops, same, e, here)
  | inr other ↦ rw (get-put id j (checked now l) laptops, other)
]

act-price :
    (gid up now id j price : ℕ) (l : Laptop) (a : Action) (sc : Store × Counts)
    → get id sc.0.laptops ≡ some l
    → ((id == j) ≡ true → a ≢ fill)
    → price_in (get j (act gid up now id price l a sc).0.laptops) ≡ price_in (get j sc.0.laptops)
unfolding act write_guide_price
act-price gid up now id j price l fill (s, c) e k = elim (Bool-cases (id == j)) [
  | inl same ↦ absurd (k same refl)
  | inr other ↦ rw (get-put id j (priced price now l) s.laptops, other)
]
act-price gid up now id j price l confirm (s, c) e k =
    elim (Bool-cases (is_outdated l.price_checked_at up)) [
      | inl old ↦ rw (old, act) (checked-price now id j l s.laptops e)
      | inr new ↦ rw (new, act)
    ]
act-price gid up now id j price l differs (s, c) e k = refl

row-protected :
    (gid up now j stored : ℕ) (before : List History) (m : ℕ × ℕ) (o : Option Laptop)
    (sc : Store × Counts)
    → (stored == 0) ≡ false
    → is_guide (latest_source j before) ≡ false
    → get m.0 sc.0.laptops ≡ o
    → price_in (get j sc.0.laptops) ≡ some stored
    → price_in (get j (apply_row gid up now before m o sc).0.laptops) ≡ some stored
unfolding apply_row
row-protected gid up now j stored before (id, price) none sc k g e h = h
row-protected gid up now j stored before (id, price) (some l) sc k g e h =
    act-price gid up now id j price l _ sc e (λ same.
      let ij = (==_iff id j).0 same in
      let known : l.price_rm ≡ some stored =
        sym (ap price_in e) ∙ (ap (λ i. price_in (get i sc.0.laptops)) ij ∙ h) in
      rw (known, ij) (protected-ne-fill stored (latest_source j before) price k g))
    ∙ h

rows-protected :
    (gid up now j stored : ℕ) (before : List History) (matched : List (ℕ × ℕ)) (sc : Store × Counts)
    → (stored == 0) ≡ false
    → is_guide (latest_source j before) ≡ false
    → price_in (get j sc.0.laptops) ≡ some stored
    → price_in (get j (apply_rows gid up now before matched sc).0.laptops) ≡ some stored
unfolding apply_rows
rows-protected gid up now j stored before [] sc k g h = h
rows-protected gid up now j stored before (m ∷ ms) sc k g h =
    rows-protected gid up now j stored before ms _ k g
      (row-protected gid up now j stored before m (get m.0 sc.0.laptops) sc k g refl h)

-- An apply never replaces a known price whose last recorded source is not a guide (a page, an
-- admin, or none), whatever the guide says.
pub apply_guide_protects :
    (gid up now j stored : ℕ) (matched : List (ℕ × ℕ)) (s : Store)
    → stored ≢ 0
    → is_guide (latest_source j s.history) ≡ false
    → price_in (get j s.laptops) ≡ some stored
    → price_in (get j (apply_guide gid up now matched s).0.laptops) ≡ some stored
unfolding apply_guide
apply_guide_protects gid up now j stored matched s k g h =
    rows-protected gid up now j stored s.history matched (s, no_counts) (ground arith) g h

act-history :
    (gid up now id price : ℕ) (l : Laptop) (a : Action) (sc : Store × Counts)
    → (added : List History) × ((act gid up now id price l a sc).0.history ≡ added ++ sc.0.history)
      × (length added + sc.1.filled ≡ (act gid up now id price l a sc).1.filled)
      × All (λ h. (h.source ≡ some guide) × (h.price_guide_id ≡ some gid)) added
unfolding act write_guide_price
act-history gid up now id price l fill (s, c) = (
  record { laptop_id = id; price_rm = price; source = some guide; price_guide_id = some gid } ∷ [],
  refl,
  omega arith,
  ((refl, refl), tt),
)
act-history gid up now id price l confirm (s, c) =
    elim (Bool-cases (is_outdated l.price_checked_at up)) [
      | inl old ↦ ([], rw (old, act), rw (old, act) (omega arith), tt)
      | inr new ↦ ([], rw (new, act), rw (new, act) (omega arith), tt)
    ]
act-history gid up now id price l differs (s, c) = ([], refl, omega arith, tt)

-- A list of history rows that one guide wrote.
abbrev pub WrittenBy : ℕ → List History → Type 0
WrittenBy gid = All (λ h. (h.source ≡ some guide) × (h.price_guide_id ≡ some gid))

row-history :
    (gid up now : ℕ) (before : List History) (m : ℕ × ℕ) (o : Option Laptop) (sc : Store × Counts)
    → (added : List History) × ((apply_row gid up now before m o sc).0.history
        ≡ added ++ sc.0.history)
      × (length added + sc.1.filled ≡ (apply_row gid up now before m o sc).1.filled)
      × WrittenBy gid added
unfolding apply_row
row-history gid up now before (id, price) none sc = ([], refl, omega arith, tt)
row-history gid up now before (id, price) (some l) sc =
    act-history gid up now id price l (decide l.price_rm (latest_source id before) price) sc

rows-history :
    (gid up now : ℕ) (before : List History) (matched : List (ℕ × ℕ)) (sc : Store × Counts)
    → (added : List History) × ((apply_rows gid up now before matched sc).0.history
        ≡ added ++ sc.0.history)
      × (length added + sc.1.filled ≡ (apply_rows gid up now before matched sc).1.filled)
      × WrittenBy gid added
unfolding apply_rows
rows-history gid up now before [] sc = ([], refl, omega arith, tt)
rows-history gid up now before (m ∷ ms) sc =
    let (one, e, n, w) = row-history gid up now before m (get m.0 sc.0.laptops) sc in
    let (more, e', n', w') =
      rows-history gid up now before ms (apply_row gid up now before m (get m.0 sc.0.laptops) sc) in
    (
      more ++ one,
      e' ∙ (rw e (sym (append_assoc more one sc.0.history))),
      omega (arith, length-append more one),
      All-append (λ h. (h.source ≡ some guide) × (h.price_guide_id ≡ some gid)) more one w' w,
    )

-- An apply only adds to the price history, one row for each price that it counts as filled, and
-- each of them names the guide as its source and by its id.
pub apply_guide-history :
    (gid up now : ℕ) (matched : List (ℕ × ℕ)) (s : Store)
    → (added : List History) × ((apply_guide gid up now matched s).0.history ≡ added ++ s.history)
      × (length added ≡ (apply_guide gid up now matched s).1.filled)
      × WrittenBy gid added
unfolding apply_guide
apply_guide-history gid up now matched s =
    let (added, e, n, w) = rows-history gid up now s.history matched (s, no_counts) in
    (added, e, omega arith, w)
