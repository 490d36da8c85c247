-- ===== src/PriceGuide/Select.antt =====
-- What an admin's selection writes.
use pickwise_v2_backend.Prelude.{
  ℕ, ◌≡◌, ◌↔◌, refl, sym, ap, ◌∙◌, Bool, true, false, not, ◌&&◌, ◌++◌, arith, Option, none, some,
  List, [], ◌∷◌, ◌==◌, ==_iff, ==_refl, any, keep, get, get-put, is_some, Bool-cases, Option-cases,
  inl, inr, ◌||◌, All,
}
use pickwise_v2_backend.PriceGuide.{
  PriceSource, Laptop, Store, priced, checked, write_guide_price, is_price, is_guide, latest_source,
  decide, is_differs, waits, select_row, select_id, select_each, select_all, updated, selectable,
  is_unlisted, use_guide_price,
}
use pickwise_v2_backend.PriceGuide.Apply.{price_in, checked-price}

is_price-eq : (o : Option ℕ) (price : ℕ) → is_price o price ≡ true → o ≡ some price
unfolding is_price
is_price-eq none price h = cc
is_price-eq (some stored) price h = ap some ((==_iff stored price).0 h)

-- The selected laptop has the guide's price.
row-same :
    (gid now j price : ℕ) (l : Laptop) (s : Store)
    → get j s.laptops ≡ some l
    → price_in (get j (select_row gid now j price (some l) s).laptops) ≡ some price
unfolding select_row write_guide_price
row-same gid now j price l s e = elim (Bool-cases (is_price l.price_rm price)) [
  | inl same ↦
      rw (same, select_row)
        (checked-price now j j l s.laptops e ∙ (ap price_in e ∙ is_price-eq l.price_rm price same))
  | inr other ↦
      rw (other, select_row, get-put j j (priced price now l) s.laptops, ==_refl j, e) refl
]

row-other :
    (gid now id j price : ℕ) (o : Option Laptop) (s : Store)
    → (id == j) ≡ false
    → get j (select_row gid now id price o s).laptops ≡ get j s.laptops
unfolding select_row write_guide_price
row-other gid now id j price none s h = refl
row-other gid now id j price (some l) s h = elim (Bool-cases (is_price l.price_rm price)) [
  | inl same ↦ rw (same, select_row, get-put id j (checked now l) s.laptops, h) refl
  | inr other ↦ rw (other, select_row, get-put id j (priced price now l) s.laptops, h) refl
]

id-same :
    (gid now j price : ℕ) (prices : List (ℕ × ℕ)) (s : Store)
    → get j prices ≡ some price
    → is_some (get j s.laptops) ≡ true
    → price_in (get j (select_id gid now j (get j prices) s).laptops) ≡ some price
unfolding select_id
id-same gid now j price prices s p h = elim (Option-cases (get j s.laptops)) [
  | inl gone ↦ let lost : is_some (get j s.laptops) ≡ false = rw gone refl in cc
  | inr (l, e) ↦ rw (p, select_id, e) (row-same gid now j price l s e)
]

id-other :
    (gid now id j : ℕ) (o : Option ℕ) (s : Store)
    → (id == j) ≡ false
    → get j (select_id gid now id o s).laptops ≡ get j s.laptops
unfolding select_id
id-other gid now id j none s h = refl
id-other gid now id j (some price) s h = row-other gid now id j price (get id s.laptops) s h

price_in-known : (o : Option Laptop) (price : ℕ) → price_in o ≡ some price → is_some o ≡ true
price_in-known none price h = cc
price_in-known (some l) price h = refl

id-keeps :
    (gid now id j price : ℕ) (prices : List (ℕ × ℕ)) (s : Store)
    → get j prices ≡ some price
    → price_in (get j s.laptops) ≡ some price
    → price_in (get j (select_id gid now id (get id prices) s).laptops) ≡ some price
id-keeps gid now id j price prices s p h = elim (Bool-cases (id == j)) [
  | inl same ↦
      rw ((==_iff id j).0 same)
        (id-same gid now j price prices s p (price_in-known (get j s.laptops) price h))
  | inr other ↦ ap price_in (id-other gid now id j (get id prices) s other) ∙ h
]

each-keeps :
    (gid now j price : ℕ) (prices : List (ℕ × ℕ)) (ids : List ℕ) (s : Store)
    → get j prices ≡ some price
    → price_in (get j s.laptops) ≡ some price
    → price_in (get j (select_each gid now prices ids s).laptops) ≡ some price
unfolding select_each
each-keeps gid now j price prices [] s p h = h
each-keeps gid now j price prices (id ∷ ids) s p h =
    each-keeps gid now j price prices ids (select_id gid now id (get id prices) s) p
      (id-keeps gid now id j price prices s p h)

or_right : (a b : Bool) → a ≡ false → (a || b) ≡ true → b ≡ true
or_right true b h k = cc
or_right false b h k = k

each-prices :
    (gid now j price : ℕ) (prices : List (ℕ × ℕ)) (ids : List ℕ) (s : Store)
    → get j prices ≡ some price
    → any (λ i. i == j) ids ≡ true
    → is_some (get j s.laptops) ≡ true
    → price_in (get j (select_each gid now prices ids s).laptops) ≡ some price
unfolding select_each
each-prices gid now j price prices [] s p h k = cc
each-prices gid now j price prices (id ∷ ids) s p h k = elim (Bool-cases (id == j)) [
  | inl same ↦
      each-keeps gid now j price prices ids (select_id gid now id (get id prices) s) p
        (rw ((==_iff id j).0 same) (id-same gid now j price prices s p k))
  | inr other ↦
      each-prices gid now j price prices ids (select_id gid now id (get id prices) s) p
        (or_right (id == j) (any (λ i. i == j) ids) other h)
        (ap is_some (id-other gid now id j (get id prices) s other) ∙ k)
]

select_all-updated :
    (gid now : ℕ) (prices : List (ℕ × ℕ)) (ids unlisted : List ℕ) (s s' : Store)
    → select_all gid now prices ids unlisted s ≡ updated s'
    → select_each gid now prices ids s ≡ s'
unfolding select_all
select_all-updated gid now prices ids [] s s' h = cc
select_all-updated gid now prices ids (i ∷ is) s s' h = cc

-- Where an admin's selection is written, each selected laptop of the catalog has the guide's price
-- afterwards, whether it was written now or was there already.
pub use_guide_price-prices :
    (gid now j price : ℕ) (awaiting matched : List (ℕ × ℕ)) (ids : List ℕ) (s s' : Store)
    → use_guide_price gid now awaiting matched ids s ≡ updated s'
    → any (λ i. i == j) ids ≡ true
    → get j (selectable awaiting matched s) ≡ some price
    → is_some (get j s.laptops) ≡ true
    → price_in (get j s'.laptops) ≡ some price
unfolding use_guide_price
use_guide_price-prices gid now j price awaiting matched ids s s' u h p k =
    let prices = selectable awaiting matched s in
    let written = select_all-updated gid now prices ids (keep (is_unlisted prices) ids) s s' u in
    ap (λ t. price_in (get j t.laptops)) (sym written)
    ∙ each-prices gid now j price prices ids s p h k

true_of_not : (b : Bool) → not b ≡ false → b ≡ true
true_of_not true h = refl
true_of_not false h = cc

no_unlisted :
    (prices : List (ℕ × ℕ)) (ids : List ℕ)
    → (keep (is_unlisted prices) ids ≡ []) ↔ All (λ i. is_unlisted prices i ≡ false) ids
no_unlisted prices [] = (λ e. tt, λ e. refl)
no_unlisted prices (i ∷ ids) = elim (Bool-cases (is_unlisted prices i)) [
  | inl lost ↦ rw lost (λ e. cc, λ e. cc)
  | inr listed ↦
      rw listed (λ e. (refl, (no_unlisted prices ids).0 e), λ e. (no_unlisted prices ids).1 e.1)
]

select_all_iff :
    (gid now : ℕ) (prices : List (ℕ × ℕ)) (ids unlisted : List ℕ) (s : Store)
    → ((s' : Store) × (select_all gid now prices ids unlisted s ≡ updated s')) ↔ (unlisted ≡ [])
unfolding select_all
select_all_iff gid now prices ids [] s = (λ e. refl, λ e. (select_each gid now prices ids s, refl))
select_all_iff gid now prices ids (i ∷ is) s = (λ (s', e). cc, λ e. cc)

-- A laptop whose price is known, is not the guide's, and was not set by a guide.
abbrev pub is_other : Option ℕ → Option PriceSource → ℕ → Bool
is_other none source price = false
is_other (some stored) source price =
    not (stored == 0) && (not (stored == price) && not (is_guide source))

abbrev pub is_other_laptop : Option Laptop → Option PriceSource → ℕ → Bool
is_other_laptop none source price = false
is_other_laptop (some l) source price = is_other l.price_rm source price

abbrev pub holds_other : Store → ℕ × ℕ → Bool
holds_other s (id, price) = is_other_laptop (get id s.laptops) (latest_source id s.history) price

-- One of the rows that wait by their list alone, or of the matched ones by the laptop's price.
abbrev pub awaits : List (ℕ × ℕ) → List (ℕ × ℕ) → Store → ℕ → Bool
awaits awaiting matched s i =
    any (λ row. row.0 == i) awaiting || any (λ row. row.0 == i && holds_other s row) matched

differs-is_other :
    (o : Option ℕ) (source : Option PriceSource) (price : ℕ)
    → is_differs (decide o source price) ≡ is_other o source price
unfolding is_differs decide
differs-is_other none source price = refl
differs-is_other (some stored) source price = ground arith

waits-holds_other : (s : Store) (row : ℕ × ℕ) → waits s row ≡ holds_other s row
unfolding waits
waits-holds_other s (id, price) = elim (Option-cases (get id s.laptops)) [
  | inl gone ↦ rw (waits, gone) refl
  | inr (l, e) ↦ rw (waits, e) (differs-is_other l.price_rm (latest_source id s.history) price)
]

get-any : (rows : List (ℕ × ℕ)) (i : ℕ) → is_some (get i rows) ≡ any (λ row. row.0 == i) rows
unfolding get
get-any [] i = refl
get-any ((j, price) ∷ rows) i = ground (arith, get-any rows i)

any-keep :
    (s : Store) (i : ℕ) (matched awaiting : List (ℕ × ℕ))
    → any (λ row. row.0 == i) (keep (waits s) matched ++ awaiting)
      ≡ (any (λ row. row.0 == i && holds_other s row) matched || any (λ row. row.0 == i) awaiting)
any-keep s i [] awaiting = refl
any-keep s i (row ∷ matched) awaiting = elim (Bool-cases (holds_other s row)) [
  | inl other ↦ rw (waits-holds_other s row, other, any-keep s i matched awaiting) (ground arith)
  | inr same ↦ rw (waits-holds_other s row, same, any-keep s i matched awaiting) (ground arith)
]

is_unlisted-awaits :
    (awaiting matched : List (ℕ × ℕ)) (s : Store) (i : ℕ)
    → is_unlisted (selectable awaiting matched s) i ≡ not (awaits awaiting matched s i)
unfolding is_unlisted selectable
is_unlisted-awaits awaiting matched s i =
    rw (get-any (keep (waits s) matched ++ awaiting) i, any-keep s i matched awaiting)
      (ground arith)

All-listed :
    (awaiting matched : List (ℕ × ℕ)) (s : Store) (ids : List ℕ)
    → All (λ i. is_unlisted (selectable awaiting matched s) i ≡ false) ids
      ↔ All (λ i. awaits awaiting matched s i ≡ true) ids
All-listed awaiting matched s [] = (λ h. tt, λ h. tt)
All-listed awaiting matched s (i ∷ ids) =
    let e = is_unlisted-awaits awaiting matched s i in
    let rest = All-listed awaiting matched s ids in
    (
      λ h. (true_of_not (awaits awaiting matched s i) (sym e ∙ h.0), rest.0 h.1),
      λ h. (e ∙ ap not h.0, rest.1 h.1),
    )

-- An admin's selection is written exactly if each of its laptops is on a list that waits for an
-- admin: it is among the suffix-rule and base-code rows, or it is matched and its price is known, is
-- not the guide's and was not set by a guide. A single other laptop refuses them all.
pub use_guide_price-updated_iff :
    (gid now : ℕ) (awaiting matched : List (ℕ × ℕ)) (ids : List ℕ) (s : Store)
    → ((s' : Store) × (use_guide_price gid now awaiting matched ids s ≡ updated s'))
      ↔ All (λ i. awaits awaiting matched s i ≡ true) ids
unfolding use_guide_price
use_guide_price-updated_iff gid now awaiting matched ids s =
    let prices = selectable awaiting matched s in
    let written = select_all_iff gid now prices ids (keep (is_unlisted prices) ids) s in
    let listed = no_unlisted prices ids in
    let shown = All-listed awaiting matched s ids in
    (λ e. shown.0 (listed.0 (written.0 e)), λ e. written.1 (listed.1 (shown.1 e)))
