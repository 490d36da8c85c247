-- ===== src/PriceGuide.antt =====
-- Applying one product guide: app/laptops/price_guide_service.py. A price is a number of sen, with
-- 0 and none for a price that is not known. The matcher's result comes in as the list of the
-- matched laptops with the guide's price. `sources` is read once, before the writes.
pub mod Apply
pub mod Rerun
pub mod Select
mod Examples
use pickwise_v2_backend.Prelude.{
  ℕ, ◌+◌, Bool, true, false, not, ◌&&◌, ◌||◌, Option, none, some, List, [], ◌∷◌, ◌++◌, ltb, leb,
  ◌==◌, length, keep, any, if◌then◌else◌, get, put, map, is_some,
}

pub data Action : Type 0 where
  fill confirm differs : Action

pub data PriceSource : Type 0 where
  page apple_buy_page guide manual : PriceSource

pub record Laptop : Type 0 where
  pub price_rm : Option ℕ
  pub price_checked_at : Option ℕ

pub record History : Type 0 where
  pub laptop_id : ℕ
  pub price_rm : ℕ
  pub source : Option PriceSource
  pub price_guide_id : Option ℕ

-- The two tables. The history is newest first.
pub record Store : Type 0 where
  pub laptops : List (ℕ × Laptop)
  pub history : List History

unfoldable pub is_guide : Option PriceSource → Bool
is_guide (some guide) = true
is_guide _ = false

-- `decide`.
unfoldable pub decide : Option ℕ → Option PriceSource → ℕ → Action
unfolding is_guide
decide none latest_source guide_price = fill
decide (some stored) latest_source guide_price =
    if stored == 0
    then fill
    else if stored == guide_price
    then confirm
    else if is_guide latest_source
    then fill
    else differs

-- `_latest_sources(session).get(laptop_id)`.
unfoldable pub latest_source : ℕ → List History → Option PriceSource
latest_source id [] = none
latest_source id (h ∷ hs) = if h.laptop_id == id then h.source else latest_source id hs

-- `_write_guide_price`, on the row of the laptop.
abbrev pub priced : ℕ → ℕ → Laptop → Laptop
priced price now laptop = record laptop { price_rm = some price; price_checked_at = some now }

abbrev pub checked : ℕ → Laptop → Laptop
checked now laptop = record laptop { price_checked_at = some now }

pub write_guide_price : ℕ → ℕ → ℕ → ℕ → Laptop → Store → Store
write_guide_price guide_id now id price laptop s = record {
  laptops = put id (priced price now laptop) s.laptops;
  history =
      record {
        laptop_id = id;
        price_rm = price;
        source = some guide;
        price_guide_id = some guide_id;
      }
      ∷ s.history;
}

-- The counters of the report.
pub record Counts : Type 0 where
  pub filled : ℕ
  pub confirmed : ℕ
  pub differing : ℕ

-- `laptop.price_checked_at is None or laptop.price_checked_at < guide.uploaded_at`.
unfoldable pub is_outdated : Option ℕ → ℕ → Bool
is_outdated none uploaded_at = true
is_outdated (some t) uploaded_at = ltb t uploaded_at

-- The body of the loop, for the action that was decided.
pub act : ℕ → ℕ → ℕ → ℕ → ℕ → Laptop → Action → Store × Counts → Store × Counts
unfolding write_guide_price is_outdated
act guide_id uploaded_at now id price laptop fill (s, c) =
    (write_guide_price guide_id now id price laptop s, record c { filled = c.filled + 1 })
act guide_id uploaded_at now id price laptop differs (s, c) =
    (s, record c { differing = c.differing + 1 })
act guide_id uploaded_at now id price laptop confirm (s, c) =
    if is_outdated laptop.price_checked_at uploaded_at
    then (
      record s { laptops = put id (checked now laptop) s.laptops },
      record c { confirmed = c.confirmed + 1 },
    )
    else (s, c)

-- One matched laptop. Every matched laptop is in the catalog.
pub apply_row : ℕ → ℕ → ℕ → List History → ℕ × ℕ → Option Laptop → Store × Counts → Store × Counts
unfolding act decide latest_source
apply_row guide_id uploaded_at now before (id, price) none sc = sc
apply_row guide_id uploaded_at now before (id, price) (some laptop) sc =
    act guide_id uploaded_at now id price laptop
      (decide laptop.price_rm (latest_source id before) price) sc

pub apply_rows : ℕ → ℕ → ℕ → List History → List (ℕ × ℕ) → Store × Counts → Store × Counts
unfolding apply_row
apply_rows guide_id uploaded_at now before [] sc = sc
apply_rows guide_id uploaded_at now before (m ∷ ms) sc =
    apply_rows guide_id uploaded_at now before ms
      (apply_row guide_id uploaded_at now before m (get m.0 sc.0.laptops) sc)

abbrev pub no_counts : Counts
no_counts = record { filled = 0; confirmed = 0; differing = 0 }

-- `apply_guide`, after the match.
unfoldable pub apply_guide : ℕ → ℕ → ℕ → List (ℕ × ℕ) → Store → Store × Counts
unfolding apply_rows
apply_guide guide_id uploaded_at now matched s =
    apply_rows guide_id uploaded_at now s.history matched (s, no_counts)

-- `use_guide_price`: the laptops that wait for an admin, with the guide's price.
pub is_differs : Action → Bool
is_differs differs = true
is_differs _ = false

pub waits : Store → ℕ × ℕ → Bool
unfolding is_differs decide latest_source
waits s (id, price) = elim (get id s.laptops) [
  | none ↦ false
  | some laptop ↦ is_differs (decide laptop.price_rm (latest_source id s.history) price)
]

-- `selectable`: a differing match overrides a suffix-rule or base-code one.
unfoldable pub selectable : List (ℕ × ℕ) → List (ℕ × ℕ) → Store → List (ℕ × ℕ)
unfolding waits
selectable awaiting matched s = keep (waits s) matched ++ awaiting

unfoldable pub is_price : Option ℕ → ℕ → Bool
is_price none price = false
is_price (some stored) price = stored == price

pub select_row : ℕ → ℕ → ℕ → ℕ → Option Laptop → Store → Store
unfolding write_guide_price is_price
select_row guide_id now id price none s = s
select_row guide_id now id price (some laptop) s =
    if is_price laptop.price_rm price
    then record s { laptops = put id (checked now laptop) s.laptops }
    else write_guide_price guide_id now id price laptop s

-- One selected laptop. Every id has a price here, since the others were refused.
pub select_id : ℕ → ℕ → ℕ → Option ℕ → Store → Store
unfolding select_row
select_id guide_id now id none s = s
select_id guide_id now id (some price) s = select_row guide_id now id price (get id s.laptops) s

pub select_each : ℕ → ℕ → List (ℕ × ℕ) → List ℕ → Store → Store
unfolding select_id
select_each guide_id now prices [] s = s
select_each guide_id now prices (id ∷ ids) s =
    select_each guide_id now prices ids (select_id guide_id now id (get id prices) s)

pub data Selected : Type 0 where
  not_selectable : List ℕ → Selected
  updated : Store → Selected

pub is_unlisted : List (ℕ × ℕ) → ℕ → Bool
is_unlisted prices id = not (is_some (get id prices))

pub select_all : ℕ → ℕ → List (ℕ × ℕ) → List ℕ → List ℕ → Store → Selected
unfolding select_each
select_all guide_id now prices ids [] s = updated (select_each guide_id now prices ids s)
select_all guide_id now prices ids (i ∷ is) s = not_selectable (i ∷ is)

unfoldable pub use_guide_price : ℕ → ℕ → List (ℕ × ℕ) → List (ℕ × ℕ) → List ℕ → Store → Selected
unfolding selectable is_unlisted select_all
use_guide_price guide_id now awaiting matched ids s =
    let prices = selectable awaiting matched s in
    select_all guide_id now prices ids (keep (is_unlisted prices) ids) s

-- `delete_guide`: refused while a history row names the guide.
pub names_guide : ℕ → History → Bool
names_guide guide_id h = elim h.price_guide_id [ none ↦ false | some g ↦ g == guide_id ]

pub may_delete : ℕ → Store → Bool
unfolding names_guide
may_delete guide_id s = not (any (names_guide guide_id) s.history)
