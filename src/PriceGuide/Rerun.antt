-- ===== src/PriceGuide/Rerun.antt =====
-- Applying a guide a second time.
use pickwise_v2_backend.Prelude.{
  ℕ, ◌≤◌, ◌≡◌, ◌≢◌, refl, sym, ap, ◌∙◌, false, Option, none, some, List, [], ◌∷◌, arith, ◌==◌,
  ==_refl, get, get-put, All, All-weaken, Bool-cases, inl, inr,
}
use pickwise_v2_backend.PriceGuide.{
  Action, fill, confirm, differs, PriceSource, Laptop, History, Store, Counts, decide,
  latest_source, priced, checked, write_guide_price, is_outdated, act, apply_row, apply_rows,
  no_counts, apply_guide,
}

some_eq {ℓ} : {A : Type ℓ} {x y : A} → some x ≡ some y → x ≡ y
some_eq h = cc

confirm-ne-fill : confirm ≢ fill
confirm-ne-fill h = cc

differs-ne-fill : differs ≢ fill
differs-ne-fill h = cc

differs-ne-confirm : differs ≢ confirm
differs-ne-confirm h = cc

-- Nothing is left to do for a laptop at a price.
record IsSettled (up : ℕ) (l : Laptop) (source : Option PriceSource) (price : ℕ) : Type 0 where
  unfilled : decide l.price_rm source price ≢ fill
  fresh : decide l.price_rm source price ≡ confirm → is_outdated l.price_checked_at up ≡ false

abbrev Settled : ℕ → Store → ℕ × ℕ → Type 0
Settled up s m =
    (l : Laptop) → get m.0 s.laptops ≡ some l → IsSettled up l (latest_source m.0 s.history) m.1

-- A settled row writes nothing.
act-settled :
    (gid up now id price : ℕ) (l : Laptop) (a : Action) (source : Option PriceSource)
    (sc : Store × Counts)
    → decide l.price_rm source price ≡ a
    → IsSettled up l source price
    → ((act gid up now id price l a sc).0 ≡ sc.0)
      × ((act gid up now id price l a sc).1.filled ≡ sc.1.filled)
      × ((act gid up now id price l a sc).1.confirmed ≡ sc.1.confirmed)
unfolding act
act-settled gid up now id price l fill source (s, c) d h = absurd (h.unfilled d)
act-settled gid up now id price l confirm source (s, c) d h = rw (h.fresh d) (refl, refl, refl)
act-settled gid up now id price l differs source (s, c) d h = (refl, refl, refl)

row-Settled :
    (gid up now : ℕ) (m : ℕ × ℕ) (o : Option Laptop) (sc : Store × Counts) (before : List History)
    → get m.0 sc.0.laptops ≡ o
    → before ≡ sc.0.history
    → Settled up sc.0 m
    → ((apply_row gid up now before m o sc).0 ≡ sc.0)
      × ((apply_row gid up now before m o sc).1.filled ≡ sc.1.filled)
      × ((apply_row gid up now before m o sc).1.confirmed ≡ sc.1.confirmed)
unfolding apply_row
row-Settled gid up now m none sc before e b h = (refl, refl, refl)
row-Settled gid up now (id, price) (some l) sc before e b h =
    act-settled gid up now id price l _ (latest_source id before) sc refl (rw b (h l e))

rows-Settled :
    (gid up now : ℕ) (ms : List (ℕ × ℕ)) (s : Store) (sc : Store × Counts)
    → sc.0 ≡ s
    → All (Settled up s) ms
    → ((apply_rows gid up now s.history ms sc).0 ≡ s)
      × ((apply_rows gid up now s.history ms sc).1.filled ≡ sc.1.filled)
      × ((apply_rows gid up now s.history ms sc).1.confirmed ≡ sc.1.confirmed)
unfolding apply_rows
rows-Settled gid up now [] s sc e h = (e, refl, refl)
rows-Settled gid up now (m ∷ ms) s sc e h =
    let (same, f, c) =
      row-Settled gid up now m (get m.0 sc.0.laptops) sc s.history refl
        (ap (λ t. t.history) (sym e)) (rw e h.0) in
    let (same', f', c') = rows-Settled gid up now ms s _ (same ∙ e) h.1 in (same', f' ∙ f, c' ∙ c)

-- What one row leaves of the other laptops.
act-others :
    (gid up now id price j : ℕ) (l : Laptop) (a : Action) (sc : Store × Counts)
    → (id == j) ≡ false
    → (get j (act gid up now id price l a sc).0.laptops ≡ get j sc.0.laptops)
      × (latest_source j (act gid up now id price l a sc).0.history ≡ latest_source j sc.0.history)
unfolding act write_guide_price latest_source
act-others gid up now id price j l fill (s, c) other =
    (rw (get-put id j (priced price now l) s.laptops, other), rw other)
act-others gid up now id price j l confirm (s, c) other =
    elim (Bool-cases (is_outdated l.price_checked_at up)) [
      | inl old ↦ rw old (rw (get-put id j (checked now l) s.laptops, other), refl)
      | inr new ↦ rw new (refl, refl)
    ]
act-others gid up now id price j l differs (s, c) other = (refl, refl)

row-others :
    (gid up now j : ℕ) (before : List History) (m : ℕ × ℕ) (o : Option Laptop) (sc : Store × Counts)
    → (m.0 == j) ≡ false
    → (get j (apply_row gid up now before m o sc).0.laptops ≡ get j sc.0.laptops)
      × (latest_source j (apply_row gid up now before m o sc).0.history
          ≡ latest_source j sc.0.history)
unfolding apply_row
row-others gid up now j before (id, price) none sc other = (refl, refl)
row-others gid up now j before (id, price) (some l) sc other =
    act-others gid up now id price j l (decide l.price_rm (latest_source id before) price) sc other

rows-others :
    (gid up now j : ℕ) (before : List History) (ms : List (ℕ × ℕ)) (sc : Store × Counts)
    → All (λ m. (m.0 == j) ≡ false) ms
    → (get j (apply_rows gid up now before ms sc).0.laptops ≡ get j sc.0.laptops)
      × (latest_source j (apply_rows gid up now before ms sc).0.history
          ≡ latest_source j sc.0.history)
unfolding apply_rows
rows-others gid up now j before [] sc h = (refl, refl)
rows-others gid up now j before (m ∷ ms) sc h =
    let (a, b) = row-others gid up now j before m (get m.0 sc.0.laptops) sc h.0 in
    let (a', b') = rows-others gid up now j before ms _ h.1 in (a' ∙ a, b' ∙ b)

priced-confirm :
    (source : Option PriceSource) (price : ℕ)
    → (price == 0) ≡ false
    → decide (some price) source price ≡ confirm
unfolding decide
priced-confirm source price h = ground arith

-- A price just checked is not outdated.
not_outdated : (now up : ℕ) → up ≤ now → is_outdated (some now) up ≡ false
unfolding is_outdated
not_outdated now up h = ground arith

-- One row leaves its own laptop settled.
act-settles :
    (gid up now id price : ℕ) (l : Laptop) (a : Action) (before : List History)
    (sc : Store × Counts)
    → (price == 0) ≡ false
    → up ≤ now
    → get id sc.0.laptops ≡ some l
    → latest_source id sc.0.history ≡ latest_source id before
    → decide l.price_rm (latest_source id before) price ≡ a
    → Settled up (act gid up now id price l a sc).0 (id, price)
unfolding act write_guide_price
act-settles gid up now id price l fill before (s, c) k le e b d = λ l' q.
    let stored : priced price now l ≡ l' =
      some_eq (sym (rw (get-put id id (priced price now l) s.laptops, e, ==_refl id)) ∙ q) in
    rw (← stored) (record {
      unfilled = λ f. confirm-ne-fill (sym (priced-confirm _ price k) ∙ f);
      fresh = λ _. not_outdated now up le;
    })
act-settles gid up now id price l confirm before (s, c) k le e b d =
    elim (Bool-cases (is_outdated l.price_checked_at up)) [
      | inl old ↦
          rw (old, act)
            (λ l' q.
              let stored : checked now l ≡ l' =
                some_eq (sym (rw (get-put id id (checked now l) s.laptops, e, ==_refl id)) ∙ q) in
              rw (← stored) (record {
                unfilled = λ f. confirm-ne-fill (sym d ∙ rw b at f);
                fresh = λ _. not_outdated now up le;
              }))
      | inr new ↦
          rw (new, act)
            (λ l' q.
              let stored : l ≡ l' = some_eq (sym e ∙ q) in
              rw (← stored)
                (record { unfilled = λ f. confirm-ne-fill (sym d ∙ rw b at f); fresh = λ _. new }))
    ]
act-settles gid up now id price l differs before (s, c) k le e b d = λ l' q.
    let stored : l ≡ l' = some_eq (sym e ∙ q) in
    rw (← stored) (record {
      unfilled = λ f. differs-ne-fill (sym d ∙ rw b at f);
      fresh = λ f. absurd (differs-ne-confirm (sym d ∙ rw b at f));
    })

row-settles :
    (gid up now : ℕ) (before : List History) (m : ℕ × ℕ) (o : Option Laptop) (sc : Store × Counts)
    → (m.1 == 0) ≡ false
    → up ≤ now
    → get m.0 sc.0.laptops ≡ o
    → latest_source m.0 sc.0.history ≡ latest_source m.0 before
    → Settled up (apply_row gid up now before m o sc).0 m
unfolding apply_row
row-settles gid up now before (id, price) none sc k le e b = λ l q. cc
row-settles gid up now before (id, price) (some l) sc k le e b =
    act-settles gid up now id price l (decide l.price_rm (latest_source id before) price) before sc
      k le e b refl

-- Each laptop is matched once.
abbrev pub IsDistinct : List (ℕ × ℕ) → Type 0
IsDistinct [] = Unit
IsDistinct (m ∷ ms) = All (λ n. ((n.0 == m.0) ≡ false) × ((m.0 == n.0) ≡ false)) ms × IsDistinct ms

Settled-later :
    (gid up now : ℕ) (before : List History) (m : ℕ × ℕ) (ms : List (ℕ × ℕ)) (sc : Store × Counts)
    → All (λ n. (n.0 == m.0) ≡ false) ms
    → Settled up sc.0 m
    → Settled up (apply_rows gid up now before ms sc).0 m
Settled-later gid up now before m ms sc others h =
    let (same, sources) = rows-others gid up now m.0 before ms sc others in
    λ l q. rw sources (h l (sym same ∙ q))

untouched_sources :
    (gid up now : ℕ) (before : List History) (m : ℕ × ℕ) (o : Option Laptop) (ms : List (ℕ × ℕ))
    (sc : Store × Counts)
    → All (λ n. ((n.0 == m.0) ≡ false) × ((m.0 == n.0) ≡ false)) ms
    → All (λ n. latest_source n.0 sc.0.history ≡ latest_source n.0 before) ms
    → All
        (λ n.
          latest_source n.0 (apply_row gid up now before m o sc).0.history
          ≡ latest_source n.0 before)
        ms
untouched_sources gid up now before m o [] sc d h = tt
untouched_sources gid up now before m o (n ∷ ms) sc d h = (
  (row-others gid up now n.0 before m o sc d.0.1).1 ∙ h.0,
  untouched_sources gid up now before m o ms sc d.1 h.1,
)

rows-settle :
    (gid up now : ℕ) (before : List History) (ms : List (ℕ × ℕ)) (sc : Store × Counts)
    → All (λ m. (m.1 == 0) ≡ false) ms
    → up ≤ now
    → IsDistinct ms
    → All (λ m. latest_source m.0 sc.0.history ≡ latest_source m.0 before) ms
    → All (Settled up (apply_rows gid up now before ms sc).0) ms
unfolding apply_rows
rows-settle gid up now before [] sc k le d b = tt
rows-settle gid up now before (m ∷ ms) sc k le d b =
    let next = apply_row gid up now before m (get m.0 sc.0.laptops) sc in
    (
      Settled-later gid up now before m ms next
          (All-weaken (λ n. ((n.0 == m.0) ≡ false) × ((m.0 == n.0) ≡ false))
            (λ n. (n.0 == m.0) ≡ false) ms (λ n p. p.0) d.0)
          (row-settles gid up now before m (get m.0 sc.0.laptops) sc k.0 le refl b.0),
      rows-settle gid up now before ms next k.1 le d.1
          (untouched_sources gid up now before m (get m.0 sc.0.laptops) ms sc d.0 b.1),
    )

same_sources :
    (h : List History) (ms : List (ℕ × ℕ)) → All (λ m. latest_source m.0 h ≡ latest_source m.0 h) ms
same_sources h [] = tt
same_sources h (m ∷ ms) = (refl, same_sources h ms)

-- Applying the same guide again, at any later time, changes no laptop and no history row, and
-- counts nothing as filled or confirmed. Each matched laptop is matched once, no guide price is 0,
-- and the guide was uploaded before the first apply.
pub apply_guide_again :
    (gid up now later : ℕ) (matched : List (ℕ × ℕ)) (s : Store)
    → All (λ m. (m.1 == 0) ≡ false) matched
    → IsDistinct matched
    → up ≤ now
    → ((apply_guide gid up later matched (apply_guide gid up now matched s).0).0
        ≡ (apply_guide gid up now matched s).0)
      × ((apply_guide gid up later matched (apply_guide gid up now matched s).0).1.filled ≡ 0)
      × ((apply_guide gid up later matched (apply_guide gid up now matched s).0).1.confirmed ≡ 0)
unfolding apply_guide
apply_guide_again gid up now later matched s k d le =
    let first = (apply_rows gid up now s.history matched (s, no_counts)).0 in
    rows-Settled gid up later matched first (first, no_counts) refl
      (rows-settle gid up now s.history matched (s, no_counts) k le d
        (same_sources s.history matched))
