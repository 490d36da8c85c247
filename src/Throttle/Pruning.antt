-- ===== src/Throttle/Pruning.antt =====
-- The whole table: one request acts on its own key's deque, until the table is full.
use pickwise_v2_backend.Prelude.{
  ℕ, ◌≤◌, ◌<◌, ◌≡◌, refl, ap, ◌∙◌, String, true, false, none, some, List, [], ◌∷◌, ◌++◌, arith, ltb,
  leb, str_eq, eq_iff, lt→ltb, length, length-append, All, Bool-cases, inl, inr, if◌then◌else◌,
  Option-cases,
}
use pickwise_v2_backend.Throttle.{
  Hits, Verdict, allowed, retry_after, index_error, expire, judge, lookup, store, set_default,
  deque_of, or_empty, max_tracked_keys, is_stale, prune_all, append_hit, settle, record_hit,
}
use pickwise_v2_backend.Throttle.Deque.{is_allowed, hit}

lookup-store :
    (key j : String) (hits old : List ℕ) (table : Hits)
    → lookup key table ≡ some old
    → lookup j (store key hits table) ≡ (if str_eq key j then some hits else lookup j table)
unfolding lookup store
lookup-store key j hits old [] e = cc
lookup-store key j hits old ((k, h) ∷ table) e =
    ground (arith, eq_iff k key, eq_iff k j, eq_iff key j, lookup-store key j hits old table)

lookup-append :
    (key j : String) (table : Hits)
    → lookup key table ≡ none
    → lookup j (table ++ (key, []) ∷ []) ≡ (if str_eq key j then some [] else lookup j table)
unfolding lookup
lookup-append key j [] e = refl
lookup-append key j ((k, h) ∷ table) e =
    ground (arith, eq_iff k key, eq_iff k j, eq_iff key j, lookup-append key j table)

-- After `setdefault` the key is there, with the deque that it had or an empty one.
lookup-set_default :
    (key j : String) (table : Hits)
    → lookup j (set_default key table)
      ≡ (if str_eq key j then some (deque_of key table) else lookup j table)
unfolding set_default
lookup-set_default key j table = elim (Option-cases (lookup key table)) [
  | inl absent ↦ rw absent (lookup-append key j table absent)
  | inr (hits, there) ↦ rw there (ground (arith, eq_iff key j))
]

settle-quiet :
    (hour now : ℕ) (key : String) (v : Verdict) (table : Hits)
    → length table ≤ max_tracked_keys
    → settle hour now key v table ≡ (if is_allowed v then append_hit key now table else table, v)
unfolding settle is_allowed
settle-quiet hour now key allowed table h = ground arith
settle-quiet hour now key (retry_after n) table h = refl
settle-quiet hour now key index_error table h = refl

length-store :
    (key : String) (hits : List ℕ) (table : Hits) → length (store key hits table) ≡ length table
unfolding store
length-store key hits [] = refl
length-store key hits ((k, h) ∷ table) = ground (arith, length-store key hits table)

-- Appending to a deque that the table holds.
lookup-append_hit :
    (key j : String) (now : ℕ) (hits : List ℕ) (table : Hits)
    → lookup key table ≡ some hits
    → lookup j (append_hit key now table)
      ≡ (if str_eq key j then some (hits ++ now ∷ []) else lookup j table)
unfolding append_hit
lookup-append_hit key j now hits table e = rw e (lookup-store key j (hits ++ now ∷ []) hits table e)

lookup-append_hit_ne :
    (key j : String) (now : ℕ) (hits : List ℕ) (table : Hits)
    → str_eq key j ≡ false
    → lookup key table ≡ some hits
    → lookup j (append_hit key now table) ≡ lookup j table
lookup-append_hit_ne key j now hits table other e =
    lookup-append_hit key j now hits table e ∙ rw other

-- The table before the verdict is drawn.
abbrev opened : ℕ → ℕ → String → Hits → Hits
opened window now key table =
    store key (expire window now (deque_of key (set_default key table))) (set_default key table)

str_eq_self : (key : String) → str_eq key key ≡ true
str_eq_self key = (eq_iff key key).1 refl

there-set_default :
    (key : String) (table : Hits) → lookup key (set_default key table) ≡ some (deque_of key table)
there-set_default key table = lookup-set_default key key table ∙ rw (str_eq_self key)

deque_of-set_default :
    (key : String) (table : Hits) → deque_of key (set_default key table) ≡ deque_of key table
deque_of-set_default key table = ap or_empty (there-set_default key table)

lookup-opened :
    (window now : ℕ) (key j : String) (table : Hits)
    → lookup j (opened window now key table)
      ≡ (if str_eq key j then some (expire window now (deque_of key table)) else lookup j table)
lookup-opened window now key j table =
    lookup-store key j _ _ (set_default key table) (there-set_default key table)
    ∙ rw (deque_of-set_default key table) (elim (Bool-cases (str_eq key j)) [
      | inl same ↦ rw same
      | inr other ↦ rw (other, lookup-set_default key j table, other)
    ])

module _ (hour now : ℕ) (key : String) (limit window : ℕ) (table : Hits) where
  record_hit-quiet :
      length (set_default key table) ≤ max_tracked_keys
      → record_hit hour now key limit window table ≡ (
        if is_allowed (hit limit window now (deque_of key table)).1
            then append_hit key now (opened window now key table)
            else opened window now key table,
        (hit limit window now (deque_of key table)).1,
      )
  unfolding record_hit hit
  record_hit-quiet small =
      settle-quiet hour now key
        (judge limit window now (expire window now (deque_of key (set_default key table))))
        (opened window now key table)
        (rw
          (length-store key (expire window now (deque_of key (set_default key table)))
            (set_default key table))
          small)
      ∙ rw (deque_of-set_default key table)

  -- While the table with the request's own key added to it holds at most 10,000 keys, a request does
  -- to its own key's deque what `hit` does, and gives its verdict.
  pub record_hit-hit :
      length (set_default key table) ≤ max_tracked_keys
      → (lookup key (record_hit hour now key limit window table).0
          ≡ some (hit limit window now (deque_of key table)).0)
        × ((record_hit hour now key limit window table).1
            ≡ (hit limit window now (deque_of key table)).1)
  unfolding hit
  record_hit-hit small =
      let here = lookup-opened window now key key table ∙ rw (str_eq_self key) in
      elim (Bool-cases (is_allowed (hit limit window now (deque_of key table)).1)) [
        | inl free ↦ (
          rw (record_hit-quiet small, free)
              (lookup-append_hit key key now (expire window now (deque_of key table))
                  (opened window now key table) here
                ∙ rw (str_eq_self key)),
          rw (record_hit-quiet small),
        )
        | inr full ↦ (rw (record_hit-quiet small, full) here, rw (record_hit-quiet small))
      ]

  -- It leaves the deque of every other key as it was.
  pub record_hit-others :
      (j : String)
      → length (set_default key table) ≤ max_tracked_keys
      → str_eq key j ≡ false
      → lookup j (record_hit hour now key limit window table).0 ≡ lookup j table
  record_hit-others j small other =
      let here = lookup-opened window now key key table ∙ rw (str_eq_self key) in
      let there = lookup-opened window now key j table ∙ rw other in
      elim (Bool-cases (is_allowed (hit limit window now (deque_of key table)).1)) [
        | inl free ↦
            rw (record_hit-quiet small, free)
              (lookup-append_hit_ne key j now (expire window now (deque_of key table))
                  (opened window now key table) other here
                ∙ there)
        | inr full ↦ rw (record_hit-quiet small, full) there
      ]

  store-append :
      (hits : List ℕ) (entries : Hits)
      → lookup key entries ≡ none
      → store key hits (entries ++ (key, []) ∷ []) ≡ entries ++ (key, hits) ∷ []
  unfolding store lookup
  store-append hits [] e = rw (str_eq_self key)
  store-append hits ((k, h) ∷ entries) e = ground (arith, store-append hits entries)

  -- An entry whose last hit is less than an hour old.
  abbrev pub IsFresh : String × List ℕ → Type 0
  IsFresh e = is_stale hour now e.1 ≡ false

  prune-fresh :
      (entries : Hits)
      → All IsFresh entries
      → prune_all hour now (entries ++ (key, []) ∷ []) ≡ entries
  unfolding prune_all
  prune-fresh [] h = refl
  prune-fresh ((k, hits) ∷ entries) h = rw h.0 (ap (◌∷◌ (k, hits)) (prune-fresh entries h.1))

  -- With 10,000 keys in the table, each with a hit in the last hour, a request for a key that is
  -- not among them is admitted and not counted: the table stays as it was, so that the next request
  -- for the key is admitted too, whatever the limit. The limit is not 0.
  pub record_hit_lost :
      max_tracked_keys ≤ length table
      → All IsFresh table
      → lookup key table ≡ none
      → 0 < limit
      → record_hit hour now key limit window table ≡ (table, allowed)
  unfolding record_hit set_default judge expire settle append_hit
  record_hit_lost full fresh absent some_limit =
      rw (absent, new_deque)
        (rw (store-append [] table absent, no_hits) (rw (over, prune-fresh table fresh, absent)))
    where
      new_deque : lookup key (table ++ (key, []) ∷ []) ≡ some []
      new_deque = lookup-append key key table absent ∙ rw (str_eq_self key)

      no_hits : leb limit 0 ≡ false
      no_hits = ground arith

      over : ltb max_tracked_keys (length (table ++ (key, []) ∷ [])) ≡ true
      over = lt→ltb _ _ (omega (arith, length-append table ((key, []) ∷ [])))
