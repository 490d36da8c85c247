-- ===== src/Benchmark/Cached.antt =====
-- The caches change no answer.
use mathlib.Core.Path.{subst}
use pickwise_v2_backend.Prelude.{
  ℕ, ◌≡◌, refl, sym, ap, ◌∙◌, inl, inr, Bool-cases, Option-cases, String, Bool, true, ◌&&◌, Option,
  none, some, List, [], ◌∷◌, str_eq, eq_iff, ltb, All, arith, get, ==_iff, ◌==◌, ◌+◌, if◌then◌else◌,
}
use pickwise_v2_backend.Benchmark.Matching.{
  Threshold, cpu_confidence, gpu_confidence, Matcher, Result, Index, is_placeholder, build_index,
  unmatched, match_key, fresh_match,
}
use pickwise_v2_backend.Benchmark.Lookup.{
  CacheKey, put_index, same_threshold, same_key, Entry, Caches, cache_ttl, get_entry, put_entry,
  no_caches, index_in, index_of, remember, resolve_miss, resolve_entry, key_of, resolve_benchmark,
}

and_split : (a b : Bool) → (a && b) ≡ true → (a ≡ true) × (b ≡ true)
and_split a b h = ground arith

same_threshold-eq : (s t : Threshold) → same_threshold s t ≡ true → s ≡ t
same_threshold-eq cpu_confidence cpu_confidence h = refl
same_threshold-eq gpu_confidence gpu_confidence h = refl
same_threshold-eq cpu_confidence gpu_confidence h = cc
same_threshold-eq gpu_confidence cpu_confidence h = cc

same_key-eq : (j k : CacheKey) → same_key j k ≡ true → j ≡ k
same_key-eq j k h =
    let (a, bc) =
      and_split (str_eq j.name k.name)
        ((j.table == k.table) && same_threshold j.threshold k.threshold) h in
    let (b, c) = and_split (j.table == k.table) (same_threshold j.threshold k.threshold) bc in
    let p = (eq_iff j.name k.name).0 a in
    let q = (==_iff j.table k.table).0 b in
    let r = same_threshold-eq j.threshold k.threshold c in
    λ i. record { name = p i; table = q i; threshold = r i }

some-inj {ℓ} : {A : Type ℓ} {v w : A} → some v ≡ some w → v ≡ w
some-inj h = cc

module _ {C : Type 0} (P : CacheKey → Entry C → Type 0) where
  abbrev Holds : CacheKey × Entry C → Type 0
  Holds (k, e) = P k e

  All-get_entry :
      (k : CacheKey) (rows : List (CacheKey × Entry C)) (e : Entry C)
      → All Holds rows
      → get_entry k rows ≡ some e
      → P k e
  unfolding get_entry
  All-get_entry k [] e h at = cc
  All-get_entry k ((j, f) ∷ rows) e h at = elim (Bool-cases (same_key j k)) [
    | inl here ↦
        let found : get_entry k ((j, f) ∷ rows) ≡ some f = rw here refl in
        let e' : f ≡ e = some-inj (sym found ∙ at) in
        subst (λ i. P i e) (same_key-eq j k here) (subst (λ x. P j x) e' h.0)
    | inr past ↦
        let later : get_entry k ((j, f) ∷ rows) ≡ get_entry k rows = rw past refl in
        All-get_entry k rows e h.1 (sym later ∙ at)
  ]

  All-put_entry :
      (k : CacheKey) (e : Entry C) (rows : List (CacheKey × Entry C))
      → P k e
      → All Holds rows
      → All Holds (put_entry k e rows)
  unfolding put_entry
  All-put_entry k e [] p h = (p, tt)
  All-put_entry k e ((j, f) ∷ rows) p h = elim (Bool-cases (same_key j k)) [
    | inl here ↦ rw here (subst (λ i. P i e) (sym (same_key-eq j k here)) p, h.1)
    | inr past ↦ rw past (h.0, All-put_entry k e rows p h.1)
  ]

module _ (P : ℕ × Index → Type 0) where
  All-get_index :
      (k : ℕ) (rows : List (ℕ × Index)) (index : Index)
      → All P rows
      → get k rows ≡ some index
      → P (k, index)
  unfolding get
  All-get_index k [] index h at = cc
  All-get_index k ((j, old) ∷ rows) index h at = elim (Bool-cases (j == k)) [
    | inl here ↦
        let found : get k ((j, old) ∷ rows) ≡ some old = rw here refl in
        let e : old ≡ index = some-inj (sym found ∙ at) in
        subst (λ i. P (i, index)) ((==_iff j k).0 here) (subst (λ x. P (j, x)) e h.0)
    | inr past ↦
        let later : get k ((j, old) ∷ rows) ≡ get k rows = rw past refl in
        All-get_index k rows index h.1 (sym later ∙ at)
  ]

  All-put_index :
      (k : ℕ) (index : Index) (rows : List (ℕ × Index))
      → P (k, index)
      → All P rows
      → All P (put_index k index rows)
  unfolding put_index
  All-put_index k index [] p h = (p, tt)
  All-put_index k index ((j, old) ∷ rows) p h = elim (Bool-cases (j == k)) [
    | inl here ↦ rw here (subst (λ i. P (i, index)) (sym ((==_iff j k).0 here)) p, h.1)
    | inr past ↦ rw past (h.0, All-put_index k index rows p h.1)
  ]

module _ {C : Type 0} (m : Matcher C) where
  -- Different tables among those in use have different hashes.
  abbrev pub IsSeparating : (List (String × ℕ) → Type 0) → Type 0
  IsSeparating Used =
      (a b : List (String × ℕ)) → Used a → Used b → m.fingerprint a ≡ m.fingerprint b → a ≡ b

  abbrev EntryHolds : (List (String × ℕ) → Type 0) → CacheKey → Entry C → Type 0
  EntryHolds Used k e =
      (bs : List (String × ℕ))
      → Used bs
      → m.fingerprint bs ≡ k.table
      → fresh_match m k.name bs k.threshold ≡ some e.result

  abbrev IndexHolds : (List (String × ℕ) → Type 0) → ℕ × Index → Type 0
  IndexHolds Used (table, index) =
      (bs : List (String × ℕ)) → Used bs → m.fingerprint bs ≡ table → build_index m bs ≡ index

  -- Each cached result is what its key resolves to from scratch in a table in use with its hash.
  pub record IsFaithful (Used : List (String × ℕ) → Type 0) (s : Caches C) : Type 0 where
    pub entries : All (Holds (EntryHolds Used)) s.cache
    pub tables : All (IndexHolds Used) s.indexes

  pub no_caches-IsFaithful : (Used : List (String × ℕ) → Type 0) → IsFaithful Used no_caches
  unfolding no_caches
  no_caches-IsFaithful Used = record { entries = tt; tables = tt }

  -- The result without caches.
  abbrev pub meaning : String → List (String × ℕ) → Threshold → Option (Result C)
  meaning model bs threshold =
      if is_placeholder m model
      then some (unmatched m m.no_confidence)
      else fresh_match m (m.normalize model) bs threshold

  module _ (Used : List (String × ℕ) → Type 0) (separating : IsSeparating Used) where
    index_of-IsFaithful :
        (bs : List (String × ℕ)) (s : Caches C)
        → Used bs
        → IsFaithful Used s
        → ((index_of m (m.fingerprint bs) bs s).1 ≡ build_index m bs)
          × IsFaithful Used (index_of m (m.fingerprint bs) bs s).0
    unfolding index_of index_in
    index_of-IsFaithful bs s u f = elim (Option-cases (get (m.fingerprint bs) s.indexes)) [
      | inl missing ↦ rw missing (
        refl,
        record {
          entries = f.entries;
          tables =
              All-put_index (IndexHolds Used) (m.fingerprint bs) (build_index m bs) s.indexes
                (λ bs' u' same. ap (build_index m) (separating bs' bs u' u same)) f.tables;
        },
      )
      | inr (index, there) ↦ rw there (
        sym (
            All-get_index (IndexHolds Used) (m.fingerprint bs) s.indexes index f.tables there bs u
              refl),
        f,
      )
    ]

    remember-IsFaithful :
        (now : ℕ) (k : CacheKey) (o : Option (Result C)) (s : Caches C)
        → ((bs : List (String × ℕ))
            → Used bs
            → m.fingerprint bs ≡ k.table
            → fresh_match m k.name bs k.threshold ≡ o)
        → IsFaithful Used s
        → ((remember m now k o s).1 ≡ o) × IsFaithful Used (remember m now k o s).0
    unfolding remember
    remember-IsFaithful now k none s h f = (refl, f)
    remember-IsFaithful now k (some r) s h f = (
      refl,
      record {
        entries =
            All-put_entry (EntryHolds Used) k (record { result = r; cached_at = now }) s.cache h
              f.entries;
        tables = f.tables;
      },
    )

    -- The key under which a call looks for its result.
    abbrev at : String → List (String × ℕ) → Threshold → CacheKey
    at name bs threshold = record { name = name; table = m.fingerprint bs; threshold = threshold }

    same_table :
        (name : String) (bs : List (String × ℕ)) (threshold : Threshold) (o : Option (Result C))
        → Used bs
        → fresh_match m name bs threshold ≡ o
        → (bs' : List (String × ℕ)) → Used bs'
        → m.fingerprint bs' ≡ m.fingerprint bs
        → fresh_match m name bs' threshold ≡ o
    same_table name bs threshold o u h bs' u' same =
        ap (λ t. fresh_match m name t threshold) (separating bs' bs u' u same) ∙ h

    resolve_miss-IsFaithful :
        (now : ℕ) (name : String) (threshold : Threshold) (bs : List (String × ℕ)) (s : Caches C)
        → Used bs
        → IsFaithful Used s
        → ((resolve_miss m now (at name bs threshold) bs s).1 ≡ fresh_match m name bs threshold)
          × IsFaithful Used (resolve_miss m now (at name bs threshold) bs s).0
    unfolding resolve_miss fresh_match
    resolve_miss-IsFaithful now name threshold [] s u f =
        remember-IsFaithful now (at name [] threshold) (some (unmatched m m.no_confidence)) s
          (same_table name [] threshold (some (unmatched m m.no_confidence)) u refl) f
    resolve_miss-IsFaithful now name threshold (b ∷ bs) s u f =
        let (built, f') = index_of-IsFaithful (b ∷ bs) s u f in
        rw built (
          remember-IsFaithful now (at name (b ∷ bs) threshold)
            (match_key m name (build_index m (b ∷ bs)) threshold (m.part_of name))
            (index_of m (m.fingerprint (b ∷ bs)) (b ∷ bs) s).0
            (same_table name (b ∷ bs) threshold
              (match_key m name (build_index m (b ∷ bs)) threshold (m.part_of name)) u refl)
            f')

    resolve_entry-IsFaithful :
        (now : ℕ) (name : String) (threshold : Threshold) (bs : List (String × ℕ))
        (o : Option (Entry C)) (s : Caches C)
        → get_entry (at name bs threshold) s.cache ≡ o
        → Used bs
        → IsFaithful Used s
        → ((resolve_entry m now (at name bs threshold) bs o s).1 ≡ fresh_match m name bs threshold)
          × IsFaithful Used (resolve_entry m now (at name bs threshold) bs o s).0
    unfolding resolve_entry
    resolve_entry-IsFaithful now name threshold bs none s h u f =
        resolve_miss-IsFaithful now name threshold bs s u f
    resolve_entry-IsFaithful now name threshold bs (some e) s h u f =
        elim (Bool-cases (ltb now (e.cached_at + cache_ttl))) [
          | inl young ↦ rw young (
            sym (
                All-get_entry (EntryHolds Used) (at name bs threshold) s.cache e f.entries h bs u
                  refl),
            f,
          )
          | inr old ↦ rw old (resolve_miss-IsFaithful now name threshold bs s u f)
        ]

    pub resolve_benchmark-IsFaithful :
        (now : ℕ) (model : String) (bs : List (String × ℕ)) (threshold : Threshold) (s : Caches C)
        → Used bs
        → IsFaithful Used s
        → ((resolve_benchmark m now model bs threshold s).1 ≡ meaning model bs threshold)
          × IsFaithful Used (resolve_benchmark m now model bs threshold s).0
    unfolding resolve_benchmark key_of
    resolve_benchmark-IsFaithful now model bs threshold s u f =
        elim (Bool-cases (is_placeholder m model)) [
          | inl blank ↦ rw blank (refl, f)
          | inr name ↦ rw name (
              resolve_entry-IsFaithful now (m.normalize model) threshold bs
                (get_entry (at (m.normalize model) bs threshold) s.cache) s refl u f)
        ]
