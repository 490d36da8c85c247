-- ===== src/Benchmark/Lookup.antt =====
-- resolve_benchmark of app/pickscore/benchmark_service.py, with its two caches. The clock gives
-- seconds.
use pickwise_v2_backend.Prelude.{
  ℕ, ◌+◌, ◌*◌, String, Bool, true, false, ◌&&◌, Option, none, some, List, [], ◌∷◌, str_eq, ltb, get,
  ◌==◌, if◌then◌else◌,
}
use pickwise_v2_backend.Benchmark.Matching.{
  Threshold, cpu_confidence, gpu_confidence, Matcher, Result, Index, is_placeholder, build_index,
  unmatched, match_key,
}

pub record CacheKey : Type 0 where
  pub name : String
  pub table : ℕ
  pub threshold : Threshold

abbrev pub same_threshold : Threshold → Threshold → Bool
same_threshold cpu_confidence cpu_confidence = true
same_threshold gpu_confidence gpu_confidence = true
same_threshold _ _ = false

abbrev pub same_key : CacheKey → CacheKey → Bool
same_key j k =
    str_eq j.name k.name && (j.table == k.table && same_threshold j.threshold k.threshold)

-- A hash that is there keeps its place and gets the new index.
unfoldable pub put_index : ℕ → Index → List (ℕ × Index) → List (ℕ × Index)
put_index table index [] = (table, index) ∷ []
put_index table index ((j, old) ∷ rows) =
    let rest = put_index table index rows in
    if j == table then (j, index) ∷ rows else (j, old) ∷ rest

-- A result and the time it was cached at.
pub record Entry (C : Type 0) : Type 0 where
  pub result : Result C
  pub cached_at : ℕ

-- `_cache` and `_indexes`.
pub record Caches (C : Type 0) : Type 0 where
  pub cache : List (CacheKey × Entry C)
  pub indexes : List (ℕ × Index)

abbrev pub cache_ttl : ℕ
cache_ttl = 6 * 3600

module _ {C : Type 0} where
  unfoldable pub get_entry : CacheKey → List (CacheKey × Entry C) → Option (Entry C)
  get_entry k [] = none
  get_entry k ((j, e) ∷ rows) = if same_key j k then some e else get_entry k rows

  unfoldable pub put_entry :
      CacheKey → Entry C → List (CacheKey × Entry C) → List (CacheKey × Entry C)
  put_entry k e [] = (k, e) ∷ []
  put_entry k e ((j, f) ∷ rows) =
      let rest = put_entry k e rows in if same_key j k then (j, e) ∷ rows else (j, f) ∷ rest

  unfoldable pub no_caches : Caches C
  no_caches = record { cache = []; indexes = [] }

module _ {C : Type 0} (m : Matcher C) where
  unfoldable pub index_in : ℕ → List (String × ℕ) → Option Index → Caches C → Caches C × Index
  unfolding build_index put_index
  index_in table bs (some index) s = (s, index)
  index_in table bs none s =
      (record s { indexes = put_index table (build_index m bs) s.indexes }, build_index m bs)

  -- `_index`.
  unfoldable pub index_of : ℕ → List (String × ℕ) → Caches C → Caches C × Index
  unfolding index_in
  index_of table bs s = index_in table bs (get table s.indexes) s

  unfoldable pub remember :
      ℕ → CacheKey → Option (Result C) → Caches C → Caches C × Option (Result C)
  unfolding put_entry
  remember now k none s = (s, none)
  remember now k (some r) s =
      (record s { cache = put_entry k (record { result = r; cached_at = now }) s.cache }, some r)

  -- The match, where the cache does not have it.
  unfoldable pub resolve_miss :
      ℕ → CacheKey → List (String × ℕ) → Caches C → Caches C × Option (Result C)
  unfolding index_of remember match_key unmatched
  resolve_miss now k [] s = remember now k (some (unmatched m m.no_confidence)) s
  resolve_miss now k (b ∷ bs) s =
      let (s', index) = index_of k.table (b ∷ bs) s in
      remember now k (match_key m k.name index k.threshold (m.part_of k.name)) s'

  unfoldable pub resolve_entry :
      ℕ → CacheKey → List (String × ℕ) → Option (Entry C) → Caches C → Caches C × Option (Result C)
  unfolding resolve_miss
  resolve_entry now k bs none s = resolve_miss now k bs s
  resolve_entry now k bs (some e) s =
      if ltb now (e.cached_at + cache_ttl) then (s, some e.result) else resolve_miss now k bs s

  unfoldable pub key_of : String → List (String × ℕ) → Threshold → CacheKey
  key_of model bs threshold = record {
    name = m.normalize model;
    table = m.fingerprint bs;
    threshold = threshold;
  }

  unfoldable pub resolve_benchmark :
      ℕ → String → List (String × ℕ) → Threshold → Caches C → Caches C × Option (Result C)
  unfolding resolve_entry get_entry key_of is_placeholder unmatched
  resolve_benchmark now model bs threshold s =
      let k = key_of model bs threshold in
      if is_placeholder m model
      then (s, some (unmatched m m.no_confidence))
      else resolve_entry now k bs (get_entry k s.cache) s
