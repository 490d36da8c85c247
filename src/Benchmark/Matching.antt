-- ===== src/Benchmark/Matching.antt =====
-- A name against a table of benchmarks, without the caches: the rest of resolve_benchmark in
-- app/pickscore/benchmark_service.py. Nothing stands for an exception of Python.
use pickwise_v2_backend.Prelude.{
  ℕ, String, Bool, false, ◌||◌, Option, none, some, List, [], ◌∷◌, map, keep, any, str_eq, get_text,
  put_text, if◌then◌else◌,
}
use pickwise_v2_backend.Benchmark.Tables.{placeholders}

-- CPU_CONFIDENCE_THRESHOLD and GPU_CONFIDENCE_THRESHOLD.
pub data Threshold : Type 0 where
  cpu_confidence gpu_confidence : Threshold

-- `C` is the type of a confidence, a float.
pub record Matcher (C : Type 0) : Type 0 where
  pub normalize : String → String  -- `_normalize`
  pub stripped : String → String  -- `model_string.strip().lower()`
  pub part_of : String → Option String  -- `_QUALCOMM_PART.search(key)`
  pub carries : String → String → Bool  -- `token.search(n)`
  pub is_before : String → String → Bool  -- the order of texts
  pub best : String → List String → Option (String × C)  -- `process.extractOne`
  pub no_confidence : C
  pub full_confidence : C
  pub reaches : C → Threshold → Bool
  pub fingerprint : List (String × ℕ) → ℕ  -- the 64 bits of `hash(tuple(benchmarks))`

pub record Result (C : Type 0) : Type 0 where
  pub score : Option ℕ
  pub matched_name : Option String
  pub match_confidence : C
  pub is_proxy : Bool

-- The two dicts of `_index`.
pub record Index : Type 0 where
  pub by_norm : List (String × String)
  pub marks : List (String × ℕ)

abbrev pub first_of : String × String → String
first_of (k, v) = k

unfoldable pub index_names :
    (String → String) → List (String × ℕ) → List (String × String) → List (String × String)
index_names normalize [] rows = rows
index_names normalize ((name, mark) ∷ bs) rows =
    index_names normalize bs (put_text (normalize name) name rows)

unfoldable pub index_marks : List (String × ℕ) → List (String × ℕ) → List (String × ℕ)
index_marks [] rows = rows
index_marks ((name, mark) ∷ bs) rows = index_marks bs (put_text name mark rows)

unfoldable pub insert_by : (String → String → Bool) → String → List String → List String
insert_by is_before n [] = n ∷ []
insert_by is_before n (k ∷ ks) =
    let rest = insert_by is_before n ks in if is_before k n then k ∷ rest else n ∷ k ∷ ks

-- `sorted`.
unfoldable pub sort_by : (String → String → Bool) → List String → List String
unfolding insert_by
sort_by is_before [] = []
sort_by is_before (n ∷ ns) = insert_by is_before n (sort_by is_before ns)

module _ {C : Type 0} (m : Matcher C) where
  unfoldable pub is_placeholder : String → Bool
  is_placeholder model = str_eq model "" || any (str_eq (m.stripped model)) placeholders

  unfoldable pub build_index : List (String × ℕ) → Index
  unfolding index_names index_marks
  build_index bs = record { by_norm = index_names m.normalize bs []; marks = index_marks bs [] }

  unfoldable pub unmatched : C → Result C
  unmatched c = record { score = none; matched_name = none; match_confidence = c; is_proxy = false }

  unfoldable pub with_mark : C → String → Option ℕ → Option (Result C)
  with_mark c name none = none
  with_mark c name (some mark) = some (record {
    score = some mark;
    matched_name = some name;
    match_confidence = c;
    is_proxy = false;
  })

  unfoldable pub with_name : C → Index → Option String → Option (Result C)
  unfolding with_mark
  with_name c index none = none
  with_name c index (some name) = with_mark c name (get_text name index.marks)

  unfoldable pub weak_name : C → Option String → Option (Result C)
  unfolding unmatched
  weak_name c none = none
  weak_name c (some name) = some (unmatched c)

  unfoldable pub fuzzy_result : Index → Threshold → Option (String × C) → Option (Result C)
  unfolding with_name weak_name unmatched
  fuzzy_result index threshold none = some (unmatched m.no_confidence)
  fuzzy_result index threshold (some (k, c)) =
      if m.reaches c threshold
      then with_name c index (get_text k index.by_norm)
      else weak_name c (get_text k index.by_norm)

  unfoldable pub exact_result : Index → Option (String × C) → Option (Result C)
  unfolding with_name
  exact_result index none = none
  exact_result index (some (k, c)) = with_name m.full_confidence index (get_text k index.by_norm)

  -- The names that carry the part number, and what is done where there are none.
  unfoldable pub same_part : String → Index → Threshold → List String → Option (Result C)
  unfolding fuzzy_result exact_result
  same_part key index threshold [] =
      fuzzy_result index threshold (m.best key (map first_of index.by_norm))
  same_part key index threshold (n ∷ ns) = exact_result index (m.best key (n ∷ ns))

  unfoldable pub match_key : String → Index → Threshold → Option String → Option (Result C)
  unfolding same_part fuzzy_result sort_by
  match_key key index threshold none =
      fuzzy_result index threshold (m.best key (map first_of index.by_norm))
  match_key key index threshold (some part) =
      same_part key index threshold
        (sort_by m.is_before (keep (m.carries part) (map first_of index.by_norm)))

  -- What a name that is no placeholder resolves to, from scratch.
  unfoldable pub fresh_match : String → List (String × ℕ) → Threshold → Option (Result C)
  unfolding match_key build_index unmatched
  fresh_match key [] threshold = some (unmatched m.no_confidence)
  fresh_match key (b ∷ bs) threshold =
      match_key key (build_index (b ∷ bs)) threshold (m.part_of key)
