-- ===== src/Benchmark/Gpu.antt =====
-- resolve_gpu_benchmark of app/pickscore/benchmark_service.py. It is written over any resolver of a
-- name, which changes a state: with the caches it is the code, and without a state its meaning.
use pickwise_v2_backend.Prelude.{
  ℕ, String, Bool, true, false, ◌&&◌, Option, none, some, List, [], ◌∷◌, map, any, str_eq, ltb,
  is_some, get_text, if◌then◌else◌,
}
use pickwise_v2_backend.Benchmark.Tables.{
  apple_gpu_equivalent, integrated_gpu_by_cpu, gpu_variant_overrides,
}
use pickwise_v2_backend.Benchmark.Matching.{gpu_confidence, Matcher, Result}
use pickwise_v2_backend.Benchmark.Lookup.{Caches, resolve_benchmark}

-- The text functions of the GPU's path.
pub record GpuTexts : Type 0 where
  pub tokens : String → List String  -- `_normalize(s).replace("-", " ").split()`
  pub has_digit : String → Bool
  pub is_long : String → Bool  -- three characters or more
  pub is_laptop : String → Bool  -- `"laptop gpu" in key`
  pub laptop_base : String → Option String  -- what stands before " laptop gpu"
  pub variant_key : String → String
  pub apple_key : String → String  -- hyphens as spaces
  pub is_in : String → String → Bool  -- `cpu_key in key`
  pub size : String → ℕ

pub data Resolution : Type 0 where
  direct laptop_variant apple_equivalent integrated unresolved : Resolution

pub record GpuMatch (C : Type 0) : Type 0 where
  pub result : Result C
  pub resolution : Resolution

-- A row of the table that is first in the sort stays before one of the same length.
unfoldable pub insert_long :
    (String → ℕ) → String × String → List (String × String) → List (String × String)
insert_long size (k, v) [] = (k, v) ∷ []
insert_long size (k, v) ((j, w) ∷ rows) =
    let rest = insert_long size (k, v) rows in
    if ltb (size k) (size j) then (j, w) ∷ rest else (k, v) ∷ (j, w) ∷ rows

unfoldable pub longest_first : (String → ℕ) → List (String × String) → List (String × String)
unfolding insert_long
longest_first size [] = []
longest_first size (row ∷ rows) = insert_long size row (longest_first size rows)

unfoldable pub key_in : (String → Bool) → List (String × String) → Option String
key_in is_inside [] = none
key_in is_inside ((k, v) ∷ rows) = if is_inside k then some v else key_in is_inside rows

abbrev pub is_base : String → Option String → (String → String) → Bool
is_base canonical none variant_key = false
is_base canonical (some base) variant_key = str_eq (variant_key base) canonical

abbrev pub or_row : Option String → Option String → Option String
or_row none later = later
or_row (some name) later = some name

module _ {C : Type 0} (m : Matcher C) (texts : GpuTexts) where
  unfoldable pub has_anchor_token : String → Bool
  has_anchor_token model = any (λ t. texts.has_digit t && texts.is_long t) (texts.tokens model)

  unfoldable pub laptop_row : String → List (String × ℕ) → Option String
  laptop_row canonical [] = none
  laptop_row canonical ((name, mark) ∷ bs) =
      let later = laptop_row canonical bs in
      if is_base canonical (texts.laptop_base (m.normalize name)) texts.variant_key
      then some name
      else later

  -- `_laptop_variant`.
  unfoldable pub laptop_variant_of : String → List (String × ℕ) → Option String
  unfolding laptop_row
  laptop_variant_of key bs =
      let canonical = texts.variant_key key in
      or_row (get_text canonical gpu_variant_overrides) (laptop_row canonical bs)

  -- `_INTEGRATED_KEYS`.
  unfoldable pub integrated_keys : List (String × String)
  unfolding longest_first
  integrated_keys =
      longest_first texts.size
        (map (λ (row : String × String). (m.normalize row.0, row.1)) integrated_gpu_by_cpu)

  unfoldable pub integrated_gpu_for : String → Option String
  unfolding key_in integrated_keys
  integrated_gpu_for cpu =
      let key = m.normalize cpu in key_in (λ k. texts.is_in k key) integrated_keys

  -- `_resolved`.
  unfoldable pub resolved : Resolution → Result C → GpuMatch C
  resolved path r = record { result = r; resolution = if is_some r.score then path else unresolved }

  unfoldable pub no_gpu : GpuMatch C
  no_gpu = record {
    result = record {
      score = none;
      matched_name = none;
      match_confidence = m.no_confidence;
      is_proxy = true;
    };
    resolution = unresolved;
  }

  module _ {S : Type 0} (resolve : String → S → S × Option (Result C)) where
    unfoldable pub anchored_result : Resolution → S × Option (Result C) → S × Option (GpuMatch C)
    unfolding resolved
    anchored_result path (s, none) = (s, none)
    anchored_result path (s, some r) = (s, some (resolved path r))

    -- A mark of another part is a proxy; without a mark the next path is tried.
    unfoldable pub proxy_result :
        Resolution → (S → S × Option (GpuMatch C)) → S × Option (Result C) → S × Option (GpuMatch C)
    proxy_result path next (s, none) = (s, none)
    proxy_result path next (s, some r) =
        if is_some r.score
        then (s, some (record { result = record r { is_proxy = true }; resolution = path }))
        else next s

    unfoldable pub integrated_step : Option String → S → S × Option (GpuMatch C)
    unfolding proxy_result no_gpu
    integrated_step none s = (s, some no_gpu)
    integrated_step (some name) s =
        proxy_result integrated (λ s'. (s', some no_gpu)) (resolve name s)

    unfoldable pub apple_step : Option String → Option String → S → S × Option (GpuMatch C)
    unfolding proxy_result integrated_step
    apple_step none igpu s = integrated_step igpu s
    apple_step (some name) igpu s =
        proxy_result apple_equivalent (λ s'. integrated_step igpu s') (resolve name s)

    unfoldable pub variant_step : String → Option String → S → S × Option (GpuMatch C)
    unfolding anchored_result
    variant_step gpu none s = anchored_result direct (resolve gpu s)
    variant_step gpu (some name) s =
        if str_eq name ""
        then anchored_result direct (resolve gpu s)
        else anchored_result laptop_variant (resolve name s)

    unfoldable pub resolve_gpu : String → String → List (String × ℕ) → S → S × Option (GpuMatch C)
    unfolding has_anchor_token laptop_variant_of integrated_gpu_for variant_step apple_step
    resolve_gpu gpu cpu bs s =
        let key = m.normalize gpu in
        if has_anchor_token gpu
        then variant_step gpu (if texts.is_laptop key then none else laptop_variant_of key bs) s
        else apple_step (get_text (texts.apple_key key) apple_gpu_equivalent)
            (integrated_gpu_for cpu) s

  unfoldable pub resolve_gpu_benchmark :
      ℕ → String → String → List (String × ℕ) → Caches C → Caches C × Option (GpuMatch C)
  unfolding resolve_gpu resolve_benchmark
  resolve_gpu_benchmark now gpu cpu bs s =
      resolve_gpu (λ name s'. resolve_benchmark m now name bs gpu_confidence s') gpu cpu bs s
