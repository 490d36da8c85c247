-- ===== src/Benchmark/Examples.antt =====
-- Lookups at concrete inputs, with a matcher that knows equal names.
use pickwise_v2_backend.Prelude.{
  ℕ, ◌≤◌, ◌≡◌, refl, sym, ap, ◌∙◌, String, Bool, true, false, ◌&&◌, Option, none, some, List, [],
  ◌∷◌, map, any, str_eq, leb, All, size, length, ◌%◌, ◌^◌, inl, inr, ◌⊎◌, arith, get, get_text,
  put_text, if◌then◌else◌,
}
use pickwise_v2_backend.Benchmark.Tables.{integrated_gpu_by_cpu}
use pickwise_v2_backend.Benchmark.Matching.{Threshold, cpu_confidence, gpu_confidence, Matcher}
use pickwise_v2_backend.Benchmark.Lookup.{Caches, no_caches, put_index, resolve_benchmark}
use pickwise_v2_backend.Benchmark.Gpu.{
  GpuTexts, GpuMatch, Resolution, laptop_variant, integrated, integrated_keys, integrated_gpu_for,
  resolve_gpu_benchmark,
}
use pickwise_v2_backend.Benchmark.Cached.{IsSeparating}
use pickwise_v2_backend.Benchmark.Answers.{Call, cpu_call, gpu_call, answer, answers, answers-alone}
use pickwise_v2_backend.Benchmark.Integrated.{integrated_gpu_for-longest}

-- An equal name with full confidence, or the first one with little.
abbrev closest : String → List String → Option (String × ℕ)
closest key [] = none
closest key (n ∷ ns) =
    if str_eq n key
    then some (n, 100)
    else if any (str_eq key) ns
    then some (key, 100)
    else some (n, 50)

abbrev reaches : ℕ → Threshold → Bool
reaches c cpu_confidence = leb 90 c
reaches c gpu_confidence = leb 85 c

abbrev matcher : Matcher ℕ
matcher = record {
  normalize = λ s. s;
  stripped = λ s. s;
  part_of = λ s. none;
  carries = λ part s. false;
  is_before = λ a b. true;
  best = closest;
  no_confidence = 0;
  full_confidence = 100;
  reaches = reaches;
  fingerprint = λ bs. length bs % 2 ^ 61;
}

abbrev texts : GpuTexts
texts = record {
  tokens = λ s. s ∷ [];
  has_digit = λ s. str_eq s "rtx 4060";
  is_long = λ s. true;
  is_laptop = λ s. false;
  laptop_base = λ s. if str_eq s "rtx 4060 laptop gpu" then some "rtx 4060" else none;
  variant_key = λ s. s;
  apple_key = λ s. s;
  is_in = λ key name. str_eq key name;
  size = size;
}

abbrev gpus : List (String × ℕ)
gpus = ("rtx 4060 laptop gpu", 17000) ∷ ("Intel Arc", 4000) ∷ ("z1", 6428) ∷ []

abbrev cpus : List (String × ℕ)
cpus = ("z1", 24613) ∷ []

-- The same name in both tables, and then again.
abbrev calls : List Call
calls =
    cpu_call 1 "z1" cpus
    ∷ gpu_call 2 "z1" "core ultra 7 165h" gpus
    ∷ gpu_call 3 "z1" "core ultra 7 165h" gpus
    ∷ []

abbrev InUse : List (String × ℕ) → Type 0
InUse table = (table ≡ cpus) ⊎ (table ≡ gpus)

separating : IsSeparating matcher InUse
separating a b (inl p) (inl q) h = p ∙ sym q
separating a b (inr p) (inr q) h = p ∙ sym q
separating a b (inl p) (inr q) h =
    let e : 1 ≡ 3 = sym (ap matcher.fingerprint p) ∙ (h ∙ ap matcher.fingerprint q) in
    absurd (omega (arith, e))
separating a b (inr p) (inl q) h =
    let e : 3 ≡ 1 = sym (ap matcher.fingerprint p) ∙ (h ∙ ap matcher.fingerprint q) in
    absurd (omega (arith, e))

answers-alone_example :
    answers matcher texts calls no_caches ≡ map (λ c. (answer matcher texts c no_caches).1) calls
answers-alone_example =
    answers-alone matcher texts InUse separating calls (inl refl, (inr refl, (inr refl, tt)))

integrated_gpu_for-longest_example :
    (name : String) × (any
        (λ r. str_eq r.0 name && str_eq r.1 "Intel Arc")
        (integrated_keys matcher texts)
      ≡ true)
    × (str_eq name "core ultra 7 165h" ≡ true)
    × All
        (λ (r : String × String). (str_eq r.0 "core ultra 7 165h" ≡ true) → size r.0 ≤ size name)
        (map (λ (row : String × String). (row.0, row.1)) integrated_gpu_by_cpu)
unfolding integrated_gpu_for integrated_keys
integrated_gpu_for-longest_example =
    integrated_gpu_for-longest matcher texts "core ultra 7 165h" "Intel Arc" refl

-- The caches after a lookup in the same table.
abbrev warm : Caches ℕ
warm = (resolve_benchmark matcher 1 "z1" gpus gpu_confidence no_caches).0

abbrev score_of : Option (GpuMatch ℕ) → Option (Option ℕ × Resolution)
score_of none = none
score_of (some g) = some (g.result.score, g.resolution)

rtx_runs :
    score_of (resolve_gpu_benchmark matcher texts 5 "rtx 4060" "core ultra 7 165h" gpus no_caches).1
    ≡ some (some 17000, laptop_variant)
unfolding resolve_gpu_benchmark get_text no_caches put_text get put_index
rtx_runs = refl

arc_runs :
    score_of (resolve_gpu_benchmark matcher texts 5 "arc" "core ultra 7 165h" gpus no_caches).1
    ≡ some (some 4000, integrated)
unfolding resolve_gpu_benchmark get_text no_caches put_text get put_index
arc_runs = refl
