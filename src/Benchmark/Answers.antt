-- ===== src/Benchmark/Answers.antt =====
-- The answers to a sequence of lookups, CPUs and GPUs, through one pair of caches.
use pickwise_v2_backend.Prelude.{
  ℕ, All, ◌≡◌, refl, sym, ap, ◌∙◌, inl, inr, Bool-cases, String, Option, none, some, List, [], ◌∷◌,
  map, str_eq, is_some, get_text, if◌then◌else◌,
}
use pickwise_v2_backend.Benchmark.Tables.{apple_gpu_equivalent}
use pickwise_v2_backend.Benchmark.Matching.{cpu_confidence, gpu_confidence, Matcher, Result}
use pickwise_v2_backend.Benchmark.Lookup.{Caches, no_caches, resolve_benchmark}
use pickwise_v2_backend.Benchmark.Gpu.{
  GpuTexts, Resolution, direct, laptop_variant, apple_equivalent, integrated, GpuMatch, no_gpu,
  has_anchor_token, laptop_variant_of, integrated_gpu_for, anchored_result, proxy_result,
  integrated_step, apple_step, variant_step, resolve_gpu, resolve_gpu_benchmark,
}
use pickwise_v2_backend.Benchmark.Cached.{
  IsSeparating, IsFaithful, no_caches-IsFaithful, meaning, resolve_benchmark-IsFaithful,
}

-- A resolver without a state.
abbrev pub stateless :
    {C : Type 0} → (String → Option (Result C)) → String → Unit {0} → Unit {0} × Option (Result C)
stateless f name s = (tt, f name)

module _ {C : Type 0} (m : Matcher C) (texts : GpuTexts) where
  -- A resolver whose answers do not depend on the state gives the same GPU as one without a state.
  module _ {S : Type 0} (R : String → S → S × Option (Result C)) (I : S → Type 0)
      (f : String → Option (Result C))
      (agrees : (name : String) (s : S) → I s → ((R name s).1 ≡ f name) × I (R name s).0) where
    anchored_result-stateless :
        (path : Resolution) (p : S × Option (Result C)) (o : Option (Result C))
        → (p.1 ≡ o) × I p.0
        → ((anchored_result m texts R path p).1
            ≡ (anchored_result m texts (stateless f) path (tt, o)).1)
          × I (anchored_result m texts R path p).0
    unfolding anchored_result
    anchored_result-stateless path (s, none) o h = rw (sym h.0) (refl, h.1)
    anchored_result-stateless path (s, some r) o h = rw (sym h.0) (refl, h.1)

    proxy_result-stateless :
        (path : Resolution) (next : S → S × Option (GpuMatch C))
        (next' : Unit {0} → Unit {0} × Option (GpuMatch C)) (p : S × Option (Result C))
        (o : Option (Result C))
        → ((s : S) → I s → ((next s).1 ≡ (next' tt).1) × I (next s).0)
        → (p.1 ≡ o) × I p.0
        → ((proxy_result m texts R path next p).1
            ≡ (proxy_result m texts (stateless f) path next' (tt, o)).1)
          × I (proxy_result m texts R path next p).0
    unfolding proxy_result
    proxy_result-stateless path next next' (s, none) o later h = rw (sym h.0) (refl, h.1)
    proxy_result-stateless path next next' (s, some r) o later h =
        rw (sym h.0) (elim (Bool-cases (is_some r.score)) [
          | inl marked ↦ rw marked (refl, h.1)
          | inr blank ↦ rw blank (later s h.1)
        ])

    integrated_step-stateless :
        (o : Option String) (s : S)
        → I s
        → ((integrated_step m texts R o s).1 ≡ (integrated_step m texts (stateless f) o tt).1)
          × I (integrated_step m texts R o s).0
    unfolding integrated_step
    integrated_step-stateless none s i = (refl, i)
    integrated_step-stateless (some name) s i =
        proxy_result-stateless integrated (λ s'. (s', some (no_gpu m texts)))
          (λ s'. (s', some (no_gpu m texts))) (R name s) (f name) (λ s' i'. (refl, i'))
          (agrees name s i)

    apple_step-stateless :
        (o igpu : Option String) (s : S)
        → I s
        → ((apple_step m texts R o igpu s).1 ≡ (apple_step m texts (stateless f) o igpu tt).1)
          × I (apple_step m texts R o igpu s).0
    unfolding apple_step
    apple_step-stateless none igpu s i = integrated_step-stateless igpu s i
    apple_step-stateless (some name) igpu s i =
        proxy_result-stateless apple_equivalent (λ s'. integrated_step m texts R igpu s')
          (λ s'. integrated_step m texts (stateless f) igpu s') (R name s) (f name)
          (λ s' i'. integrated_step-stateless igpu s' i') (agrees name s i)

    variant_step-stateless :
        (gpu : String) (o : Option String) (s : S)
        → I s
        → ((variant_step m texts R gpu o s).1 ≡ (variant_step m texts (stateless f) gpu o tt).1)
          × I (variant_step m texts R gpu o s).0
    unfolding variant_step
    variant_step-stateless gpu none s i =
        anchored_result-stateless direct (R gpu s) (f gpu) (agrees gpu s i)
    variant_step-stateless gpu (some name) s i = elim (Bool-cases (str_eq name "")) [
      | inl blank ↦ rw blank (anchored_result-stateless direct (R gpu s) (f gpu) (agrees gpu s i))
      | inr filled ↦
          rw filled (anchored_result-stateless laptop_variant (R name s) (f name) (agrees name s i))
    ]

    pub resolve_gpu-stateless :
        (gpu cpu : String) (bs : List (String × ℕ)) (s : S)
        → I s
        → ((resolve_gpu m texts R gpu cpu bs s).1
            ≡ (resolve_gpu m texts (stateless f) gpu cpu bs tt).1)
          × I (resolve_gpu m texts R gpu cpu bs s).0
    unfolding resolve_gpu
    resolve_gpu-stateless gpu cpu bs s i = elim (Bool-cases (has_anchor_token m texts gpu)) [
      | inl anchored ↦ rw anchored (
          variant_step-stateless gpu
            (if texts.is_laptop (m.normalize gpu)
              then none
              else laptop_variant_of m texts (m.normalize gpu) bs)
            s i)
      | inr loose ↦ rw loose (
          apple_step-stateless (get_text (texts.apple_key (m.normalize gpu)) apple_gpu_equivalent)
            (integrated_gpu_for m texts cpu) s i)
    ]

-- A lookup at a time.
pub data Call : Type 0 where
  cpu_call : ℕ → String → List (String × ℕ) → Call
  gpu_call : ℕ → String → String → List (String × ℕ) → Call

pub data Answer (C : Type 0) : Type 0 where
  cpu_answer : Option (Result C) → Answer C
  gpu_answer : Option (GpuMatch C) → Answer C

module _ {C : Type 0} (m : Matcher C) (texts : GpuTexts) where
  unfoldable pub answer : Call → Caches C → Caches C × Answer C
  unfolding resolve_benchmark resolve_gpu_benchmark
  answer (cpu_call now model bs) s =
      let (s', o) = resolve_benchmark m now model bs cpu_confidence s in (s', cpu_answer o)
  answer (gpu_call now gpu cpu bs) s =
      let (s', o) = resolve_gpu_benchmark m texts now gpu cpu bs s in (s', gpu_answer o)

  unfoldable pub answers : List Call → Caches C → List (Answer C)
  unfolding answer
  answers [] s = []
  answers (c ∷ cs) s = let (s', a) = answer c s in a ∷ answers cs s'

  -- A lookup without caches.
  abbrev reference : Call → Answer C
  reference (cpu_call now model bs) = cpu_answer (meaning m model bs cpu_confidence)
  reference (gpu_call now gpu cpu bs) =
      gpu_answer
        (resolve_gpu m texts (stateless (λ name. meaning m name bs gpu_confidence)) gpu cpu bs tt).1

  -- The tables that the calls look in are in use.
  abbrev pub LooksIn : (List (String × ℕ) → Type 0) → Call → Type 0
  LooksIn Used (cpu_call now model bs) = Used bs
  LooksIn Used (gpu_call now gpu cpu bs) = Used bs

  module _ (Used : List (String × ℕ) → Type 0) (separating : IsSeparating m Used) where
    answer-reference :
        (c : Call) (s : Caches C)
        → LooksIn Used c
        → IsFaithful m Used s
        → ((answer c s).1 ≡ reference c) × IsFaithful m Used (answer c s).0
    unfolding answer resolve_gpu_benchmark
    answer-reference (cpu_call now model bs) s u f =
        let (e, f') =
          resolve_benchmark-IsFaithful m Used separating now model bs cpu_confidence s u f in
        (ap cpu_answer e, f')
    answer-reference (gpu_call now gpu cpu bs) s u f =
        let (e, f') =
          resolve_gpu-stateless m texts
            (λ name s'. resolve_benchmark m now name bs gpu_confidence s') (IsFaithful m Used)
            (λ name. meaning m name bs gpu_confidence)
            (λ name s' i.
              resolve_benchmark-IsFaithful m Used separating now name bs gpu_confidence s' u i)
            gpu cpu bs s f in
        (ap gpu_answer e, f')

    answers-reference :
        (cs : List Call) (s : Caches C)
        → All (LooksIn Used) cs
        → IsFaithful m Used s
        → answers cs s ≡ map reference cs
    unfolding answers
    answers-reference [] s u f = refl
    answers-reference (c ∷ cs) s u f =
        let (e, f') = answer-reference c s u.0 f in
        cc (e, answers-reference cs (answer c s).0 u.1 f')

    map-reference :
        (cs : List Call)
        → All (LooksIn Used) cs
        → map (λ c. (answer c no_caches).1) cs ≡ map reference cs
    map-reference [] u = refl
    map-reference (c ∷ cs) u =
        cc
          ((answer-reference c no_caches u.0 (no_caches-IsFaithful m Used)).0, map-reference cs u.1)

  -- If different tables among those that the lookups use have different hashes, each answer of a
  -- sequence of lookups, of CPUs and GPUs in those tables and at any times, is the one that the
  -- lookup gives with empty caches.
  pub answers-alone :
      (Used : List (String × ℕ) → Type 0) (separating : IsSeparating m Used) (cs : List Call)
      → All (LooksIn Used) cs
      → answers cs no_caches ≡ map (λ c. (answer c no_caches).1) cs
  answers-alone Used separating cs u =
      answers-reference Used separating cs no_caches u (no_caches-IsFaithful m Used)
      ∙ sym (map-reference Used separating cs u)
