-- ===== src/Throttle/Spec.antt =====
-- The sliding-window log that the throttle promises, and the bound on the requests that it admits.
use native.Mathlib.Nat.{le_trans}
use pickwise_v2_backend.Prelude.{
  ℕ, ◌+◌, ◌≤◌, ◌<◌, ◌≡◌, refl, ap, ◌∙◌, Bool, true, false, ◌&&◌, List, [], ◌∷◌, ◌++◌, arith, ltb,
  leb, length, length-append, keep, All, Bool-cases, inl, inr, if◌then◌else◌, All-weaken, ltb→lt,
}
use pickwise_v2_backend.Throttle.{expire, judge}
use pickwise_v2_backend.Throttle.Deque.{
  is_allowed, hit, is_live, IsAscending, expire-eq-keep, keep-keep, keep-IsAscending,
  append-IsAscending, append-below, keep-append,
}

-- The requests for one key at the times given: the verdicts, in order.
unfoldable pub serve : ℕ → ℕ → List ℕ → List ℕ → List Bool
serve limit window hits [] = []
serve limit window hits (now ∷ times) =
    let (hits', v) = hit limit window now hits in is_allowed v ∷ serve limit window hits' times

-- The promise, with no deque: a request is allowed exactly if fewer than `limit` of the requests
-- allowed before it lie less than `window` back.
pub serve_spec : ℕ → ℕ → List ℕ → List ℕ → List Bool
serve_spec limit window log [] = []
serve_spec limit window log (now ∷ times) =
    let ok = ltb (length (keep (is_live window now) log)) limit in
    ok ∷ serve_spec limit window (if ok then log ++ now ∷ [] else log) times

-- The times at which the requests were allowed, after `log`.
pub admitted : ℕ → ℕ → List ℕ → List ℕ → List ℕ → List ℕ
admitted limit window hits log [] = log
admitted limit window hits log (now ∷ times) =
    let (hits', v) = hit limit window now hits in
    admitted limit window hits' (if is_allowed v then log ++ now ∷ [] else log) times

-- The deque holds what is live of the log, which is in order and not later than `last`.
record IsLog (window last : ℕ) (hits log : List ℕ) : Type 0 where
  kept : hits ≡ keep (is_live window last) log
  ascending : IsAscending log
  below : All (λ u. u ≤ last) log

-- The times in the half-open interval of length `window` from `x`.
abbrev pub within : ℕ → ℕ → ℕ → Bool
within window x t = leb x t && ltb t (x + window)

module _ (limit window : ℕ) (some_limit : 0 < limit) (some_window : 0 < window) where
  expire-log :
      (last now : ℕ) (hits log : List ℕ)
      → IsLog window last hits log
      → last ≤ now
      → expire window now hits ≡ keep (is_live window now) log
  expire-log last now hits log h le = rw h.kept (
      expire-eq-keep window now _
        (keep-IsAscending window now (is_live window last) log h.ascending)
      ∙ keep-keep window now last log le)

  judge-allowed :
      (now : ℕ) (live : List ℕ) → is_allowed (judge limit window now live) ≡ ltb (length live) limit
  unfolding judge is_allowed
  judge-allowed now [] = ground arith
  judge-allowed now (t ∷ ts) = ground arith

  IsLog-extend :
      (last now : ℕ) (hits log : List ℕ)
      → IsLog window last hits log
      → last ≤ now
      → IsLog window now (keep (is_live window now) log ++ now ∷ []) (log ++ now ∷ [])
  IsLog-extend last now hits log h le = record {
    kept = ground (arith, keep-append window now (is_live window now) log (now ∷ []));
    ascending = append-IsAscending window now last log h.ascending h.below le;
    below = append-below window now last log h.below le;
  }

  IsLog-wait :
      (last now : ℕ) (hits log : List ℕ)
      → IsLog window last hits log
      → last ≤ now
      → IsLog window now (keep (is_live window now) log) log
  IsLog-wait last now hits log h le = record {
    kept = refl;
    ascending = h.ascending;
    below = All-weaken (λ u. u ≤ last) (λ u. u ≤ now) log (λ u k. le_trans k le) h.below;
  }

  -- What a request does to the deque, by the log alone.
  hit-log :
      (last now : ℕ) (hits log : List ℕ)
      → IsLog window last hits log
      → last ≤ now
      → (is_allowed (hit limit window now hits).1
          ≡ ltb (length (keep (is_live window now) log)) limit)
        × ((hit limit window now hits).0 ≡ (
            if ltb (length (keep (is_live window now) log)) limit
            then keep (is_live window now) log ++ now ∷ []
            else keep (is_live window now) log))
  unfolding hit
  hit-log last now hits log h le =
      rw (expire-log last now hits log h le)
        (judge-allowed now _, rw (judge-allowed now (keep (is_live window now) log)))

  serve-log :
      (last : ℕ) (hits log times : List ℕ)
      → IsLog window last hits log
      → IsAscending (last ∷ times)
      → serve limit window hits times ≡ serve_spec limit window log times
  unfolding serve serve_spec
  serve-log last hits log [] h a = refl
  serve-log last hits log (now ∷ times) h a =
      let (verdict, deque) = hit-log last now hits log h a.0.0 in
      elim (Bool-cases (ltb (length (keep (is_live window now) log)) limit)) [
        | inl free ↦
            rw (verdict, deque, free)
              (ap (◌∷◌ true) (serve-log now _ _ times (IsLog-extend last now hits log h a.0.0) a.1))
        | inr full ↦
            rw (verdict, deque, full)
              (ap (◌∷◌ false)
                (serve-log now _ log times (IsLog-wait last now hits log h a.0.0) a.1))
      ]

  empty-IsLog : (now : ℕ) → IsLog window now [] []
  empty-IsLog now = record { kept = refl; ascending = tt; below = tt }

  -- For one key, from an empty deque, at times that do not run backwards, the verdicts are those of
  -- the sliding-window log: a request is admitted exactly if fewer than `limit` admitted ones lie
  -- less than `window` back, and a rejected one is not counted. The limit and the window are not 0.
  pub serve-eq-spec :
      (times : List ℕ)
      → IsAscending (0 ∷ times)
      → serve limit window [] times ≡ serve_spec limit window [] times
  serve-eq-spec times a = serve-log 0 [] [] times (empty-IsLog 0) a

  within-live :
      (x now : ℕ) (log : List ℕ)
      → within window x now ≡ true
      → length (keep (within window x) log) ≤ length (keep (is_live window now) log)
  within-live x now [] h = omega arith
  within-live x now (t ∷ ts) h = ground (arith, within-live x now ts h)

  bound_extend :
      (x now : ℕ) (log : List ℕ)
      → length (keep (is_live window now) log) < limit
      → length (keep (within window x) log) ≤ limit
      → length (keep (within window x) (log ++ now ∷ [])) ≤ limit
  bound_extend x now log free h = rw (keep-append window now (within window x) log (now ∷ [])) (
      rw (length-append (keep (within window x) log) (keep (within window x) (now ∷ [])))
        (ground (arith, within-live x now log)))

  admitted-log :
      (x last : ℕ) (hits log times : List ℕ)
      → IsLog window last hits log
      → IsAscending (last ∷ times)
      → length (keep (within window x) log) ≤ limit
      → length (keep (within window x) (admitted limit window hits log times)) ≤ limit
  unfolding admitted
  admitted-log x last hits log [] h a b = b
  admitted-log x last hits log (now ∷ times) h a b =
      let (verdict, deque) = hit-log last now hits log h a.0.0 in
      elim (Bool-cases (ltb (length (keep (is_live window now) log)) limit)) [
        | inl free ↦
            rw (verdict, deque, free)
              (admitted-log x now _ _ times (IsLog-extend last now hits log h a.0.0) a.1
                (bound_extend x now log (ltb→lt _ _ free) b))
        | inr full ↦
            rw (verdict, deque, full)
              (admitted-log x now _ log times (IsLog-wait last now hits log h a.0.0) a.1 b)
      ]

  -- For one key, from an empty deque, at times that do not run backwards, no interval of length
  -- `window`, wherever it begins, holds more than `limit` admitted requests. The limit and the
  -- window are not 0.
  pub admitted-le-limit :
      (x : ℕ) (times : List ℕ)
      → IsAscending (0 ∷ times)
      → length (keep (within window x) (admitted limit window [] [] times)) ≤ limit
  admitted-le-limit x times a = admitted-log x 0 [] [] times (empty-IsLog 0) a (omega arith)
