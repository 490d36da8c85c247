-- ===== src/Throttle/Deque.antt =====
-- One key's deque: what `_record` does to it, and its old hits.
use native.Mathlib.Nat.{le_trans, le_refl}
use pickwise_v2_backend.Prelude.{
  ℕ, ◌+◌, ◌≤◌, ◌<◌, ◌≡◌, refl, Bool, true, false, List, [], ◌∷◌, ◌++◌, arith, ltb, keep, All,
  Bool-cases, inl, inr, if◌then◌else◌, All-append, All-keep, All-weaken,
}
use pickwise_v2_backend.Throttle.{Verdict, allowed, expire, judge}

unfoldable pub is_allowed : Verdict → Bool
is_allowed allowed = true
is_allowed _ = false

-- The deque and the verdict after a request at `now`, where nothing is pruned.
unfoldable pub hit : ℕ → ℕ → ℕ → List ℕ → List ℕ × Verdict
unfolding expire judge is_allowed
hit limit window now hits =
    let live = expire window now hits in
    let v = judge limit window now live in (if is_allowed v then live ++ now ∷ [] else live, v)

-- A hit that is still in the window at `now`.
abbrev pub is_live : ℕ → ℕ → ℕ → Bool
is_live window now t = ltb now (t + window)

abbrev pub IsAscending : List ℕ → Type 0
IsAscending [] = Unit
IsAscending (t ∷ ts) = All (λ u. t ≤ u) ts × IsAscending ts

module _ (window now : ℕ) where
  keep-All :
      (t : ℕ) (ts : List ℕ)
      → now < t + window
      → All (λ u. t ≤ u) ts
      → keep (is_live window now) ts ≡ ts
  keep-All t [] h a = refl
  keep-All t (u ∷ ts) h a = ground (arith, keep-All t ts h a.1)

  -- On a deque in the order of time, dropping the old hits from the front drops every old hit.
  pub expire-eq-keep :
      (ts : List ℕ) → IsAscending ts → expire window now ts ≡ keep (is_live window now) ts
  unfolding expire
  expire-eq-keep [] a = refl
  expire-eq-keep (t ∷ ts) a = ground (arith, expire-eq-keep ts a.1, keep-All t ts)

  -- What is live now was live before.
  pub keep-keep :
      (last : ℕ) (ts : List ℕ)
      → last ≤ now
      → keep (is_live window now) (keep (is_live window last) ts) ≡ keep (is_live window now) ts
  keep-keep last [] h = refl
  keep-keep last (t ∷ ts) h = ground (arith, keep-keep last ts h)

  pub keep-IsAscending : (p : ℕ → Bool) (ts : List ℕ) → IsAscending ts → IsAscending (keep p ts)
  keep-IsAscending p [] a = tt
  keep-IsAscending p (t ∷ ts) a = elim (Bool-cases (p t)) [
    | inl yes_p ↦ rw yes_p (All-keep (λ u. t ≤ u) p ts a.0, keep-IsAscending p ts a.1)
    | inr no_p ↦ rw no_p (keep-IsAscending p ts a.1)
  ]

  pub append-IsAscending :
      (last : ℕ) (ts : List ℕ)
      → IsAscending ts
      → All (λ u. u ≤ last) ts
      → last ≤ now
      → IsAscending (ts ++ now ∷ [])
  append-IsAscending last [] a b h = (tt, tt)
  append-IsAscending last (t ∷ ts) a b h = (
    All-append (λ u. t ≤ u) ts (now ∷ []) a.0 (le_trans b.0 h, tt),
    append-IsAscending last ts a.1 b.1 h,
  )

  pub append-below :
      (last : ℕ) (ts : List ℕ)
      → All (λ u. u ≤ last) ts
      → last ≤ now
      → All (λ u. u ≤ now) (ts ++ now ∷ [])
  append-below last ts b h =
      All-append (λ u. u ≤ now) ts (now ∷ [])
        (All-weaken (λ u. u ≤ last) (λ u. u ≤ now) ts (λ u k. le_trans k h) b) (le_refl now, tt)

  pub keep-append : (p : ℕ → Bool) (ts us : List ℕ) → keep p (ts ++ us) ≡ keep p ts ++ keep p us
  keep-append p [] us = refl
  keep-append p (t ∷ ts) us = ground (arith, keep-append p ts us)
