-- ===== src/Throttle/Examples.antt =====
-- The throttle at concrete inputs.
use Prim.Native.Char.{code}
use pickwise_v2_backend.Prelude.{
  String, Bool-cases, inl, inr, eq_iff, ap, ℕ, suc, ◌≤◌, ◌≡◌, refl, true, false, some, none, List,
  [], ◌∷◌, arith, length, keep, All, zero, str_eq, String,
}
use pickwise_v2_backend.Throttle.{
  Hits, allowed, max_tracked_keys, lookup, record_hit, is_stale, deque_of, set_default,
}
use pickwise_v2_backend.Throttle.Deque.{hit}
use pickwise_v2_backend.Throttle.Spec.{
  serve, serve_spec, admitted, within, serve-eq-spec, admitted-le-limit,
}
use pickwise_v2_backend.Throttle.Pruning.{record_hit-hit, record_hit_lost}

abbrev times : List ℕ
times = 1 ∷ 2 ∷ 3 ∷ 11 ∷ 11 ∷ []

serve_runs : serve 2 10 [] times ≡ true ∷ true ∷ false ∷ true ∷ false ∷ []
unfolding serve hit
serve_runs = refl

serve-eq-spec_example : serve 2 10 [] times ≡ serve_spec 2 10 [] times
serve-eq-spec_example = serve-eq-spec 2 10 (omega arith) (omega arith) times (omega arith)

admitted-le-limit_example : length (keep (within 10 1) (admitted 2 10 [] [] times)) ≤ 2
admitted-le-limit_example = admitted-le-limit 2 10 (omega arith) (omega arith) 1 times (omega arith)

abbrev one_key : Hits
one_key = ("login:1.2.3.4", 5 ∷ []) ∷ ("login:9.9.9.9", 6 ∷ []) ∷ []

record_hit-hit_example :
    (lookup "login:1.2.3.4" (record_hit 3600 7 "login:1.2.3.4" 10 300 one_key).0
      ≡ some (hit 10 300 7 (deque_of "login:1.2.3.4" one_key)).0)
    × ((record_hit 3600 7 "login:1.2.3.4" 10 300 one_key).1
        ≡ (hit 10 300 7 (deque_of "login:1.2.3.4" one_key)).1)
unfolding set_default lookup
record_hit-hit_example = record_hit-hit 3600 7 "login:1.2.3.4" 10 300 one_key (omega arith)

-- A table of `n` distinct keys, none of them the caller's.
other_client : ℕ → String
other_client zero = "login:9.9.9.9"
other_client (suc n) = String.◌∷◌ "x" (other_client n)

crowd : ℕ → Hits
crowd zero = []
crowd (suc n) = (other_client n, 1000 ∷ []) ∷ crowd n

length-crowd : (n : ℕ) → length (crowd n) ≡ n
unfolding crowd
length-crowd zero = refl
length-crowd (suc n) = omega (arith, length-crowd n)

crowd-fresh : (n : ℕ) → All (λ e. is_stale 3600 1001 e.1 ≡ false) (crowd n)
unfolding crowd is_stale
crowd-fresh zero = tt
crowd-fresh (suc n) = (refl, crowd-fresh n)

abbrev first : String → ℕ
first String.[] = 0
first (String.◌∷◌ c s) = code c

other_client-ne : (n : ℕ) → str_eq (other_client n) "login:1.2.3.4" ≡ false
unfolding other_client
other_client-ne zero = refl
other_client-ne (suc n) =
    elim (Bool-cases (str_eq (String.◌∷◌ "x" (other_client n)) "login:1.2.3.4")) [
      | inl same ↦
          let e : first (String.◌∷◌ "x" (other_client n)) ≡ first "login:1.2.3.4" =
            ap first ((eq_iff (String.◌∷◌ "x" (other_client n)) "login:1.2.3.4").0 same) in
          absurd (omega (arith, e))
      | inr other ↦ other
    ]

crowd-absent : (n : ℕ) → lookup "login:1.2.3.4" (crowd n) ≡ none
unfolding crowd lookup
crowd-absent zero = refl
crowd-absent (suc n) = rw (other_client-ne n) (crowd-absent n)

record_hit_lost_example :
    record_hit 3600 1001 "login:1.2.3.4" 10 300 (crowd max_tracked_keys)
    ≡ (crowd max_tracked_keys, allowed)
record_hit_lost_example =
    record_hit_lost 3600 1001 "login:1.2.3.4" 10 300 (crowd max_tracked_keys)
      (omega (arith, length-crowd max_tracked_keys)) (crowd-fresh max_tracked_keys)
      (crowd-absent max_tracked_keys) (omega arith)
