-- ===== src/Reviews/Workers/Calls.antt =====
-- How many of a worker's calls to its job are successes.
use pickwise_v2_backend.Prelude.{
  ℕ, suc, ◌+◌, ◌≡◌, Bool, true, false, not, List, [], ◌∷◌, ◌++◌, arith, if◌then◌else◌,
}
use pickwise_v2_backend.Reviews.Workers.{Advance}

-- How many of the calls are successes, and how many are not.
abbrev pub successes : List Advance → ℕ
successes [] = 0
successes (a ∷ calls) = if a.succeeded then suc (successes calls) else successes calls

abbrev pub failures : List Advance → ℕ
failures [] = 0
failures (a ∷ calls) = if a.succeeded then failures calls else suc (failures calls)

abbrev pub one_if : Bool → ℕ
one_if true = 1
one_if false = 0

pub successes-append :
    (calls : List Advance) (a : Advance)
    → successes (calls ++ a ∷ []) ≡ successes calls + one_if a.succeeded
successes-append [] a = ground arith
successes-append (b ∷ calls) a = ground (arith, successes-append calls a)

pub failures-append :
    (calls : List Advance) (a : Advance)
    → failures (calls ++ a ∷ []) ≡ failures calls + one_if (not a.succeeded)
failures-append [] a = ground arith
failures-append (b ∷ calls) a = ground (arith, failures-append calls a)
