-- ===== src/Throttle.antt =====
-- Request throttling: app/common/http_rate_limit.py. A time is a number of clock ticks, and the
-- clock does not run backwards. `_hits` is an association list in the order of insertion. A deque
-- is a list, oldest hit first. `_record` holds a reference to its key's deque: where the pruning
-- removes the key, the hit is appended to a deque that the table no longer holds.
pub mod Deque
pub mod Spec
pub mod Pruning
pub mod Limits
mod Examples
use pickwise_v2_backend.Prelude.{
  ℕ, suc, ◌+◌, ◌-◌, ◌/◌, String, Bool, true, false, not, ◌||◌, Option, none, some, List, [], ◌∷◌,
  ◌++◌, ltb, leb, str_eq, length, keep, if◌then◌else◌,
}

abbrev pub Hits : Type 0
Hits = List (String × List ℕ)

-- `del hits[0]` while the oldest hit has left the window: `now - hits[0] >= window`.
pub expire : ℕ → ℕ → List ℕ → List ℕ
expire window now [] = []
expire window now (t ∷ ts) =
    let rest = expire window now ts in if leb (t + window) now then rest else t ∷ ts

pub data Verdict : Type 0 where
  allowed : Verdict
  retry_after : ℕ → Verdict
  index_error : Verdict  -- `hits[0]` of an empty deque

-- The test on one deque whose old hits are gone.
pub judge : ℕ → ℕ → ℕ → List ℕ → Verdict
judge limit window now hits =
    if leb limit (length hits)
    then (elim hits [ [] ↦ index_error | t ∷ ts ↦ retry_after (window - (now - t)) ])
    else allowed

unfoldable pub lookup : String → Hits → Option (List ℕ)
lookup key [] = none
lookup key ((k, hits) ∷ rest) = if str_eq k key then some hits else lookup key rest

pub store : String → List ℕ → Hits → Hits
store key hits [] = []
store key hits ((k, old) ∷ rest) =
    if str_eq k key then (k, hits) ∷ rest else (k, old) ∷ store key hits rest

-- `setdefault`: the table with the key in it, and its deque.
unfoldable pub default_in : String → Option (List ℕ) → Hits → Hits
default_in key none table = table ++ (key, []) ∷ []
default_in key (some _) table = table

unfoldable pub set_default : String → Hits → Hits
unfolding default_in
set_default key table = default_in key (lookup key table) table

abbrev pub or_empty : Option (List ℕ) → List ℕ
or_empty none = []
or_empty (some hits) = hits

abbrev pub deque_of : String → Hits → List ℕ
deque_of key table = or_empty (lookup key table)

abbrev pub max_tracked_keys : ℕ
max_tracked_keys = 10_000

unfoldable pub last_of : ℕ → List ℕ → ℕ
last_of t [] = t
last_of t (u ∷ ts) = last_of u ts

-- `not hits or now - hits[-1] > 3600`; `hour` is the number of ticks in 3600 seconds.
unfoldable pub is_stale : ℕ → ℕ → List ℕ → Bool
unfolding last_of
is_stale hour now [] = true
is_stale hour now (t ∷ ts) = ltb (last_of t ts + hour) now

-- `_prune_all`.
pub prune_all : ℕ → ℕ → Hits → Hits
unfolding is_stale
prune_all hour now table = keep (λ e. not (is_stale hour now e.1)) table

-- `hits.append(now)`, seen through the table.
pub append_in : String → ℕ → Option (List ℕ) → Hits → Hits
append_in key now none table = table
append_in key now (some hits) table = store key (hits ++ now ∷ []) table

pub append_hit : String → ℕ → Hits → Hits
unfolding append_in
append_hit key now table = append_in key now (lookup key table) table

-- The rest of `_record` after the old hits are gone.
pub settle : ℕ → ℕ → String → Verdict → Hits → Hits × Verdict
unfolding prune_all append_hit
settle hour now key allowed table = (
  append_hit key now
      (if ltb max_tracked_keys (length table) then prune_all hour now table else table),
  allowed,
)
settle hour now key v table = (table, v)

-- `_record`.
unfoldable pub record_hit : ℕ → ℕ → String → ℕ → ℕ → Hits → Hits × Verdict
unfolding set_default expire judge settle
record_hit hour now key limit window hits =
    let table = set_default key hits in
    let live = expire window now (deque_of key table) in
    settle hour now key (judge limit window now live) (store key live table)
