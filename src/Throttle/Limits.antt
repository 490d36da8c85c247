-- ===== src/Throttle/Limits.antt =====
-- Who a limit is about: `client_ip`, `rate_limit` and `check_quota` of
-- app/common/http_rate_limit.py. The texts come in as functions: the first entry of a header, a
-- name without spaces and case, and two texts joined by a colon.
use pickwise_v2_backend.Prelude.{
  ℕ, ◌*◌, ◌/◌, String, Bool, true, false, Option, none, some, str_eq, leb, if◌then◌else◌,
}
use pickwise_v2_backend.Throttle.{Hits, Verdict, allowed, retry_after, index_error, record_hit}

pub record Texts : Type 0 where
  pub first_entry : String → String  -- `forwarded.split(",")[0].strip()`
  pub normal : String → String  -- `identity.strip().lower()`
  pub joined : String → String → String  -- f"{bucket}:{identity}"

pub record Request : Type 0 where
  pub forwarded : Option String
  pub client_host : Option String

abbrev pub or_unknown_host : Option String → String
or_unknown_host none = "unknown"
or_unknown_host (some host) = host

abbrev pub is_allowed : Verdict → Bool
is_allowed allowed = true
is_allowed _ = false

-- The `Retry-After` header, in seconds.
abbrev pub wait_of : ℕ → Verdict → Option ℕ
wait_of per_second allowed = none
wait_of per_second (retry_after ticks) =
    let seconds = ticks / per_second in some (if leb seconds 1 then 1 else seconds)
wait_of per_second index_error = none

-- `per_second` is the number of clock ticks in a second.
module _ (texts : Texts) (per_second : ℕ) where
  unfoldable pub client_ip : Option String → Option String → String
  client_ip none client_host = or_unknown_host client_host
  client_ip (some header) client_host =
      let first = texts.first_entry header in
      if str_eq first "" then or_unknown_host client_host else first

  -- One hit against a key, with a window in seconds.
  unfoldable pub count_hit : ℕ → String → ℕ → ℕ → Hits → Hits × Verdict
  count_hit now key limit window hits =
      record_hit (3600 * per_second) now key limit (window * per_second) hits

  -- `rate_limit`: the seconds to wait, where the request is refused.
  unfoldable pub rate_limit : ℕ → String → ℕ → ℕ → Request → Hits → Hits × Option ℕ
  unfolding client_ip count_hit
  rate_limit now bucket limit window request hits =
      let key = texts.joined bucket (client_ip request.forwarded request.client_host) in
      let (hits', verdict) = count_hit now key limit window hits in
      (hits', wait_of per_second verdict)

  unfoldable pub check_quota : ℕ → String → String → ℕ → ℕ → Hits → Hits × Bool
  unfolding count_hit
  check_quota now bucket identity limit window hits =
      let (hits', verdict) =
        count_hit now (texts.joined bucket (texts.normal identity)) limit window hits in
      (hits', is_allowed verdict)
