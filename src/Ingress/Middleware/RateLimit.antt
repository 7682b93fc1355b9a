-- ===== src/Ingress/Middleware/RateLimit.antt =====
-- internal/ingress/middleware_ratelimit.go: the sliding window of the rate limit. Redis is a parameter;
-- its state is `R`.
pub mod Overlaps
pub mod Race
pub mod Readings
pub mod Window
use momu_llmgateway.Base.{String, Bool, ℕ, Option, none, some, if◌then◌else◌}
use momu_llmgateway.Base.Int.{ℤ, pos, ◌-ℤ◌, leb_ℤ}
use momu_llmgateway.Ingress.Middleware.{GinContext, Verdict, pass, abort, is_open_path}
use momu_llmgateway.Model.{◌<>◌, Result, ok, err}

-- The pipeline of ZREMRANGEBYSCORE from 0 to a score with ZCARD, ZADD, and EXPIRE in seconds. The
-- errors of the latter two are dropped by the caller.
pub record SortedSets (R : Type 0) : Type 0 where
  pub prune_and_count : String → ℤ → R → R × Result ℤ
  pub z_add : String → ℤ → String → R → R
  pub expire : String → ℕ → R → R

module _ {R : Type 0} (redis : SortedSets R) where
  -- The two calls that note an admitted request.
  abbrev pub add_member : String → ℤ → String → R → R
  add_member rate_key now member r = redis.expire rate_key 120 (redis.z_add rate_key now member r)

  -- What follows the count; `now` in milliseconds, and the random member.
  abbrev pub admit : String → ℤ → ℤ → String → GinContext → R × Result ℤ → R × Verdict
  admit rate_key limit now member c (r, err e) = (r, pass c)
  admit rate_key limit now member c (r, ok count) =
      if leb_ℤ limit count
      then (r, abort 429 "rate_limit_exceeded")
      else (add_member rate_key now member r, pass c)

  abbrev pub limit_key : ℤ → String → String → ℤ → GinContext → R → R × Verdict
  limit_key now member key limit c r =
      let rate_key = "ratelimit:" <> key in
      if leb_ℤ limit (pos 0)
      then (r, pass c)
      else admit rate_key limit now member c (redis.prune_and_count rate_key (now -ℤ pos 60000) r)

  abbrev pub limited : ℤ → String → Option String → Option ℤ → GinContext → R → R × Verdict
  limited now member (some key) (some limit) c r = limit_key now member key limit c r
  limited now member _ _ c r = (r, pass c)

-- `RateLimitMiddleware`; a client that is nil is none.
unfoldable pub rate_limit_middleware :
    {R : Type 0} → Option (SortedSets R) → ℤ → String → GinContext → R → R × Verdict
rate_limit_middleware none now member c r = (r, pass c)
rate_limit_middleware (some redis) now member c r =
    if is_open_path c.path
    then (r, pass c)
    else limited redis now member c.api_key c.api_key_rate_limit c r
