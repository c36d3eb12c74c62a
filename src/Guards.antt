-- ===== src/Guards.antt =====
-- What stands before the handlers of the API: the rate limits of src/infra/redis/commands.ts and
-- src/api/middleware/rateLimit.ts, and the locks of idempotency keys in commands.ts.
pub mod Idempotency
pub mod Windows
pub mod Owners
use peak_pass.Prelude.{
  ℕ, suc, ◌+◌, ◌-◌, ◌*◌, Bool, true, false, ◌&&◌, not, Option, none, some, List, [], ◌∷◌, ◌==◌, leb,
  ltb, length, if◌then◌else◌,
}
use peak_pass.Redis.{Zset, zadd, zremove_to}

pub data FailMode : Type 0 where
  open_mode closed_mode : FailMode

-- The result of `checkRateLimit`.
pub record RateLimit : Type 0 where
  pub allowed : Bool
  pub count : ℕ
  pub reset_at : ℕ
  pub redis_available : Bool

-- ZREMRANGEBYSCORE from 0 to `now - window_ms`.
abbrev pub within_window : ℕ → ℕ → Zset → Zset
within_window now window_ms z = if leb window_ms now then zremove_to (now - window_ms) z else z

-- The script of `checkRateLimit` on the key of a user and an action: whether the request is
-- allowed, the count, and the key after it. The key's expiry after the window removes only what the
-- next request would remove.
unfoldable pub count_request : ℕ → ℕ → ℕ → ℕ → Zset → (Bool × ℕ) × Zset
count_request now window_ms limit request_id z =
    if leb limit (length (within_window now window_ms z))
    then ((false, length (within_window now window_ms z)), within_window now window_ms z)
    else (
      (true, suc (length (within_window now window_ms z))),
      zadd request_id now (within_window now window_ms z),
    )

abbrev pub allows : FailMode → Bool
allows FailMode.open_mode = true
allows FailMode.closed_mode = false

-- `checkRateLimit`; a key of `none` stands for a Redis that fails.
unfoldable pub check_rate_limit : ℕ → ℕ → ℕ → ℕ → FailMode → Option Zset → RateLimit × Option Zset
check_rate_limit now window_ms limit request_id fail_mode none =
    (record { allowed = allows fail_mode; count = 0; reset_at = 0; redis_available = false }, none)
check_rate_limit now window_ms limit request_id fail_mode (some z) =
    let (counted, after) = count_request now window_ms limit request_id z in
    (
      record {
        allowed = counted.0;
        count = counted.1;
        reset_at = now + window_ms;
        redis_available = true;
      },
      some after,
    )

pub data RateLimitAction : Type 0 where
  checkout reservation webhook graphql demo_session demo_settlement : RateLimitAction

-- The fields of the configuration that the middleware reads.
pub record Config : Type 0 where
  pub enable_rate_limiting : Bool
  pub rate_limit_max_requests : ℕ
  pub rate_limit_window_ms : ℕ
  pub graphql_rate_limit_max_requests : ℕ
  pub graphql_rate_limit_window_ms : ℕ
  pub rate_limit_fail_mode : FailMode

-- `rateLimitFor`: the limit and the window.
abbrev pub rate_limit_for : Config → RateLimitAction → ℕ × ℕ
rate_limit_for c RateLimitAction.demo_session = (10, 60000)
rate_limit_for c RateLimitAction.demo_settlement = (10, 60000)
rate_limit_for c RateLimitAction.graphql =
    (c.graphql_rate_limit_max_requests, c.graphql_rate_limit_window_ms)
rate_limit_for c _ = (c.rate_limit_max_requests, c.rate_limit_window_ms)

-- How the middleware ends: the handler goes on with the headers for the limit, what remains and
-- the reset, if there are any, or the answers 503 and 429.
pub data Passage : Type 0 where
  passes : Option (ℕ × (ℕ × ℕ)) → Passage
  unavailable : Passage
  exceeded : ℕ → ℕ → Passage

abbrev pub passage : FailMode → ℕ → ℕ → RateLimit → Passage
passage fail_mode limit window_ms r =
    if not r.redis_available && not (allows fail_mode)
    then Passage.unavailable
    else if r.allowed
    then Passage.passes (some (limit, (limit - r.count, r.reset_at)))
    else Passage.exceeded limit window_ms

-- `rateLimitMiddleware` for the key of the user and the action of the route.
unfoldable pub rate_limit_middleware :
    Config → ℕ → ℕ → Option RateLimitAction → Option Zset → Passage × Option Zset
rate_limit_middleware c now request_id none z = (Passage.passes none, z)
rate_limit_middleware c now request_id (some action) z =
    if not c.enable_rate_limiting
    then (Passage.passes none, z)
    else (let (limit, window_ms) = rate_limit_for c action in
        let (r, after) = check_rate_limit now window_ms limit request_id c.rate_limit_fail_mode z in
        (passage c.rate_limit_fail_mode limit window_ms r, after))

-- A value under a key with its time of expiry.
pub record Held (A : Type 0) : Type 0 where
  pub value : A
  pub expires_at : ℕ

-- GET
abbrev pub live_value : {A : Type 0} → ℕ → Option (Held A) → Option A
live_value now none = none
live_value now (some h) = if ltb now h.expires_at then some h.value else none

-- `tryAcquireIdempotencyLock`: SET NX EX with the token; the answer is the token.
unfoldable pub try_acquire_idempotency_lock :
    ℕ → ℕ → ℕ → Option (Held ℕ) → Option ℕ × Option (Held ℕ)
try_acquire_idempotency_lock now ttl_seconds token lock = elim (live_value now lock) [
  | none ↦ (some token, some (record { value = token; expires_at = now + 1000 * ttl_seconds }))
  | some held ↦ (none, lock)
]

-- `releaseIdempotencyLock`
unfoldable pub release_idempotency_lock : ℕ → ℕ → Option (Held ℕ) → Option (Held ℕ)
release_idempotency_lock now token lock = elim (live_value now lock) [
  | none ↦ none
  | some held ↦ if held == token then none else lock
]
