-- ===== src/Lock/Limiter.antt =====
-- src/domain/lock/ratelimit.go: a token bucket for each peer. Tokens are float64 numbers, and how their
-- arithmetic rounds is a parameter. A float64 that is not negative stands for how many times it holds the
-- smallest positive one, so that comparing two and taking whole tokens from a bucket that has them, as
-- long as a burst is below 2⁵³, are exact. The burst is at least one, as in every configuration of
-- the repository, and the clock does not run back.
pub mod Bound
pub mod Coarse
use agent_collab.Common.{
  ℕ, ◌+◌, ◌-◌, ◌*◌, String, Bool, true, false, if◌then◌else◌, ltb, leb, Option, none, some, List,
  [], length, keep, not,
}
use agent_collab.Common.Dict.{Dict, lookup, insert, delete}
use agent_collab.Lock.Semantic.{second}

-- `1.0`, and `tokens + elapsed.Seconds() * rate` with the elapsed time in nanoseconds, as rounded.
pub record Float64 : Type 0 where
  pub one : ℕ
  pub accrue : (tokens elapsed rate : ℕ) → ℕ

pub record TokenBucket : Type 0 where
  pub tokens : ℕ
  pub last_update : ℕ

pub record RateLimitConfig : Type 0 where
  pub rate : ℕ
  pub burst : ℕ
  pub cleanup_interval : ℕ

pub record RateLimiter : Type 0 where
  pub buckets : Dict TokenBucket
  pub rate : ℕ
  pub burst : ℕ
  pub cleanup : ℕ
  -- The machine's arithmetic, which is not a field of the source's.
  pub float64 : Float64

unfoldable pub default_rate_limit_config : Float64 → RateLimitConfig
default_rate_limit_config float64 = record {
  rate = 10 * float64.one;
  burst = 20;
  cleanup_interval = 300 * second;
}

unfoldable pub new_rate_limiter : Float64 → Option RateLimitConfig → RateLimiter
unfolding default_rate_limit_config
new_rate_limiter float64 config =
    let c : RateLimitConfig = elim config [
      | none ↦ default_rate_limit_config float64
      | some c ↦ c
    ] in
    record {
      buckets = [];
      rate = c.rate;
      burst = c.burst;
      cleanup = c.cleanup_interval;
      float64 = float64;
    }

-- The burst, as tokens.
abbrev pub full : RateLimiter → ℕ
full rl = rl.burst * rl.float64.one

-- The tokens of a bucket at an instant: what it held and what came in, up to the burst.
unfoldable pub refill : RateLimiter → TokenBucket → ℕ → ℕ
refill rl b now =
    let tokens = rl.float64.accrue b.tokens (now - b.last_update) rl.rate in
    if ltb (full rl) tokens then full rl else tokens

abbrev store_bucket : RateLimiter → String → TokenBucket → RateLimiter
store_bucket rl peer b = record rl { buckets = insert peer b rl.buckets }

-- The first request of a peer is let through without a look at the burst.
unfoldable pub allow : RateLimiter → String → ℕ → RateLimiter × Bool
unfolding refill
allow rl peer now = elim (lookup peer rl.buckets) [
  | none ↦ (
    store_bucket rl peer (record { tokens = (rl.burst - 1) * rl.float64.one; last_update = now }),
    true,
  )
  | some b ↦
      let tokens = refill rl b now in
      if leb rl.float64.one tokens
      then (
        store_bucket rl peer (record { tokens = tokens - rl.float64.one; last_update = now }),
        true,
      )
      else (store_bucket rl peer (record { tokens = tokens; last_update = now }), false)
]

unfoldable pub allow_n : RateLimiter → String → ℕ → ℕ → RateLimiter × Bool
unfolding refill
allow_n rl peer n now = elim (lookup peer rl.buckets) [
  | none ↦ if ltb rl.burst n then (rl, false) else (
    store_bucket rl peer (record { tokens = (rl.burst - n) * rl.float64.one; last_update = now }),
    true,
  )
  | some b ↦
      let tokens = refill rl b now in
      if leb (n * rl.float64.one) tokens
      then (
        store_bucket rl peer (record { tokens = tokens - n * rl.float64.one; last_update = now }),
        true,
      )
      else (store_bucket rl peer (record { tokens = tokens; last_update = now }), false)
]

unfoldable pub reset : RateLimiter → String → RateLimiter
reset rl peer = record rl { buckets = delete peer rl.buckets }

-- The buckets that were used since the threshold stay.
unfoldable pub cleanup_buckets : RateLimiter → ℕ → RateLimiter
cleanup_buckets rl now = record rl {
  buckets =
      keep (λ (e : String × TokenBucket). not (ltb e.1.last_update (now - rl.cleanup))) rl.buckets;
}

unfoldable pub active_peers : RateLimiter → ℕ
active_peers rl = length rl.buckets
