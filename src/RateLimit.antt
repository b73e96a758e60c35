-- ===== src/RateLimit.antt =====
-- app/ratelimit.py: the token bucket limiter. Time is counted in nanoseconds, and tokens in units
-- of 1/(60 · 10^9) token, so that one nanosecond refills exactly `per_minute` units: the source's
-- floats without their rounding. `time.monotonic` enters as the argument `now`.
pub mod Valid
pub mod Level
pub mod Window
pub mod Client
mod Tests
use webhook_inbox.Prelude.{
  ℕ, ◌+◌, ◌-◌, ◌*◌, ◌/◌, Bool, true, false, not, ◌&&◌, ◌||◌, Option, none, some, [], List, ◌∷◌, ltb,
  leb, ◌==◌, if◌then◌else◌, min, max,
}
use webhook_inbox.Prelude.Text.{Str}
use webhook_inbox.Prelude.Dict.{Dict, lookup, insert, filter_values}

-- One second, in nanoseconds.
abbrev pub second : ℕ
second = 1_000_000_000

-- One token, in units.
abbrev pub token : ℕ
token = 60_000_000_000

abbrev pub prune_interval : ℕ
prune_interval = 60_000_000_000

pub record Bucket : Type 0 where
  pub tokens : ℕ
  pub updated : ℕ

pub record RateLimiter : Type 0 where
  pub enabled : Bool
  pub capacity : ℕ
  pub rate : ℕ
  pub buckets : Dict Bucket
  pub pruned_at : ℕ

-- RateLimiter(per_minute, enabled)
unfoldable pub new : ℕ → Bool → RateLimiter
new per_minute enabled = record {
  enabled = enabled && ltb 0 per_minute;
  capacity = per_minute * token;
  rate = per_minute;
  buckets = [];
  pruned_at = 0;
}

unfoldable pub idle_limit : RateLimiter → ℕ
idle_limit l = if l.rate == 0 then prune_interval else l.capacity / l.rate

unfoldable pub prune : ℕ → RateLimiter → RateLimiter
unfolding idle_limit
prune now l = if ltb (now - l.pruned_at) prune_interval then l else record l {
  buckets = filter_values (λ bucket. ltb (now - bucket.updated) (idle_limit l)) l.buckets;
  pruned_at = now;
}

-- `self._buckets.get(key)`, or the fresh bucket in its place.
unfoldable pub bucket_of : ℕ → ℕ → Option Bucket → Bucket
bucket_of capacity now none = record { tokens = capacity; updated = now }
bucket_of capacity now (some bucket) = bucket

unfoldable pub refill : RateLimiter → ℕ → Bucket → ℕ
refill l now bucket = min l.capacity (bucket.tokens + (now - bucket.updated) * l.rate)

-- Whether a bucket with this many tokens lets a request through, and what it has left then.
unfoldable pub spend : ℕ → Bool × ℕ
spend tokens = if ltb tokens token then (false, tokens) else (true, tokens - token)

-- `allow` after the prune: the bucket is refilled, stamped and spent from.
unfoldable pub take_token : Str → ℕ → RateLimiter → Bool × RateLimiter
unfolding bucket_of refill spend
take_token key now l =
    let (allowed, left) = spend (refill l now (bucket_of l.capacity now (lookup key l.buckets))) in
    (allowed, record l { buckets = insert key (record { tokens = left; updated = now }) l.buckets })

unfoldable pub allow : Str → ℕ → RateLimiter → Bool × RateLimiter
allow key now l = if not l.enabled then (true, l) else take_token key now (prune now l)

abbrev retry_of : RateLimiter → Option Bucket → ℕ
retry_of l none = 1
retry_of l (some bucket) =
    if not l.enabled then 1 else max 1 ((token - bucket.tokens) / (l.rate * second) + 1)

-- `missing / self.rate` is a number of seconds: units over units for each second.
unfoldable pub retry_after : Str → RateLimiter → ℕ
retry_after key l = retry_of l (lookup key l.buckets)
