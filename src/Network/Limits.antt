-- ===== src/Network/Limits.antt =====
-- network.rs: `NetworkManager`, `RateLimiter` and `RateLimitBucket`. Instants count nanoseconds; each
-- reading of the clock in a call is an argument of it. The locks, which nothing poisons, are left
-- out: each call is one step.
pub mod Calls
pub mod Window
use post_urbit.Prelude.{
  ℕ, Bytes, Bool, true, false, ◌||◌, ◌+◌, ◌-◌, ◌*◌, ◌^◌, min, Option, none, some, ltb, leb,
  if◌then◌else◌, nat_eq, list_eq, pair_eq, [],
}
use post_urbit.Prelude.Dict
use post_urbit.Prelude.Dict.{Dict}
use post_urbit.Network.Errors.{NetworkResult, ok, fail}

abbrev pub default_requests_per_minute : ℕ
default_requests_per_minute = 100

abbrev pub default_requests_per_day : ℕ
default_requests_per_day = 10000

abbrev pub default_bytes_per_day : ℕ
default_bytes_per_day = 104857600

-- `Duration::from_secs`
abbrev pub from_secs : ℕ → ℕ
from_secs secs = secs * 1000000000

pub record NetworkLimits : Type 0 where
  pub requests_per_minute : ℕ
  pub requests_per_day : ℕ
  pub bytes_per_day : ℕ

pub record NetworkLimitsOverride : Type 0 where
  pub requests_per_minute : Option ℕ
  pub requests_per_day : Option ℕ

pub record RateLimitBucket : Type 0 where
  pub minute_start : ℕ
  pub day_start : ℕ
  pub minute_count : ℕ
  pub day_count : ℕ
  pub day_bytes : ℕ

abbrev pub RateLimiter : Type 0
RateLimiter = Dict (Bytes × Bytes) RateLimitBucket

pub record NetworkManager : Type 0 where
  pub limiter : RateLimiter
  pub overrides : Dict Bytes (Dict Bytes NetworkLimitsOverride)

-- what the clock shows at `Instant::now` of a new bucket, and at the two tests and the two resets
-- of `rollover`
pub record Clock : Type 0 where
  pub created : ℕ
  pub minute_read : ℕ
  pub minute_reset : ℕ
  pub day_read : ℕ
  pub day_reset : ℕ

-- `u64::saturating_add`
abbrev pub saturating_add : ℕ → ℕ → ℕ
saturating_add a b = min (a + b) (2 ^ 64 - 1)

unfoldable pub new_bucket : ℕ → RateLimitBucket
new_bucket now = record {
  minute_start = now;
  day_start = now;
  minute_count = 0;
  day_count = 0;
  day_bytes = 0;
}

unfoldable pub rollover_minute : Clock → RateLimitBucket → RateLimitBucket
rollover_minute clock bucket =
    if leb (from_secs 60) (clock.minute_read - bucket.minute_start)
    then record bucket { minute_start = clock.minute_reset; minute_count = 0 }
    else bucket

unfoldable pub rollover_day : Clock → RateLimitBucket → RateLimitBucket
rollover_day clock bucket =
    if leb (from_secs 86400) (clock.day_read - bucket.day_start)
    then record bucket { day_start = clock.day_reset; day_count = 0; day_bytes = 0 }
    else bucket

unfoldable pub rollover : Clock → RateLimitBucket → RateLimitBucket
unfolding rollover_minute rollover_day
rollover clock bucket = rollover_day clock (rollover_minute clock bucket)

-- `entry(..).or_insert_with(..)` and the rollover
unfoldable pub bucket_at : Clock → Option RateLimitBucket → RateLimitBucket
unfolding rollover new_bucket
bucket_at clock none = rollover clock (new_bucket clock.created)
bucket_at clock (some bucket) = rollover clock bucket

-- the tests and the counters of `check`
unfoldable pub count_request :
    ℕ → NetworkLimits → RateLimitBucket → NetworkResult (Unit {0}) × RateLimitBucket
count_request request_bytes limits bucket =
    if leb limits.requests_per_minute bucket.minute_count
      || leb limits.requests_per_day bucket.day_count
      || ltb limits.bytes_per_day (saturating_add bucket.day_bytes request_bytes)
    then (fail "RATE_LIMITED" "Rate limit exceeded", bucket)
    else (
      ok tt,
      record bucket {
        minute_count = bucket.minute_count + 1;
        day_count = bucket.day_count + 1;
        day_bytes = saturating_add bucket.day_bytes request_bytes;
      },
    )

-- the test and the counter of `record_response`
unfoldable pub count_response :
    ℕ → NetworkLimits → RateLimitBucket → NetworkResult (Unit {0}) × RateLimitBucket
count_response response_bytes limits bucket =
    if ltb limits.bytes_per_day (saturating_add bucket.day_bytes response_bytes)
    then (fail "RATE_LIMITED" "Rate limit exceeded", bucket)
    else (ok tt, record bucket { day_bytes = saturating_add bucket.day_bytes response_bytes })

-- `Option::min` of an override over the default
abbrev lower : ℕ → Option ℕ → ℕ
lower default none = default
lower default (some value) = min default value

abbrev override_with : NetworkLimits → Option NetworkLimitsOverride → NetworkLimits
override_with limits none = limits
override_with limits (some entry) = record limits {
  requests_per_minute = lower limits.requests_per_minute entry.requests_per_minute;
  requests_per_day = lower limits.requests_per_day entry.requests_per_day;
}

abbrev or_default {ℓ} : {K V : Type ℓ} → Option (Dict K V) → Dict K V
or_default none = []
or_default (some entries) = entries

unfoldable pub effective_limits : Bytes → Bytes → NetworkManager → NetworkLimits
effective_limits app_id domain s =
    override_with
      (record {
        requests_per_minute = default_requests_per_minute;
        requests_per_day = default_requests_per_day;
        bytes_per_day = default_bytes_per_day;
      })
      (Dict.get (or_default (Dict.get s.overrides app_id)) domain)

unfoldable pub set_app_limits :
    Bytes → Dict Bytes NetworkLimitsOverride → NetworkManager → NetworkManager
set_app_limits app_id limits s = record s { overrides = Dict.insert s.overrides app_id limits }

-- the bucket of the application and the domain is written also when the call is refused
abbrev update :
    (RateLimitBucket → NetworkResult (Unit {0}) × RateLimitBucket)
    → Clock
    → Bytes
    → Bytes
    → NetworkManager
    → NetworkResult (Unit {0}) × NetworkManager
update f clock app_id domain s =
    let out = f (bucket_at clock (Dict.get s.limiter (app_id, domain))) in
    (out.0, record s { limiter = Dict.insert s.limiter (app_id, domain) out.1 })

unfoldable pub check_request :
    Clock → Bytes → Bytes → ℕ → NetworkManager → NetworkResult (Unit {0}) × NetworkManager
unfolding count_request effective_limits bucket_at
check_request clock app_id domain request_bytes s =
    update (count_request request_bytes (effective_limits app_id domain s)) clock app_id domain s

unfoldable pub record_response :
    Clock → Bytes → Bytes → ℕ → NetworkManager → NetworkResult (Unit {0}) × NetworkManager
unfolding count_response effective_limits bucket_at
record_response clock app_id domain response_bytes s =
    update (count_response response_bytes (effective_limits app_id domain s)) clock app_id domain s
