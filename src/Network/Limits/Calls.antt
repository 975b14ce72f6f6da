-- ===== src/Network/Limits/Calls.antt =====
-- What the limiter admits: in each bucket, over any calls.
use post_urbit.Prelude.{
  ℕ, Bytes, Bool, true, false, ◌&&◌, ◌+◌, ◌≤◌, ◌≡◌, refl, sym, subst, arith, Option, none, some,
  List, [], ◌∷◌, if◌then◌else◌, nat_eq, list_eq, pair_eq, pair_beq,
}
use post_urbit.Prelude.Dict
use post_urbit.Prelude.Dict.{Dict}
use post_urbit.Network.Errors.{is_ok}
use post_urbit.Network.Limits.{
  NetworkLimits, NetworkLimitsOverride, RateLimitBucket, NetworkManager, Clock, bucket_at,
  new_bucket, rollover, rollover_minute, rollover_day, count_request, count_response,
  effective_limits, set_app_limits, check_request, record_response, default_requests_per_minute,
  default_requests_per_day, default_bytes_per_day,
}

-- a call of the manager
pub data Call : Type 0 where
  limits : Bytes → Dict Bytes NetworkLimitsOverride → Call
  request : Clock → Bytes → Bytes → ℕ → Call
  response : Clock → Bytes → Bytes → ℕ → Call

abbrev pub perform : Call → NetworkManager → NetworkManager
perform (limits app_id entries) s = set_app_limits app_id entries s
perform (request clock app_id domain n) s = (check_request clock app_id domain n s).1
perform (response clock app_id domain n) s = (record_response clock app_id domain n s).1

unfoldable pub run : List Call → NetworkManager → NetworkManager
run [] s = s
run (c ∷ calls) s = run calls (perform c s)

-- one if the call is a request of the application to the domain that is let through
unfoldable pub admitted : Bytes → Bytes → Call → NetworkManager → ℕ
admitted app domain (limits app_id entries) s = 0
admitted app domain (request clock app_id to n) s =
    if pair_beq (app_id, to) (app, domain) && is_ok (check_request clock app_id to n s).0
    then 1
    else 0
admitted app domain (response clock app_id to n) s = 0

unfoldable pub total_admitted : Bytes → Bytes → List Call → NetworkManager → ℕ
unfolding admitted
total_admitted app domain [] s = 0
total_admitted app domain (c ∷ calls) s =
    admitted app domain c s + total_admitted app domain calls (perform c s)

-- the counters of a bucket keep to the default limits
abbrev pub IsWithin : RateLimitBucket → Type 0
IsWithin bucket =
    (bucket.minute_count ≤ default_requests_per_minute)
    × (bucket.day_count ≤ default_requests_per_day)
    × (bucket.day_bytes ≤ default_bytes_per_day)

abbrev pub MaybeWithin : Option RateLimitBucket → Type 0
MaybeWithin none = Unit
MaybeWithin (some bucket) = IsWithin bucket

abbrev pub AllWithin : NetworkManager → Type 0
AllWithin s = (app domain : Bytes) → MaybeWithin (Dict.get s.limiter (app, domain))

abbrev pub AreLower : NetworkLimits → Type 0
AreLower l =
    (l.requests_per_minute ≤ default_requests_per_minute)
    × (l.requests_per_day ≤ default_requests_per_day)
    × (l.bytes_per_day ≤ default_bytes_per_day)

pub effective_limits-AreLower :
    (app_id domain : Bytes) (s : NetworkManager) → AreLower (effective_limits app_id domain s)
unfolding effective_limits
effective_limits-AreLower app_id domain s = ground arith

bucket_at-IsWithin :
    (clock : Clock) (b : Option RateLimitBucket) → MaybeWithin b → IsWithin (bucket_at clock b)
unfolding bucket_at rollover rollover_minute rollover_day new_bucket
bucket_at-IsWithin clock none h = ground arith
bucket_at-IsWithin clock (some b) h = ground arith

count_request-IsWithin :
    (n : ℕ) (l : NetworkLimits) (b : RateLimitBucket)
    → AreLower l
    → IsWithin b
    → IsWithin (count_request n l b).1
unfolding count_request
count_request-IsWithin n l b k h = ground arith

count_response-IsWithin :
    (n : ℕ) (l : NetworkLimits) (b : RateLimitBucket)
    → AreLower l
    → IsWithin b
    → IsWithin (count_response n l b).1
unfolding count_response
count_response-IsWithin n l b k h = ground arith

-- each of the two calls changes one bucket
pub get-check_request :
    (clock : Clock) (app_id to : Bytes) (n : ℕ) (s : NetworkManager) (app domain : Bytes)
    → Dict.get (check_request clock app_id to n s).1.limiter (app, domain) ≡ (
        if pair_beq (app_id, to) (app, domain)
        then some
            (count_request n
              (effective_limits app_id to s)
              (bucket_at clock (Dict.get s.limiter (app_id, to)))).1
        else Dict.get s.limiter (app, domain))
unfolding check_request
get-check_request clock app_id to n s app domain =
    Dict.get-insert s.limiter (app_id, to) (app, domain) _

pub get-record_response :
    (clock : Clock) (app_id to : Bytes) (n : ℕ) (s : NetworkManager) (app domain : Bytes)
    → Dict.get (record_response clock app_id to n s).1.limiter (app, domain) ≡ (
        if pair_beq (app_id, to) (app, domain)
        then some
            (count_response n
              (effective_limits app_id to s)
              (bucket_at clock (Dict.get s.limiter (app_id, to)))).1
        else Dict.get s.limiter (app, domain))
unfolding record_response
get-record_response clock app_id to n s app domain =
    Dict.get-insert s.limiter (app_id, to) (app, domain) _

pub check_request_result :
    (clock : Clock) (app_id to : Bytes) (n : ℕ) (s : NetworkManager)
    → (check_request clock app_id to n s).0
      ≡ (count_request n
          (effective_limits app_id to s)
          (bucket_at clock (Dict.get s.limiter (app_id, to)))).0
unfolding check_request
check_request_result clock app_id to n s = refl

if-MaybeWithin :
    (b : Bool) (x : RateLimitBucket) (o : Option RateLimitBucket)
    → IsWithin x
    → MaybeWithin o
    → MaybeWithin (if b then some x else o)
if-MaybeWithin true x o h k = h
if-MaybeWithin false x o h k = k

pub perform-AllWithin : (c : Call) (s : NetworkManager) → AllWithin s → AllWithin (perform c s)
perform-AllWithin (limits app_id entries) s h app domain = unfold set_app_limits in h app domain
perform-AllWithin (request clock app_id to n) s h app domain =
    let l = effective_limits app_id to s in
    let old = Dict.get s.limiter (app_id, to) in
    subst MaybeWithin (sym (get-check_request clock app_id to n s app domain)) (
      if-MaybeWithin (pair_beq (app_id, to) (app, domain)) _ _
        (count_request-IsWithin n l (bucket_at clock old) (effective_limits-AreLower app_id to s)
          (bucket_at-IsWithin clock old (h app_id to)))
        (h app domain))
perform-AllWithin (response clock app_id to n) s h app domain =
    let l = effective_limits app_id to s in
    let old = Dict.get s.limiter (app_id, to) in
    subst MaybeWithin (sym (get-record_response clock app_id to n s app domain)) (
      if-MaybeWithin (pair_beq (app_id, to) (app, domain)) _ _
        (count_response-IsWithin n l (bucket_at clock old) (effective_limits-AreLower app_id to s)
          (bucket_at-IsWithin clock old (h app_id to)))
        (h app domain))

-- Whatever calls a manager receives, with whatever limits of its own an application sets and
-- whatever the clock shows, every bucket keeps to the default limits: at most 100 requests in its
-- minute, and at most 10000 requests and 100 MiB in its day.
pub run-AllWithin : (calls : List Call) (s : NetworkManager) → AllWithin s → AllWithin (run calls s)
unfolding run
run-AllWithin [] s h = h
run-AllWithin (c ∷ calls) s h = run-AllWithin calls (perform c s) (perform-AllWithin c s h)
