-- ===== src/Network/Limits/Window.antt =====
-- What the limiter lets through in any minute of the clock.
use post_urbit.Prelude.{
  ℕ, Bytes, ◌+◌, ◌-◌, ◌*◌, ◌≤◌, ◌<◌, ◌≡◌, refl, sym, arith, Bool-cases, inl, inr, Option, none,
  some, List, [], ◌∷◌, ltb, if◌then◌else◌, nat_eq, list_eq, pair_eq, pair_beq, pair_beq_iff, All,
}
use post_urbit.Prelude.Dict
use post_urbit.Prelude.Dict.{Dict}
use post_urbit.Network.Errors.{is_ok}
use post_urbit.Network.Limits.{
  NetworkLimits, RateLimitBucket, NetworkManager, Clock, from_secs, bucket_at, new_bucket, rollover,
  rollover_minute, rollover_day, count_request, count_response, effective_limits, set_app_limits,
  check_request, record_response, default_requests_per_minute,
}
use post_urbit.Network.Limits.Calls.{
  Call, limits, request, response, perform, admitted, total_admitted, MaybeWithin, AllWithin,
  AreLower, effective_limits-AreLower, perform-AllWithin, get-check_request, get-record_response,
  check_request_result,
}

-- the requests that a bucket can still let through before the minute behind `from` is over
abbrev room : ℕ → Option RateLimitBucket → ℕ
room from none = default_requests_per_minute
room from (some bucket) =
    (default_requests_per_minute - bucket.minute_count)
    + (if ltb bucket.minute_start from then default_requests_per_minute else 0)

-- the clock of a call stays in the minute behind `from`
abbrev pub InMinute : ℕ → Clock → Type 0
InMinute from clock =
    (from ≤ clock.created)
    × (from ≤ clock.minute_reset)
    × (clock.created < from + from_secs 60)
    × (clock.minute_read < from + from_secs 60)

abbrev pub CallInMinute : ℕ → Call → Type 0
CallInMinute from (limits app_id entries) = Unit
CallInMinute from (request clock app_id domain n) = InMinute from clock
CallInMinute from (response clock app_id domain n) = InMinute from clock

bucket_at-room :
    (from : ℕ) (clock : Clock) (b : Option RateLimitBucket)
    → InMinute from clock
    → MaybeWithin b
    → room from (some (bucket_at clock b)) ≤ room from b
unfolding bucket_at rollover rollover_minute rollover_day new_bucket
bucket_at-room from clock none w h = ground arith
bucket_at-room from clock (some b) w h = ground arith

count_request-room :
    (from n : ℕ) (l : NetworkLimits) (b : RateLimitBucket)
    → AreLower l
    → room from (some (count_request n l b).1) + (if is_ok (count_request n l b).0 then 1 else 0)
      ≤ room from (some b)
unfolding count_request
count_request-room from n l b k = ground arith

count_response-room :
    (from n : ℕ) (l : NetworkLimits) (b : RateLimitBucket)
    → room from (some (count_response n l b).1) ≤ room from (some b)
unfolding count_response
count_response-room from n l b = ground arith

room-le : (from : ℕ) (b : Option RateLimitBucket) → room from b ≤ 2 * default_requests_per_minute
room-le from none = omega arith
room-le from (some b) = ground arith

admitted_response :
    (app domain : Bytes) (clock : Clock) (app_id to : Bytes) (n : ℕ) (s : NetworkManager)
    → admitted app domain (response clock app_id to n) s ≡ 0
unfolding admitted
admitted_response app domain clock app_id to n s = refl

room_of : ℕ → Bytes → Bytes → NetworkManager → ℕ
room_of from app domain s = room from (Dict.get s.limiter (app, domain))

room_of-check_request :
    (from : ℕ) (app domain : Bytes) (clock : Clock) (app_id to : Bytes) (n : ℕ) (s : NetworkManager)
    → AllWithin s
    → InMinute from clock
    → room_of from app domain (check_request clock app_id to n s).1
        + admitted app domain (request clock app_id to n) s
      ≤ room_of from app domain s
unfolding room_of admitted
room_of-check_request from app domain clock app_id to n s h w =
    let l = effective_limits app_id to s in
    let old = Dict.get s.limiter (app_id, to) in
    rw (get-check_request clock app_id to n s app domain)
      (elim (Bool-cases (pair_beq (app_id, to) (app, domain))) [
        | inl e ↦
            rw
              (
                e,
                check_request_result clock app_id to n s,
                sym ((pair_beq_iff (app_id, to) (app, domain)).0 e),
              )
              (omega (
                arith,
                bucket_at-room from clock old w (h app_id to),
                count_request-room from n l (bucket_at clock old)
                    (effective_limits-AreLower app_id to s),
              ))
        | inr e ↦ rw e (omega arith)
      ])

room_of-record_response :
    (from : ℕ) (app domain : Bytes) (clock : Clock) (app_id to : Bytes) (n : ℕ) (s : NetworkManager)
    → AllWithin s
    → InMinute from clock
    → room_of from app domain (record_response clock app_id to n s).1 ≤ room_of from app domain s
unfolding room_of
room_of-record_response from app domain clock app_id to n s h w =
    let l = effective_limits app_id to s in
    let old = Dict.get s.limiter (app_id, to) in
    rw (get-record_response clock app_id to n s app domain)
      (elim (Bool-cases (pair_beq (app_id, to) (app, domain))) [
        | inl e ↦
            rw (e, sym ((pair_beq_iff (app_id, to) (app, domain)).0 e))
              (omega (
                arith,
                bucket_at-room from clock old w (h app_id to),
                count_response-room from n l (bucket_at clock old),
              ))
        | inr e ↦ rw e (omega arith)
      ])

room_of-perform :
    (from : ℕ) (app domain : Bytes) (c : Call) (s : NetworkManager)
    → AllWithin s
    → CallInMinute from c
    → room_of from app domain (perform c s) + admitted app domain c s ≤ room_of from app domain s
room_of-perform from app domain (limits app_id entries) s h w =
    unfold room_of set_app_limits admitted in omega arith
room_of-perform from app domain (request clock app_id to n) s h w =
    room_of-check_request from app domain clock app_id to n s h w
room_of-perform from app domain (response clock app_id to n) s h w = omega (
  arith,
  room_of-record_response from app domain clock app_id to n s h w,
  admitted_response app domain clock app_id to n s,
)

total-room :
    (from : ℕ) (app domain : Bytes) (calls : List Call) (s : NetworkManager)
    → AllWithin s
    → All (CallInMinute from) calls
    → total_admitted app domain calls s ≤ room_of from app domain s
unfolding total_admitted
total-room from app domain [] s h w = omega arith
total-room from app domain (c ∷ calls) s h w = omega (
  arith,
  room_of-perform from app domain c s h w.0,
  total-room from app domain calls (perform c s) (perform-AllWithin c s h) w.1,
)

-- Whatever calls a manager whose counters keep to the default limits receives within a minute of
-- the clock, it lets through at most 200 requests of an application to a domain: twice the limit,
-- since its own minute may begin anew in between.
pub total_admitted-le :
    (from : ℕ) (app domain : Bytes) (calls : List Call) (s : NetworkManager)
    → AllWithin s
    → All (CallInMinute from) calls
    → total_admitted app domain calls s ≤ 2 * default_requests_per_minute
unfolding room_of
total_admitted-le from app domain calls s h w =
    omega (
      arith,
      total-room from app domain calls s h w,
      room-le from (Dict.get s.limiter (app, domain)),
    )
