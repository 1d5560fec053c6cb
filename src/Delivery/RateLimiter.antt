-- ===== src/Delivery/RateLimiter.antt =====
-- apps/api/src/websocket/rate-limiter.ts. Times are whole milliseconds, so that the tokens of a
-- bucket are whole thousandths, exact where the code has a double.
pub mod Allowance
pub mod Strikes
pub mod Tests
use exaint.Base.{
  ℕ, ◌+◌, ◌-◌, ◌*◌, min, Bool, true, false, not, ◌&&◌, List, [], ◌∷◌, ◌++◌, if◌then◌else◌, ltb, leb,
  length, keep_if,
}

pub data RateLimitVerdict : Type 0 where
  allow limit close_socket : RateLimitVerdict

pub data ClientFrameType : Type 0 where
  ping_frame report_frame subscribe_frame unsubscribe_frame interval_frame override_frame :
      ClientFrameType

pub record BucketConfig : Type 0 where
  pub sustained : ℕ
  pub burst : ℕ

abbrev pub frame_buckets : ClientFrameType → BucketConfig
frame_buckets ping_frame = record { sustained = 2; burst = 4 }
frame_buckets report_frame = record { sustained = 1; burst = 3 }
frame_buckets subscribe_frame = record { sustained = 5; burst = 10 }
frame_buckets unsubscribe_frame = record { sustained = 5; burst = 10 }
frame_buckets interval_frame = record { sustained = 5; burst = 10 }
frame_buckets override_frame = record { sustained = 2; burst = 5 }

abbrev pub strike_window_ms : ℕ
strike_window_ms = 10000

pub record TokenBucket : Type 0 where
  pub config : BucketConfig
  pub tokens : ℕ
  pub updated_at : ℕ

abbrev pub new_bucket : BucketConfig → ℕ → TokenBucket
new_bucket config now = record { config = config; tokens = config.burst * 1000; updated_at = now }

-- The thousandths that are there at a time.
abbrev pub tokens_at : ℕ → TokenBucket → ℕ
tokens_at now b = min (b.config.burst * 1000) (b.tokens + (now - b.updated_at) * b.config.sustained)

abbrev pub refill : ℕ → TokenBucket → TokenBucket
refill now b = record b { tokens = tokens_at now b; updated_at = now }

unfoldable pub take : ℕ → TokenBucket → Bool × TokenBucket
take now b =
    let b' = refill now b in
    if ltb b'.tokens 1000 then (false, b') else (true, record b' { tokens = b'.tokens - 1000 })

-- The constructor gives every type of frame its bucket, so the map of the code is a function.
pub record ConnectionRateLimiter : Type 0 where
  pub strike_limit : ℕ
  pub global : TokenBucket
  pub by_type : ClientFrameType → TokenBucket
  pub strike_times : List ℕ

abbrev pub new_limiter : ℕ → ℕ → ℕ → ConnectionRateLimiter
new_limiter global_per_second strike_limit start = record {
  strike_limit = strike_limit;
  global =
      new_bucket (record { sustained = global_per_second; burst = global_per_second * 2 }) start;
  by_type = λ type. new_bucket (frame_buckets type) start;
  strike_times = [];
}

abbrev pub same_type : ClientFrameType → ClientFrameType → Bool
same_type ping_frame ping_frame = true
same_type report_frame report_frame = true
same_type subscribe_frame subscribe_frame = true
same_type unsubscribe_frame unsubscribe_frame = true
same_type interval_frame interval_frame = true
same_type override_frame override_frame = true
same_type _ _ = false

abbrev pub put_bucket :
    ClientFrameType → TokenBucket → (ClientFrameType → TokenBucket) → ClientFrameType → TokenBucket
put_bucket type b buckets other = if same_type type other then b else buckets other

abbrev pub recent_strikes : ℕ → List ℕ → List ℕ
recent_strikes now strikes = keep_if (λ at. ltb (now - at) strike_window_ms) strikes

abbrev pub strikes : ℕ → ConnectionRateLimiter → ℕ
strikes now l = length (recent_strikes now l.strike_times)

abbrev pub tokens_for : ClientFrameType → ℕ → ConnectionRateLimiter → ℕ
tokens_for type now l = tokens_at now (l.by_type type)

-- The two buckets in their order: a frame that the first one refuses costs the second one nothing.
unfoldable pub spend : ClientFrameType → ℕ → ConnectionRateLimiter → Bool × ConnectionRateLimiter
spend type now l =
    let (global_ok, global) = take now l.global in
    if not global_ok
    then (false, record l { global = global })
    else let (type_ok, b) = take now (l.by_type type) in
      (type_ok, record l { global = global; by_type = put_bucket type b l.by_type })

unfoldable pub strike : ℕ → ConnectionRateLimiter → RateLimitVerdict × ConnectionRateLimiter
strike now l =
    let struck = recent_strikes now l.strike_times ++ now ∷ [] in
    (
      if leb l.strike_limit (length struck) then close_socket else limit,
      record l { strike_times = struck },
    )

unfoldable pub check :
    ClientFrameType → ℕ → ConnectionRateLimiter → RateLimitVerdict × ConnectionRateLimiter
check type now l =
    let (allowed, l') = spend type now l in if allowed then (allow, l') else strike now l'
