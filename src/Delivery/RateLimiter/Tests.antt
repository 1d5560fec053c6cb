-- ===== src/Delivery/RateLimiter/Tests.antt =====
-- rate-limiter.ts at a burst of six pings, of which the bucket of pings lets four pass.
use exaint.Base.{ℕ, ◌+◌, ◌*◌, ◌≤◌, ◌≡◌, refl, List, [], ◌∷◌, arith, keep_if, leb}
use exaint.Delivery.RateLimiter.{
  ClientFrameType, ping_frame, frame_buckets, new_limiter, allow, limit, close_socket, check, spend,
  take, strike,
}
use exaint.Delivery.RateLimiter.Allowance.{
  Call, Ascending, checks, allowed, allowed_of, allowance_lem,
}
use exaint.Delivery.RateLimiter.Strikes.{refused, closed, Within, closed_iff-refused}

abbrev ping_at : ℕ → Call
ping_at now = record { type = ping_frame; now = now }

abbrev pings : List Call
pings = ping_at 5 ∷ ping_at 5 ∷ ping_at 6 ∷ ping_at 7 ∷ ping_at 8 ∷ ping_at 9 ∷ []

in_order : Ascending 5 pings
in_order =
    (omega arith, (omega arith, (omega arith, (omega arith, (omega arith, (omega arith, tt))))))

in_window : Within 5 pings
in_window = (
  (omega arith, omega arith),
  (
    (omega arith, omega arith),
    (
      (omega arith, omega arith),
      ((omega arith, omega arith), ((omega arith, omega arith), ((omega arith, omega arith), tt))),
    ),
  ),
)

verdicts_of_pings :
    (checks pings (new_limiter 10 2 5)).0
    ≡ allow ∷ allow ∷ allow ∷ allow ∷ limit ∷ close_socket ∷ []
unfolding checks check spend take strike keep_if
verdicts_of_pings = refl

allowance_lem_example :
    let (verdicts, l) = checks pings (new_limiter 10 2 5) in
    (allowed verdicts * 1000 ≤ 10 * 2 * 1000 + 4 * 10)
    × ((type : ClientFrameType)
        → let config = frame_buckets type in
          allowed_of type pings verdicts * 1000 ≤ config.burst * 1000 + 4 * config.sustained)
allowance_lem_example = allowance_lem pings 5 10 2 in_order

closed_iff-refused_example :
    let (verdicts, l) = checks pings (new_limiter 10 2 5) in
    closed verdicts ≡ leb 2 (refused verdicts)
closed_iff-refused_example = closed_iff-refused pings 5 10 2 (omega arith) in_window
