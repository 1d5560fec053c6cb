-- ===== src/Delivery/RateLimiter/Strikes.antt =====
-- rate-limiter.ts: when a connection is closed.
use exaint.Base.{
  ℕ, ◌+◌, ◌≤◌, ◌<◌, ◌≡◌, refl, Bool, true, false, ◌&&◌, ◌⊎◌, List, [], ◌∷◌, ◌++◌, arith, ltb, leb,
  if◌then◌else◌, Bool-cases, inl, inr, length, keep_if, All, All-append, length-append,
}
use exaint.Delivery.RateLimiter.{
  RateLimitVerdict, allow, limit, close_socket, ConnectionRateLimiter, new_limiter, spend, take,
  strike, check, strike_window_ms, recent_strikes,
}
use exaint.Delivery.RateLimiter.Allowance.{Call, checks}

-- The frames that do not pass.
unfoldable pub refused : List RateLimitVerdict → ℕ
refused [] = 0
refused (allow ∷ vs) = refused vs
refused (limit ∷ vs) = refused vs + 1
refused (close_socket ∷ vs) = refused vs + 1

unfoldable pub closed : List RateLimitVerdict → Bool
closed [] = false
closed (allow ∷ vs) = closed vs
closed (limit ∷ vs) = closed vs
closed (close_socket ∷ vs) = true

abbrev pub Within : ℕ → List Call → Type 0
Within start cs = All (λ c. (start ≤ c.now) × (c.now < start + strike_window_ms)) cs

recent-All :
    (start now : ℕ) (strikes : List ℕ)
    → now < start + strike_window_ms
    → All (λ at. start ≤ at) strikes
    → recent_strikes now strikes ≡ strikes
unfolding keep_if
recent-All start now [] h a = refl
recent-All start now (at ∷ strikes) h a = ground (arith, recent-All start now strikes h a.1)

spend-strikes :
    (c : Call) (l : ConnectionRateLimiter)
    → ((spend c.type c.now l).1.strike_times ≡ l.strike_times)
      × ((spend c.type c.now l).1.strike_limit ≡ l.strike_limit)
unfolding spend
spend-strikes c l = elim (Bool-cases (take c.now l.global).0) [
  | inl passed ↦ rw passed (refl, refl)
  | inr failed ↦ rw failed (refl, refl)
]

-- A call in the window: it passes and leaves the strikes, or it adds one and closes at the limit.
abbrev Struck : ℕ → ConnectionRateLimiter → RateLimitVerdict → ConnectionRateLimiter → Type 0
Struck now l verdict l' =
    (l'.strike_limit ≡ l.strike_limit)
    × (((verdict ≡ allow) × (l'.strike_times ≡ l.strike_times))
        ⊎ ((verdict
              ≡ (if leb l.strike_limit (length l.strike_times + 1) then close_socket else limit))
            × (l'.strike_times ≡ l.strike_times ++ now ∷ [])))

check-Struck :
    (start : ℕ) (c : Call) (l : ConnectionRateLimiter)
    → c.now < start + strike_window_ms
    → All (λ at. start ≤ at) l.strike_times
    → let (verdict, l') = check c.type c.now l in Struck c.now l verdict l'
unfolding check strike
check-Struck start c l h a =
    let kept = spend-strikes c l in
    elim (Bool-cases (spend c.type c.now l).0) [
      | inl ok ↦ rw ok (kept.1, inl (refl, kept.0))
      | inr no_token ↦
          let all = recent-All start c.now l.strike_times h a in
          let grown = length-append l.strike_times (c.now ∷ []) in
          rw (no_token, kept.0, kept.1, all) (refl, inr (rw grown refl, refl))
    ]

-- What is closed, after `n` strikes, with the limit `k`.
abbrev Closes : ℕ → ℕ → List RateLimitVerdict → Type 0
Closes k n vs = closed vs ≡ (ltb 0 (refused vs) && leb k (n + refused vs))

Closes-strike :
    (k n : ℕ) (v : RateLimitVerdict) (vs : List RateLimitVerdict)
    → v ≡ (if leb k (n + 1) then close_socket else limit)
    → Closes k (n + 1) vs
    → Closes k n (v ∷ vs)
unfolding closed refused
Closes-strike k n v vs h c = elim (Bool-cases (leb k (n + 1))) [
  | inl spent ↦ rw (h, spent) (ground arith)
  | inr left ↦ rw (h, left) (ground arith)
]

closed-checks :
    (cs : List Call) (start : ℕ) (l : ConnectionRateLimiter)
    → Within start cs
    → All (λ at. start ≤ at) l.strike_times
    → let (vs, l') = checks cs l in Closes l.strike_limit (length l.strike_times) vs
unfolding checks closed refused
closed-checks [] start l w a = refl
closed-checks (c ∷ cs) start l w a =
    let struck = check-Struck start c l w.0.1 a in
    let l' = (check c.type c.now l).1 in
    let vs = (checks cs l').0 in
    elim struck.1 [
      | inl (e, keep) ↦
          let rest = closed-checks cs start l' w.1 (rw keep a) in rw e (rw (struck.0, keep) at rest)
      | inr (e, more) ↦
          let both = All-append (λ at. start ≤ at) l.strike_times (c.now ∷ []) a (w.0.0, tt) in
          let rest = closed-checks cs start l' w.1 (rw more both) in
          let grown = length-append l.strike_times (c.now ∷ []) in
          Closes-strike l.strike_limit (length l.strike_times) _ vs e
            (rw (struck.0, more, grown) at rest)
    ]

-- From a new limiter, over any calls of `check` in one window of strikes: the connection is closed
-- exactly if at least as many frames are refused as the limit of strikes allows, which is not zero.
pub closed_iff-refused :
    (cs : List Call) (start global_per_second strike_limit : ℕ)
    → 0 < strike_limit
    → Within start cs
    → let (vs, l) = checks cs (new_limiter global_per_second strike_limit start) in
      closed vs ≡ leb strike_limit (refused vs)
closed_iff-refused cs start g k some_strikes w =
    let p = closed-checks cs start (new_limiter g k start) w tt in ground arith
