-- ===== src/Delivery/RateLimiter/Allowance.antt =====
-- rate-limiter.ts: how many frames pass.
use exaint.Base.{
  ℕ, ◌+◌, ◌-◌, ◌*◌, ◌≤◌, ◌≡◌, refl, Bool, true, false, List, [], ◌∷◌, arith, if◌then◌else◌,
  Bool-cases, ap, ◌∙◌, subst, leb, length, ◌++◌, inl, inr,
}
use native.Mathlib.Nat.{add-mul, sub-add_cancel}
use exaint.Delivery.RateLimiter.{
  RateLimitVerdict, allow, limit, close_socket, ClientFrameType, TokenBucket, ConnectionRateLimiter,
  new_limiter, take, spend, strike, check, recent_strikes, frame_buckets, put_bucket, same_type,
  same_type,
}

-- The calls of `check`, in order, with their times.
pub record Call : Type 0 where
  pub type : ClientFrameType
  pub now : ℕ

unfoldable pub checks :
    List Call → ConnectionRateLimiter → List RateLimitVerdict × ConnectionRateLimiter
checks [] l = ([], l)
checks (c ∷ cs) l =
    let (verdict, l') = check c.type c.now l in
    let (verdicts, l'') = checks cs l' in (verdict ∷ verdicts, l'')

abbrev pub Ascending : ℕ → List Call → Type 0
Ascending start [] = Unit
Ascending start (c ∷ cs) = (start ≤ c.now) × Ascending c.now cs

abbrev pub end_of : ℕ → List Call → ℕ
end_of start [] = start
end_of start (c ∷ cs) = end_of c.now cs

-- The frames that pass, and those of one type.
unfoldable pub allowed : List RateLimitVerdict → ℕ
allowed [] = 0
allowed (allow ∷ vs) = allowed vs + 1
allowed (limit ∷ vs) = allowed vs
allowed (close_socket ∷ vs) = allowed vs

unfoldable pub allowed_of : ClientFrameType → List Call → List RateLimitVerdict → ℕ
allowed_of type (c ∷ cs) (allow ∷ vs) =
    allowed_of type cs vs + (if same_type c.type type then 1 else 0)
allowed_of type (c ∷ cs) (limit ∷ vs) = allowed_of type cs vs
allowed_of type (c ∷ cs) (close_socket ∷ vs) = allowed_of type cs vs
allowed_of type [] vs = 0
allowed_of type (c ∷ cs) [] = 0

abbrev passes : RateLimitVerdict → Bool
passes allow = true
passes limit = false
passes close_socket = false

-- From `b` to `b'`, up to the time `now`, the bucket has paid `paid` thousandths.
abbrev Paid : ℕ → ℕ → TokenBucket → TokenBucket → Type 0
Paid paid now b b' =
    (b'.tokens + paid + b.updated_at * b.config.sustained
      ≤ b.tokens + b'.updated_at * b.config.sustained)
    × (b'.updated_at ≤ now)
    × (b'.config ≡ b.config)

elapsed : (t u s : ℕ) → t ≤ u → (u - t) * s + t * s ≡ u * s
elapsed t u s h = rw (← add-mul (u - t) t s, sub-add_cancel h)

take-Paid : (now : ℕ) (b : TokenBucket) → b.updated_at ≤ now → Paid 0 now b (take now b).1
unfolding take
take-Paid now b h = ground (arith, elapsed b.updated_at now b.config.sustained h)

take-Paid_full :
    (now : ℕ) (b : TokenBucket)
    → b.updated_at ≤ now
    → (take now b).0 ≡ true
    → Paid 1000 now b (take now b).1
unfolding take
take-Paid_full now b h e = ground (arith, elapsed b.updated_at now b.config.sustained h)

-- The two buckets of a call.
abbrev pub InTime : ℕ → ConnectionRateLimiter → Type 0
InTime now l =
    (l.global.updated_at ≤ now) × ((type : ClientFrameType) → (l.by_type type).updated_at ≤ now)

same_type_eq : (a b : ClientFrameType) → same_type a b ≡ true → a ≡ b
same_type_eq a b h = ground arith

idle-Paid :
    (x : Bool) (now : ℕ) (b : TokenBucket) → b.updated_at ≤ now → Paid (if x then 0 else 0) now b b
idle-Paid true now b h = (omega arith, h, refl)
idle-Paid false now b h = (omega arith, h, refl)

put-Paid :
    (type other : ClientFrameType) (now paid : ℕ) (b' : TokenBucket)
    (buckets : ClientFrameType → TokenBucket)
    → ((t : ClientFrameType) → (buckets t).updated_at ≤ now)
    → Paid paid now (buckets type) b'
    → Paid
        (if same_type type other then paid else 0)
        now
        (buckets other)
        (put_bucket type b' buckets other)
put-Paid type other now paid b' buckets h p = elim (Bool-cases (same_type type other)) [
  | inl same ↦ rw same (rw (← same_type_eq type other same) p)
  | inr differ ↦ rw differ (idle-Paid false now (buckets other) (h other))
]

type-Paid :
    (c : Call) (l : ConnectionRateLimiter) (type : ClientFrameType)
    → InTime c.now l
    → let (ok, b') = take c.now (l.by_type c.type) in
      Paid
        (if same_type c.type type then if ok then 1000 else 0 else 0)
        c.now
        (l.by_type type)
        (put_bucket c.type b' l.by_type type)
type-Paid c l type h = elim (Bool-cases (take c.now (l.by_type c.type)).0) [
  | inl passed ↦ rw passed (
      put-Paid c.type type c.now 1000 (take c.now (l.by_type c.type)).1 l.by_type h.1
        (take-Paid_full c.now (l.by_type c.type) (h.1 c.type) passed))
  | inr refused ↦ rw refused (
      put-Paid c.type type c.now 0 (take c.now (l.by_type c.type)).1 l.by_type h.1
        (take-Paid c.now (l.by_type c.type) (h.1 c.type)))
]

-- What a call costs the two kinds of bucket.
abbrev CallPaid : Call → Bool → ConnectionRateLimiter → ConnectionRateLimiter → Type 0
CallPaid c ok l l' =
    Paid (if ok then 1000 else 0) c.now l.global l'.global
    × ((type : ClientFrameType)
        → Paid (if same_type c.type type then if ok then 1000 else 0 else 0) c.now (l.by_type type)
            (l'.by_type type))

spend-CallPaid :
    (c : Call) (l : ConnectionRateLimiter)
    → InTime c.now l
    → let (ok, l') = spend c.type c.now l in CallPaid c ok l l'
unfolding spend
spend-CallPaid c l h = elim (Bool-cases (take c.now l.global).0) [
  | inr refused ↦ rw refused (
    take-Paid c.now l.global h.0,
    λ type. idle-Paid (same_type c.type type) c.now (l.by_type type) (h.1 type),
  )
  | inl passed ↦ rw passed (
    elim (Bool-cases (take c.now (l.by_type c.type)).0) [
      | inl ok ↦ rw ok (take-Paid_full c.now l.global h.0 passed)
      | inr full ↦ rw full (take-Paid c.now l.global h.0)
    ],
    λ type. type-Paid c l type h,
  )
]

refuses : (x : Bool) → passes (if x then close_socket else limit) ≡ false
refuses true = refl
refuses false = refl

InTime-mono :
    (start now : ℕ) (l : ConnectionRateLimiter) → start ≤ now → InTime start l → InTime now l
InTime-mono start now l h p = (omega arith, λ type. let q = p.1 type in omega arith)

check-CallPaid :
    (c : Call) (l : ConnectionRateLimiter)
    → InTime c.now l
    → let (verdict, l') = check c.type c.now l in CallPaid c (passes verdict) l l'
unfolding check strike
check-CallPaid c l h = elim (Bool-cases (spend c.type c.now l).0) [
  | inl ok ↦ rw ok (rw ok at (spend-CallPaid c l h))
  | inr no_token ↦
      let struck = recent_strikes c.now (spend c.type c.now l).1.strike_times ++ c.now ∷ [] in
      rw (no_token, refuses (leb (spend c.type c.now l).1.strike_limit (length struck)))
        (rw no_token at (spend-CallPaid c l h))
]

Paid-trans :
    (paid more now later : ℕ) (a b c : TokenBucket)
    → now ≤ later
    → Paid paid now a b
    → Paid more later b c
    → Paid (paid + more) later a c
Paid-trans paid more now later a b c h p q =
    let e : b.config.sustained ≡ a.config.sustained = ap (λ x. x.sustained) p.2 in
    let q0 = rw e at q.0 in (omega arith, q.1, q.2 ∙ p.2)

end_of-le : (cs : List Call) (start : ℕ) → Ascending start cs → start ≤ end_of start cs
end_of-le [] start asc = omega arith
end_of-le (c ∷ cs) start asc = omega (arith, end_of-le cs c.now asc.1)

allowed-cons :
    (v : RateLimitVerdict) (vs : List RateLimitVerdict)
    → (if passes v then 1000 else 0) + allowed vs * 1000 ≡ allowed (v ∷ vs) * 1000
unfolding allowed
allowed-cons v vs = ground arith

allowed_of-cons :
    (type : ClientFrameType) (c : Call) (cs : List Call) (v : RateLimitVerdict)
    (vs : List RateLimitVerdict)
    → (if same_type c.type type then if passes v then 1000 else 0 else 0)
        + allowed_of type cs vs * 1000
      ≡ allowed_of type (c ∷ cs) (v ∷ vs) * 1000
unfolding allowed_of
allowed_of-cons type c cs v vs = ground arith

checks-Paid :
    (cs : List Call) (start : ℕ) (l : ConnectionRateLimiter)
    → InTime start l
    → Ascending start cs
    → let (verdicts, l') = checks cs l in
      Paid (allowed verdicts * 1000) (end_of start cs) l.global l'.global
      × ((type : ClientFrameType)
          → Paid
              (allowed_of type cs verdicts * 1000)
              (end_of start cs)
              (l.by_type type)
              (l'.by_type type))
unfolding checks allowed allowed_of
checks-Paid [] start l h asc = ((omega arith, h.0, refl), λ type. (omega arith, h.1 type, refl))
checks-Paid (c ∷ cs) start l h asc =
    let first = check-CallPaid c l (InTime-mono start c.now l asc.0 h) in
    let (verdict, l') = check c.type c.now l in
    let (verdicts, l'') = checks cs l' in
    let end = end_of c.now cs in
    let rest = checks-Paid cs c.now l' (first.0.1, λ type. (first.1 type).1) asc.1 in
    let le = end_of-le cs c.now asc.1 in
    (
      subst (λ paid. Paid paid end l.global l''.global) (allowed-cons verdict verdicts)
          (Paid-trans _ _ c.now end l.global l'.global l''.global le first.0 rest.0),
      λ type.
          subst (λ paid. Paid paid end (l.by_type type) (l''.by_type type))
            (allowed_of-cons type c cs verdict verdicts)
            (Paid-trans _ _ c.now end (l.by_type type) (l'.by_type type) (l''.by_type type) le
              (first.1 type) (rest.1 type)),
    )

-- Tokens, with what came in between the times `t` and `u`, pay for what was spent.
budget :
    (t u end s paid tokens left : ℕ)
    → left + paid + t * s ≤ tokens + u * s
    → u ≤ end
    → t ≤ end
    → paid ≤ tokens + (end - t) * s
budget t u end s paid tokens left h hu ht = omega (arith, elapsed u end s hu, elapsed t end s ht)

-- Over any calls of `check` on a new limiter, at times that do not go back, the frames that pass are
-- at most the burst of the global bucket and what it gains in that time, and those of each type are
-- at most the burst of the type's bucket and what it gains.
pub allowance_lem :
    (cs : List Call) (start global_per_second strike_limit : ℕ)
    → Ascending start cs
    → let (verdicts, l) = checks cs (new_limiter global_per_second strike_limit start) in
      let time = end_of start cs - start in
      (allowed verdicts * 1000 ≤ global_per_second * 2 * 1000 + time * global_per_second)
      × ((type : ClientFrameType)
          → let config = frame_buckets type in
            allowed_of type cs verdicts * 1000 ≤ config.burst * 1000 + time * config.sustained)
allowance_lem cs start g k asc =
    let p = checks-Paid cs start (new_limiter g k start) (omega arith, λ type. omega arith) asc in
    let end = end_of start cs in
    let le = end_of-le cs start asc in
    (
      budget start _ end g _ _ _ p.0.0 p.0.1 le,
      λ type. budget start _ end _ _ _ _ (p.1 type).0 (p.1 type).1 le,
    )
