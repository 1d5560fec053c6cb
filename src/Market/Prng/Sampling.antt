-- ===== src/Market/Prng/Sampling.antt =====
-- prng.ts: which words of the stream `nextBigIntBelow` takes, and what it makes of them.
use exaint.Base.{
  ℕ, zero, suc, ◌+◌, ◌*◌, ◌/◌, ◌%◌, ◌≤◌, ◌<◌, ◌≡◌, ◌↔◌, refl, sym, ◌∙◌, ap, true, false, Result, ok,
  err, ltb, lt→ltb, Bool-cases, inl, inr, arith,
}
use exaint.Base.Int.{pos, leb_ℤ}
use native.Mathlib.Nat.{
  mod-add-div', div-lt_iff_lt-mul, mul-le-mul_right, add-mul, add-mul-mod_self_right, mod-eq_of_lt,
  add_comm,
}
use exaint.Market.Steps.{Fault, pure}
use exaint.Market.Prng.{word, splitmix_64, draw_below, next_big_int_below}
use exaint.Market.Prng.Bounds.{draw_at}

-- The state behind the `n`th draw of the stream from a state.
unfoldable pub state_at : ℕ → ℕ → ℕ
state_at zero state = (splitmix_64 state).1
state_at (suc n) state = state_at n (splitmix_64 state).1

-- The `n`th draw is the first one below the limit.
pub record FirstBelow (limit state n : ℕ) : Type 0 where
  pub fits : draw_at n state < limit
  pub over : (m : ℕ) → m < n → limit ≤ draw_at m state

abbrev pub Taken : ℕ → ℕ → ℕ → ℕ → ℕ → Type 0
Taken fuel limit state x s' =
    (n : ℕ) × (n < fuel)
    × FirstBelow limit state n
    × (draw_at n state ≡ x)
    × (state_at n state ≡ s')

over_before :
    (limit state : ℕ)
    → limit ≤ (splitmix_64 state).0
    → (n : ℕ) → ((m : ℕ) → m < n → limit ≤ draw_at m (splitmix_64 state).1)
    → (m : ℕ) → m < suc n
    → limit ≤ draw_at m state
unfolding draw_at
over_before limit state h n over zero lt = h
over_before limit state h n over (suc m) lt = over m (omega arith)

abbrev value_or : ℕ × ℕ → Result Fault (ℕ × ℕ) → ℕ × ℕ
value_or a (ok r) = r
value_or a (err f) = a

draw_below-Taken :
    (fuel limit state x s' : ℕ)
    → draw_below fuel limit state ≡ ok (x, s')
    → Taken fuel limit state x s'
unfolding draw_below draw_at state_at
draw_below-Taken zero limit state x s' e = cc
draw_below-Taken (suc fuel) limit state x s' e =
    elim (Bool-cases (ltb (splitmix_64 state).0 limit)) [
      | inl low ↦
          let (draw, state') = splitmix_64 state in
          let now : draw_below (suc fuel) limit state ≡ ok (draw, state') =
            rw (low, draw_below) refl in
          let same : (draw, state') ≡ (x, s') =
            ap {A = Result Fault (ℕ × ℕ)} (value_or (0, 0)) (sym now ∙ e) in
          (
            0,
            omega arith,
            record { fits = ground arith; over = λ m lt. absurd (omega arith) },
            ap (λ (r : ℕ × ℕ). r.0) same,
            ap (λ (r : ℕ × ℕ). r.1) same,
          )
      | inr high ↦
          let state' = (splitmix_64 state).1 in
          let later : draw_below (suc fuel) limit state ≡ draw_below fuel limit state' =
            rw (high, draw_below) refl in
          let (n, lt, f, same, left) = draw_below-Taken fuel limit state' x s' (sym later ∙ e) in
          (
            suc n,
            omega arith,
            record { fits = f.fits; over = over_before limit state (ground arith) n f.over },
            same,
            left,
          )
    ]

taken_lem :
    (n fuel limit state : ℕ)
    → n < fuel
    → FirstBelow limit state n
    → draw_below fuel limit state ≡ ok (draw_at n state, state_at n state)
unfolding draw_below draw_at state_at
taken_lem n zero limit state lt f = absurd (omega arith)
taken_lem zero (suc fuel) limit state lt f =
    let low : ltb (splitmix_64 state).0 limit ≡ true = lt→ltb (splitmix_64 state).0 limit f.fits in
    rw (low, draw_below) refl
taken_lem (suc n) (suc fuel) limit state lt f =
    let above : limit ≤ (splitmix_64 state).0 = f.over 0 (omega arith) in
    let high : ltb (splitmix_64 state).0 limit ≡ false = ground arith in
    let rest : FirstBelow limit (splitmix_64 state).1 n = record {
      fits = f.fits;
      over = λ m less. f.over (suc m) (omega arith);
    } in
    rw (high, draw_below) (taken_lem n fuel limit (splitmix_64 state).1 (omega arith) rest)

abbrev reduced : ℕ → Result Fault (ℕ × ℕ) → Result Fault (ℕ × ℕ)
reduced b (ok (x, s)) = ok (x % b, s)
reduced b (err f) = err f

reduced_ok :
    (b r s' : ℕ) (m : Result Fault (ℕ × ℕ))
    → reduced b m ≡ ok (r, s')
    → (x : ℕ) × (m ≡ ok (x, s')) × (x % b ≡ r)
reduced_ok b r s' (ok (x, s)) e =
    let same = ap (value_or (0, 0)) e in
    let left : s ≡ s' = ap (λ (p : ℕ × ℕ). p.1) same in
    (x, ap (λ (q : ℕ). ok (x, q)) left, ap (λ (p : ℕ × ℕ). p.0) same)
reduced_ok b r s' (err f) e = cc

below_reduced :
    (fuel b state : ℕ)
    → 0 < b
    → next_big_int_below fuel (pos b) state ≡ reduced b (draw_below fuel (word / b * b) state)
unfolding next_big_int_below
below_reduced fuel b state h =
    let positive : leb_ℤ (pos b) (pos 0) ≡ false = ground arith in
    rw positive (go (draw_below fuel (word / b * b) state))
  where
    go :
        (m : Result Fault (ℕ × ℕ))
        → elim m [ ok r ↦ pure {S = ℕ} (r.0 % b) r.1 | err e ↦ err e ] ≡ reduced b m
    go (ok r) = refl
    go (err e) = refl

-- Every remainder below the bound comes from one number below the limit for each of the numbers
-- below `word / b`.
unbiased :
    (b r x : ℕ)
    → r < b
    → ((x < word / b * b) × (x % b ≡ r)) ↔ ((k : ℕ) × (k < word / b) × (x ≡ k * b + r))
unbiased b r x h = (
  λ hx.
      let some_b : 0 < b = omega arith in
      (x / b, (div-lt_iff_lt-mul some_b).1 hx.0, omega (arith, mod-add-div' x b, hx.1)),
  λ hk.
      let (k, lt, e) = hk in
      let next : k + 1 ≤ word / b = omega (arith, lt) in
      (
        omega (arith, mul-le-mul_right b next, add-mul k 1 b),
        rw (e, add_comm (k * b) r, add-mul-mod_self_right r k b) (mod-eq_of_lt h),
      ),
)

-- Below a bound `b`, and for each result `r` below it: `nextBigIntBelow` returns `r` exactly where,
-- among as many words of the stream as there is fuel, the first one below the largest multiple of
-- `b` within 2 ^ 64 is `k * b + r` for some `k` below `word / b`. So no result has more words than
-- another. The state it leaves is the one behind that word.
pub next_big_int_below_lem :
    (fuel b r state s' : ℕ)
    → r < b
    → (next_big_int_below fuel (pos b) state ≡ ok (r, s')) ↔ (
        (n : ℕ) × (k : ℕ) × (n < fuel)
        × (k < word / b)
        × ((m : ℕ) → m < n → word / b * b ≤ draw_at m state)
        × (draw_at n state ≡ k * b + r)
        × (state_at n state ≡ s'))
next_big_int_below_lem fuel b r state s' h =
    let limit = word / b * b in
    let reads = below_reduced fuel b state (omega arith) in
    (
      λ e.
          let (x, drawn, rest) = reduced_ok b r s' (draw_below fuel limit state) (sym reads ∙ e) in
          let (n, lt, f, same, left) = draw_below-Taken fuel limit state x s' drawn in
          let (k, small, at) = (unbiased b r x h).0 (omega (arith, f.fits), rest) in
          (n, k, lt, small, f.over, same ∙ at, left),
      λ t.
          let (n, k, lt, small, over, at, left) = t in
          let (fits, rest) = (unbiased b r (draw_at n state) h).1 (k, small, at) in
          reads
          ∙ ap (reduced b) (taken_lem n fuel limit state lt (record { fits = fits; over = over }))
          ∙ ap (λ (q : ℕ). ok (q, state_at n state)) rest
          ∙ ap (λ (q : ℕ). ok (r, q)) left,
    )
