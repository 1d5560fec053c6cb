-- ===== src/Market/Prng/Bounds.antt =====
-- prng.ts: the ranges of the draws, and when the loop of draws ends.
use exaint.Base.{
  ℕ, zero, suc, ◌+◌, ◌*◌, ◌/◌, ◌≤◌, ◌<◌, ◌≡◌, refl, false, ok, ltb, lt→ltb, Bool-cases, inl, inr,
  arith,
}
use exaint.Base.Int.{
  ℤ, pos, negsuc, neg, pos_part, neg_part, ◌+ℤ◌, ◌-ℤ◌, ◌≤ℤ◌, ◌<ℤ◌, ltb_ℤ, leb_ℤ, eqb_ℤ, int_laws,
  div_ℤ,
}
use native.Mathlib.Nat.{mod-lt}
use exaint.Market.Steps.{Post, Post_mono, Post-bind}
use exaint.Market.Prng.{
  word, splitmix_64, draw_below, next_big_int_below, next_big_int_between, next_int_between,
  next_bell_between,
}

pub draw_below-Post :
    (fuel limit state : ℕ) → Post (draw_below fuel limit state) (λ draw _. draw < limit)
unfolding draw_below
draw_below-Post zero limit state = tt
draw_below-Post (suc fuel) limit state = elim (Bool-cases (ltb (splitmix_64 state).0 limit)) [
  | inl fits ↦ rw (fits, Post) (ground arith)
  | inr over ↦ rw (over, Post) (draw_below-Post fuel limit (splitmix_64 state).1)
]

pub next_big_int_below-Post :
    (fuel : ℕ) (bound : ℤ) (state : ℕ)
    → pos 0 <ℤ bound
    → Post (next_big_int_below fuel bound state) (λ draw _. pos draw <ℤ bound)
unfolding next_big_int_below
next_big_int_below-Post fuel (negsuc b) state h = absurd (omega arith)
next_big_int_below-Post fuel (pos b) state h =
    let fits : leb_ℤ (pos b) (pos 0) ≡ false = ground arith in
    rw fits (
      Post-bind (draw_below fuel (word / b * b)) _ state (λ draw _. draw < word / b * b) _
        (draw_below-Post fuel (word / b * b) state)
        (λ draw s' lt. let small = mod-lt draw {m = b} (omega arith) in omega arith))

pub next_big_int_between-Post :
    (fuel : ℕ) (low high : ℤ) (state : ℕ)
    → low ≤ℤ high
    → Post (next_big_int_between fuel low high state) (λ draw _. (low ≤ℤ draw) × (draw ≤ℤ high))
unfolding next_big_int_between
next_big_int_between-Post fuel low high state h =
    let fits : ltb_ℤ high low ≡ false = ground arith in
    let bound = high -ℤ low +ℤ pos 1 in
    rw fits (
      Post-bind (next_big_int_below fuel bound) _ state (λ draw _. pos draw <ℤ bound) _
        (next_big_int_below-Post fuel bound state (omega int_laws))
        (λ draw s' lt. (omega int_laws, omega int_laws)))

within :
    (low high : ℕ) (a : ℤ) → pos low ≤ℤ a → a ≤ℤ pos high → (low ≤ pos_part a) × (pos_part a ≤ high)
within low high (pos a) l h = (omega arith, omega arith)
within low high (negsuc a) l h = (omega arith, omega arith)

pub next_int_between-Post :
    (fuel low high state : ℕ)
    → low ≤ high
    → Post (next_int_between fuel low high state) (λ draw _. (low ≤ draw) × (draw ≤ high))
unfolding next_int_between
next_int_between-Post fuel low high state h =
    Post-bind (next_big_int_between fuel (pos low) (pos high)) _ state
      (λ draw _. (pos low ≤ℤ draw) × (draw ≤ℤ pos high)) _
      (next_big_int_between-Post fuel (pos low) (pos high) state (omega arith))
      (λ draw s' r. within low high draw r.0 r.1)

-- The absolute value is at most `span`.
abbrev pub Near : ℕ → ℤ → Type 0
Near span a = (neg_part a ≤ span + pos_part a) × (pos_part a ≤ span + neg_part a)

third : (span : ℕ) (a : ℤ) → Near (3 * span) a → Near span (div_ℤ a 3)
unfolding div_ℤ
third span (pos a) h = ground arith
third span (negsuc a) h = ground arith

near : (span : ℕ) (a : ℤ) → neg (pos span) ≤ℤ a → a ≤ℤ pos span → Near span a
near span a l h = ground arith

draw-Near :
    (fuel span state : ℕ)
    → Post (next_big_int_between fuel (neg (pos span)) (pos span) state) (λ draw _. Near span draw)
draw-Near fuel span state =
    Post_mono (next_big_int_between fuel (neg (pos span)) (pos span) state)
      (λ draw _. (neg (pos span) ≤ℤ draw) × (draw ≤ℤ pos span)) _ (λ a s r. near span a r.0 r.1)
      (next_big_int_between-Post fuel (neg (pos span)) (pos span) state (ground arith))

-- A bell-shaped draw is at most `span` away from zero.
pub next_bell_between-Post :
    (fuel span state : ℕ)
    → Post (next_bell_between fuel (pos span) state) (λ draw _. Near span draw)
unfolding next_bell_between
next_bell_between-Post fuel span state =
    let m = next_big_int_between fuel (neg (pos span)) (pos span) in
    let positive : ltb_ℤ (pos span) (pos 0) ≡ false = ground arith in
    rw positive (elim (Bool-cases (eqb_ℤ (pos span) (pos 0))) [
      | inl zero_span ↦ rw zero_span (ground arith)
      | inr wide ↦ rw wide (
          Post-bind m _ state (λ a _. Near span a) _ (draw-Near fuel span state)
            (λ a s₁ ha.
              Post-bind m _ s₁ (λ b _. Near span b) _ (draw-Near fuel span s₁)
                (λ b s₂ hb.
                  Post-bind m _ s₂ (λ c _. Near span c) _ (draw-Near fuel span s₂)
                    (λ c s₃ hc.
                      third span (pos 0 +ℤ a +ℤ b +ℤ c)
                        (omega (int_laws, ha.0, ha.1, hb.0, hb.1, hc.0, hc.1))))))
    ])

-- The `n`th draw of the stream from a state.
unfoldable pub draw_at : ℕ → ℕ → ℕ
draw_at zero state = (splitmix_64 state).0
draw_at (suc n) state = draw_at n (splitmix_64 state).1

one_more : (fuel more : ℕ) → suc fuel + more ≡ suc (fuel + more)
one_more fuel more = omega arith

-- With a draw below the limit among the first `fuel` draws the loop returns, and more fuel does not
-- change what it returns.
pub draw_below-returns :
    (n fuel limit state : ℕ)
    → draw_at n state < limit
    → n < fuel
    → (r : ℕ × ℕ) × ((more : ℕ) → draw_below (fuel + more) limit state ≡ ok r)
unfolding draw_below draw_at
draw_below-returns n zero limit state h k = absurd (omega arith)
draw_below-returns zero (suc fuel) limit state h k =
    let fits = lt→ltb (splitmix_64 state).0 limit h in
    (splitmix_64 state, λ more. rw (one_more fuel more, draw_below) (rw (fits, draw_below) refl))
draw_below-returns (suc n) (suc fuel) limit state h k =
    let (r, same) = draw_below-returns n fuel limit (splitmix_64 state).1 h (omega arith) in
    elim (Bool-cases (ltb (splitmix_64 state).0 limit)) [
      | inl fits ↦ (
        splitmix_64 state,
        λ more. rw (one_more fuel more, draw_below) (rw (fits, draw_below) refl),
      )
      | inr over ↦ (r, λ more. rw (one_more fuel more, draw_below) (rw over (same more)))
    ]
