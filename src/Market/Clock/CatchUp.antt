-- ===== src/Market/Clock/CatchUp.antt =====
-- market-engine.ts, `runOwedTicks`: timers that fire late or with a bound skip no tick.
use exaint.Base.{
  ℕ, ◌+◌, ◌-◌, ◌/◌, ◌≤◌, ◌<◌, ◌≡◌, refl, sym, ◌∙◌, ap, Option, none, some, List, [], ◌∷◌, ◌++◌,
  arith, All,
}
use native.Mathlib.Nat.{le-div_iff_mul-le, div-mul-le_self}
use exaint.Market.Clock.{
  LogicalClock, owed_ticks, run_ticks, bounded, run_owed_ticks, pump_all, run_ticks-add,
  run_ticks_tick,
}

div_mono : (a b k : ℕ) → 0 < k → a ≤ b → a / k ≤ b / k
div_mono a b k p h =
    (le-div_iff_mul-le {x = a / k} {y = b} p).1 (omega (arith, div-mul-le_self a k))

owed_ticks_mono :
    (wall later : ℕ) (c : LogicalClock)
    → 0 < c.tick_ms
    → wall ≤ later
    → owed_ticks wall c ≤ owed_ticks later c
unfolding owed_ticks
owed_ticks_mono wall later c p h =
    ground (arith, div_mono (wall - c.start_time) (later - c.start_time) c.tick_ms p)

-- `k` ticks on, `k` fewer are owed.
owed_ticks-after :
    (wall k : ℕ) (c : LogicalClock)
    → owed_ticks wall (record c { tick = c.tick + k }) ≡ owed_ticks wall c - k
unfolding owed_ticks
owed_ticks-after wall k c = ground arith

bounded-le : (bound : Option ℕ) (owed : ℕ) → bounded bound owed ≤ owed
bounded-le none owed = omega arith
bounded-le (some b) owed = omega arith

module _ {ℓ} {S : Type ℓ} (market_tick : ℕ → S → S) where
  -- The rest of the owed ticks, after some of them.
  run_rest :
      (k wall : ℕ) (c : LogicalClock) (s : S)
      → k ≤ owed_ticks wall c
      → (let (c', s') = run_ticks market_tick k c s in
          run_ticks market_tick (owed_ticks wall c') c' s')
        ≡ run_ticks market_tick (owed_ticks wall c) c s
  run_rest k wall c s h =
      let e : (run_ticks market_tick k c s).0 ≡ record c { tick = c.tick + k } =
        run_ticks_tick market_tick k c s in
      let n : k + (owed_ticks wall c - k) ≡ owed_ticks wall c = omega arith in
      let o : owed_ticks wall (run_ticks market_tick k c s).0 ≡ owed_ticks wall c - k =
        ap (owed_ticks wall) e ∙ owed_ticks-after wall k c in
      rw o (
        sym (run_ticks-add market_tick k (owed_ticks wall c - k) c s)
        ∙ ap (λ j. run_ticks market_tick j c s) n)

  -- However the timer fires before wall time `wall` (late, several times at once, with any bounds on
  -- the ticks of one call), one unbounded call at `wall` then leaves the market and the clock as one
  -- unbounded call at `wall` alone: no tick is skipped, repeated or run with another timestamp.
  pub pump_all-run_ticks :
      (firings : List (ℕ × Option ℕ)) (wall : ℕ) (c : LogicalClock) (s : S)
      → 0 < c.tick_ms
      → All (λ (f : ℕ × Option ℕ). f.0 ≤ wall) firings
      → pump_all market_tick (firings ++ (wall, none) ∷ []) c s
        ≡ run_ticks market_tick (owed_ticks wall c) c s
  unfolding pump_all run_owed_ticks
  pump_all-run_ticks [] wall c s p h = refl
  pump_all-run_ticks ((w, bound) ∷ rest) wall c s p h =
      let k = bounded bound (owed_ticks w c) in
      let (c', s') = run_ticks market_tick k c s in
      let e : (run_ticks market_tick k c s).0 ≡ record c { tick = c.tick + k } =
        run_ticks_tick market_tick k c s in
      let q : c'.tick_ms ≡ c.tick_ms = ap (λ (x : LogicalClock). x.tick_ms) e in
      pump_all-run_ticks rest wall c' s' (omega arith) h.1
      ∙ run_rest k wall c s
          (omega (arith, bounded-le bound (owed_ticks w c), owed_ticks_mono w wall c p h.0))
