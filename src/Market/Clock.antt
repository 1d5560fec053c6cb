-- ===== src/Market/Clock.antt =====
-- apps/api/src/market/simulator/clock.ts and the catch-up loop of market-engine.ts. The work of a
-- tick is a parameter: any function of the tick's timestamp on any state.
pub mod CatchUp
pub mod Tests
use exaint.Base.{
  ℕ, zero, suc, ◌+◌, ◌-◌, ◌*◌, ◌/◌, ◌≤◌, ◌<◌, ◌≡◌, refl, sym, ◌∙◌, ap, Bool, true, false, Option,
  none, some, List, [], ◌∷◌, ◌++◌, ltb, leb, ◌==◌, if◌then◌else◌, arith, min, length, Bool-cases,
  inl, inr,
}

pub record LogicalClock : Type 0 where
  pub tick_ms : ℕ
  pub start_time : ℕ
  pub tick : ℕ

unfoldable pub new : ℕ → ℕ → Option LogicalClock
new tick_ms start_time =
    if tick_ms == 0
    then none
    else some (record { tick_ms = tick_ms; start_time = start_time; tick = 0 })

abbrev pub time_at : ℕ → LogicalClock → ℕ
time_at tick c = c.start_time + tick * c.tick_ms

abbrev pub now : LogicalClock → ℕ
now c = time_at c.tick c

-- `Math.max(0, …)` is subtraction on ℕ.
unfoldable pub owed_ticks : ℕ → LogicalClock → ℕ
owed_ticks wall c = if ltb wall c.start_time then 0 else (wall - c.start_time) / c.tick_ms - c.tick

unfoldable pub advance : LogicalClock → ℕ × LogicalClock
advance c = (now c, record c { tick = c.tick + 1 })

-- `none` is the default bound, infinity.
abbrev pub bounded : Option ℕ → ℕ → ℕ
bounded none owed = owed
bounded (some max_ticks) owed = min owed max_ticks

-- market-engine.ts: `runOwedTicks` over a market of any kind, with `tick` for `advance(sink)`.
module _ {ℓ} {S : Type ℓ} (market_tick : ℕ → S → S) where
  unfoldable pub run_ticks : ℕ → LogicalClock → S → LogicalClock × S
  unfolding advance
  run_ticks zero c s = (c, s)
  run_ticks (suc n) c s =
      let (timestamp, c') = advance c in run_ticks n c' (market_tick timestamp s)

  unfoldable pub run_owed_ticks : ℕ → Option ℕ → LogicalClock → S → ℕ × LogicalClock × S
  unfolding run_ticks owed_ticks
  run_owed_ticks wall max_ticks c s =
      let owed = bounded max_ticks (owed_ticks wall c) in
      let (c', s') = run_ticks owed c s in (owed, c', s')

  -- A schedule of timer firings: the wall times at which the engine is pumped, each with its bound.
  unfoldable pub pump_all : List (ℕ × Option ℕ) → LogicalClock → S → LogicalClock × S
  unfolding run_owed_ticks
  pump_all [] c s = (c, s)
  pump_all ((wall, max_ticks) ∷ rest) c s =
      let (owed, c', s') = run_owed_ticks wall max_ticks c s in pump_all rest c' s'

  pub run_ticks-add :
      (m n : ℕ) (c : LogicalClock) (s : S)
      → run_ticks (m + n) c s ≡ (let (c', s') = run_ticks m c s in run_ticks n c' s')
  unfolding run_ticks
  run_ticks-add zero n c s = let e : 0 + n ≡ n = omega arith in rw e refl
  run_ticks-add (suc m) n c s =
      let e : suc m + n ≡ suc (m + n) = omega arith in
      rw (e, run_ticks) (run_ticks-add m n (record c { tick = c.tick + 1 }) (market_tick (now c) s))

  pub run_ticks_tick :
      (n : ℕ) (c : LogicalClock) (s : S) → (run_ticks n c s).0 ≡ record c { tick = c.tick + n }
  unfolding run_ticks
  run_ticks_tick zero c s = ground arith
  run_ticks_tick (suc n) c s =
      run_ticks_tick n (record c { tick = c.tick + 1 }) (market_tick (now c) s) ∙ ground arith
