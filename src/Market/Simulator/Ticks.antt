-- ===== src/Market/Simulator/Ticks.antt =====
-- generator.ts: `seedBook` and `tick`.
use exaint.Base.{ℕ, none, some, ltb, if◌then◌else◌}
use exaint.Base.Int.{ℤ, pos, ◌+ℤ◌}
use exaint.Protocol.{buy, sell}
use exaint.Market.FixedPoint.{clamp_big_int}
use exaint.Market.OrderBook.{clear_pending_changes}
use exaint.Market.Steps.{Done, gets, skip, modify, ◌>>=◌, ◌>>◌}
use exaint.Market.Prng.{next_float, next_big_int_between, next_bell_between}
use exaint.Market.Config.{SymbolConfig}
use exaint.Market.Simulator.{Scenic, draw, or_throw, set_sim, floor, ceiling, targets}
use exaint.Market.Simulator.Flow.{fill, execute_cascade, next_noise_side, update_regime}
use exaint.Market.Simulator.Quotes.{churn, requote, replenish, trim_book}

module _ (config : SymbolConfig) (fuel : ℕ) where
  unfoldable pub seed_book : Scenic Done
  seed_book = targets config >>= λ desired.
      requote config fuel desired.0 desired.1
      >> replenish config fuel desired.0 desired.1
      >> trim_book
      >> modify (λ w. record w { book = clear_pending_changes w.book })

  abbrev pub move_fair_value : Scenic Done
  move_fair_value = draw (next_bell_between fuel (pos config.volatility)) >>= λ random_step.
      gets (λ w. w.sim) >>= λ sim.
      or_throw (
        clamp_big_int (sim.fair_value +ℤ random_step +ℤ sim.trend_velocity) (floor config)
          (ceiling config))
      >>= λ fair. set_sim (λ sim. record sim { fair_value = fair })

  -- 0.018.
  abbrev pub maybe_cascade : ℕ → Scenic Done
  maybe_cascade timestamp =
      if ltb 0 config.volatility
      then (draw next_float >>= λ roll.
          if ltb roll 162129586585338 then execute_cascade config fuel timestamp else skip)
      else skip

  abbrev pub maybe_noise : ℕ → Scenic Done
  maybe_noise timestamp = draw next_float >>= λ roll.
      if ltb roll config.trade_probability
      then (next_noise_side >>= λ side.
          draw (
            next_big_int_between fuel (pos config.min_trade_quantity)
              (pos config.max_trade_quantity))
          >>= λ quantity. fill config side (some quantity) none timestamp)
      else skip

  -- The events of a tick, up to the new quotes.
  abbrev pub trade_round : ℕ → ℤ × ℤ → Scenic Done
  trade_round timestamp desired =
      fill config buy none (some desired.1) timestamp
      >> fill config sell none (some desired.0) timestamp
      >> maybe_cascade timestamp
      >> maybe_noise timestamp
      >> churn config fuel

  -- `sink` is empty at the start.
  unfoldable pub tick : ℕ → Scenic Done
  tick timestamp = update_regime config fuel >> move_fair_value >> targets config >>= λ desired.
      trade_round timestamp desired
      >> requote config fuel desired.0 desired.1
      >> replenish config fuel desired.0 desired.1
      >> trim_book
