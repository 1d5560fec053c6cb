-- ===== src/Market/Simulator/Flow.antt =====
-- generator.ts: trades. Prints, fills, cascades, regimes and the sides of the noise.
use exaint.Base.{
  ℕ, ◌+◌, min, Bool, false, Option, none, some, List, [], ◌∷◌, ◌++◌, ltb, leb, ◌==◌, if◌then◌else◌,
  length, take,
}
use exaint.Base.Int.{ℤ, pos, neg, ◌-ℤ◌, ltb_ℤ, leb_ℤ}
use exaint.Protocol.{Side, buy, sell}
use exaint.Market.FixedPoint.{min_big_int, clamp_big_int}
use exaint.Market.OrderBook.{prices, best, quantity_at}
use exaint.Market.Steps.{Done, pure, gets, skip, modify, ◌>>=◌, ◌>>◌}
use exaint.Market.Prng.{next_float, next_boolean, next_int_between}
use exaint.Market.Config.{SymbolConfig, order_flow_persistence}
use exaint.Market.Simulator.{
  Scenic, draw, or_throw, set_sim, write_level, change_level, opposite, flip, remember, floor,
  ceiling,
}

-- Consumption of one level: the quantity left to trade, where there is a cap, and what is taken.
abbrev pub taken_of : Option ℤ → ℤ → ℤ
taken_of none available = available
taken_of (some remaining) available = min_big_int available remaining

abbrev pub left_of : Option ℤ → ℤ → Option ℤ
left_of none taken = none
left_of (some remaining) taken = some (remaining -ℤ taken)

abbrev pub used_up : Option ℤ → Bool
used_up none = false
used_up (some remaining) = leb_ℤ remaining (pos 0)

abbrev pub past_limit : Side → ℤ → Option ℤ → Bool
past_limit side price none = false
past_limit buy price (some limit) = leb_ℤ limit price
past_limit sell price (some limit) = leb_ℤ price limit

-- 3/4 of the time the way of the trend, 1/2 where there is none.
unfoldable pub cascade_side : Scenic Side
cascade_side = gets (λ w. w.sim.trend_velocity) >>= λ velocity.
    if ltb_ℤ (pos 0) velocity
    then (draw next_float >>= λ roll. pure (if ltb roll 6755399441055744 then buy else sell))
    else if ltb_ℤ velocity (pos 0)
    then (draw next_float >>= λ roll. pure (if ltb roll 6755399441055744 then sell else buy))
    else draw next_boolean >>= λ coin. pure (if coin then buy else sell)

abbrev pub noise_side_after : Option Side → Scenic Side
noise_side_after none = draw next_boolean >>= λ coin. remember (if coin then buy else sell)
noise_side_after (some side) = draw next_float >>= λ roll.
    if leb order_flow_persistence roll then remember (flip side) else pure side

unfoldable pub next_noise_side : Scenic Side
next_noise_side = gets (λ w. w.sim.last_noise_side) >>= noise_side_after

module _ (config : SymbolConfig) where
  -- `sink.push`, with a fresh trade id.
  abbrev pub print_trade : Side → ℤ → ℤ → ℕ → Scenic Done
  print_trade side price quantity timestamp = modify (λ w. record w {
    sink =
        w.sink
        ++ record {
          symbol = config.symbol;
          trade_id = w.next_trade_id;
          timestamp = timestamp;
          side = side;
          price = price;
          quantity = quantity;
        }
          ∷ [];
    next_trade_id = w.next_trade_id + 1;
  })

  -- The loop of `#fill` over the prices of the opposite side.
  unfoldable pub fill_levels : Side → Option ℤ → ℕ → List ℤ → Option ℤ → Scenic Done
  fill_levels side limit timestamp [] remaining = skip
  fill_levels side limit timestamp (price ∷ rest) remaining =
      if used_up remaining
      then skip
      else if past_limit side price limit
      then skip
      else (gets (λ w. quantity_at (opposite side) price w.book) >>= λ available.
          if leb_ℤ available (pos 0)
          then fill_levels side limit timestamp rest remaining
          else let taken = taken_of remaining available in
            change_level (opposite side) price (neg taken)
            >> print_trade side price taken timestamp
            >> fill_levels side limit timestamp rest (left_of remaining taken))

  unfoldable pub fill : Side → Option ℤ → Option ℤ → ℕ → Scenic Done
  unfolding fill_levels
  fill side quantity limit timestamp = gets (λ w. prices (opposite side) w.book) >>= λ ps.
      fill_levels side limit timestamp ps quantity

  -- The loop of `#executeCascade`.
  unfoldable pub sweep_levels : Side → ℕ → List ℤ → Scenic Done
  sweep_levels side timestamp [] = skip
  sweep_levels side timestamp (price ∷ rest) =
      gets (λ w. quantity_at (opposite side) price w.book) >>= λ available.
      if leb_ℤ available (pos 0)
      then sweep_levels side timestamp rest
      else (write_level (opposite side) price (pos 0)
          >> print_trade side price available timestamp
          >> sweep_levels side timestamp rest)

  abbrev pub follow_touch : Option ℤ → Scenic Done
  follow_touch none = skip
  follow_touch (some touch) = do
    clamped ← or_throw (clamp_big_int touch (floor config) (ceiling config))
    set_sim (λ sim. record sim { fair_value = clamped })

module _ (config : SymbolConfig) (fuel : ℕ) where
  abbrev pub enter_regime : ℤ → ℕ → ℕ → Scenic Done
  enter_regime velocity low high = draw (next_int_between fuel low high) >>= λ ticks.
      set_sim (λ sim. record sim { trend_velocity = velocity; regime_ticks_remaining = pos ticks })

  abbrev pub choose_regime : ℕ → Scenic Done
  choose_regime roll =
      if ltb roll 4503599627370496
      then enter_regime (pos 0) 30 80
      else if ltb roll 6755399441055744
      then enter_regime (pos config.volatility) 20 50
      else enter_regime (neg (pos config.volatility)) 20 50

  unfoldable pub update_regime : Scenic Done
  update_regime =
      if config.volatility == 0
      then set_sim (λ sim. record sim { trend_velocity = pos 0; regime_ticks_remaining = pos 0 })
      else (set_sim
            (λ sim. record sim { regime_ticks_remaining = sim.regime_ticks_remaining -ℤ pos 1 })
          >> gets (λ w. w.sim.regime_ticks_remaining)
          >>= λ remaining.
              if leb_ℤ remaining (pos 0) then draw next_float >>= choose_regime else skip)

  unfoldable pub execute_cascade : ℕ → Scenic Done
  unfolding cascade_side sweep_levels
  execute_cascade timestamp = cascade_side >>= λ side.
      gets (λ w. prices (opposite side) w.book) >>= λ ps.
      if length ps == 0
      then skip
      else (draw (next_int_between fuel 2 4) >>= λ levels.
          sweep_levels config side timestamp (take (min levels (length ps)) ps)
          >> gets (λ w. best (opposite side) w.book)
          >>= follow_touch config)
