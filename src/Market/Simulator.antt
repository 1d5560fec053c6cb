-- ===== src/Market/Simulator.antt =====
-- apps/api/src/market/simulator/generator.ts. The simulator with the book that it changes, the
-- trades of the tick and the counter of trade ids are one state; the configuration and the fuel of
-- the draws are parameters.
pub mod Flow
pub mod Quotes
pub mod Ticks
pub mod Sound
use exaint.Base.{
  ℕ, zero, suc, ◌+◌, ◌-◌, ◌*◌, ◌/◌, ◌%◌, min, Bool, true, false, not, Option, none, some, List, [],
  ◌∷◌, ◌++◌, Result, ok, err, ltb, leb, ◌==◌, if◌then◌else◌, or_else, length, take, get_elem?,
}
use exaint.Base.Int.{ℤ, pos, neg, ◌+ℤ◌, ◌-ℤ◌, ◌*ℤ◌, ltb_ℤ, leb_ℤ, eqb_ℤ, div_ℤ}
use exaint.Protocol.{Side, buy, sell}
use exaint.Market.Events.{DomainTrade}
use exaint.Market.FixedPoint.{min_big_int, max_big_int, clamp_big_int, floor_to_tick}
use exaint.Market.OrderBook.{
  OrderBook, BookSide, bid, ask, prices, best, quantity_at, set_level, add_quantity, trim,
  clear_pending_changes,
}
use exaint.Market.Steps.{
  Fault, range_error, Done, Step, pure, throw, gets, skip, modify, ◌>>=◌, ◌>>◌,
}
use exaint.Market.Prng.{
  Draw, next_float, next_boolean, next_big_int_between, next_int_between, next_bell_between,
}
use exaint.Market.Config.{SymbolConfig, order_flow_persistence}

pub record MarketSimulator : Type 0 where
  pub prng : ℕ
  pub fair_value : ℤ
  pub last_noise_side : Option Side
  pub trend_velocity : ℤ
  pub regime_ticks_remaining : ℤ

-- The simulator at work: `sink` is the array of the tick's trades.
pub record Scene : Type 0 where
  pub sim : MarketSimulator
  pub book : OrderBook
  pub sink : List DomainTrade
  pub next_trade_id : ℕ

-- `none` is the RangeError.
unfoldable pub new_simulator : SymbolConfig → ℕ → Option MarketSimulator
new_simulator config seed =
    if not (config.level_spacing % config.tick_size == 0)
    then none
    else some (record {
      prng = seed;
      fair_value = pos config.base_price;
      last_noise_side = none;
      trend_velocity = pos 0;
      regime_ticks_remaining = pos 0;
    })

abbrev pub Scenic : Type 0 → Type 0
Scenic A = Step Scene A

abbrev pub with_draw : {A : Type 0} → Result Fault (A × ℕ) → Scene → Result Fault (A × Scene)
with_draw (ok r) w = ok (r.0, record w { sim = record w.sim { prng = r.1 } })
with_draw (err e) w = err e

abbrev pub draw : {A : Type 0} → Draw A → Scenic A
draw d w = with_draw (d w.sim.prng) w

abbrev pub with_book : Option OrderBook → Scenic Done
with_book none w = err range_error
with_book (some b) w = ok (tt, record w { book = b })

abbrev pub or_throw : {A : Type 0} → Option A → Scenic A
or_throw none w = err range_error
or_throw (some a) w = ok (a, w)

abbrev pub set_sim : (MarketSimulator → MarketSimulator) → Scenic Done
set_sim f = modify (λ w. record w { sim = f w.sim })

abbrev pub write_level : BookSide → ℤ → ℤ → Scenic Done
write_level s price quantity w = with_book (set_level s price quantity w.book) w

abbrev pub change_level : BookSide → ℤ → ℤ → Scenic Done
change_level s price delta w = with_book (add_quantity s price delta w.book) w

-- The side of the book that a trade consumes.
abbrev pub opposite : Side → BookSide
opposite buy = ask
opposite sell = bid

abbrev pub flip : Side → Side
flip buy = sell
flip sell = buy

abbrev pub remember : Side → Scenic Side
remember side = set_sim (λ sim. record sim { last_noise_side = some side }) >> pure side

module _ (config : SymbolConfig) where
  abbrev pub floor : ℤ
  floor = pos (config.base_price / 4)

  abbrev pub ceiling : ℤ
  ceiling = pos (config.base_price * 4)

  unfoldable pub targets : Scenic (ℤ × ℤ)
  targets = do
    fair ← gets (λ w. w.sim.fair_value)
    anchor ← or_throw (floor_to_tick fair config.level_spacing)
    pure (anchor, anchor +ℤ pos config.level_spacing *ℤ pos config.spread_spacings)

module _ (config : SymbolConfig) (fuel : ℕ) where
  abbrev pub random_level_quantity : Scenic ℤ
  random_level_quantity =
      draw
        (next_big_int_between fuel (pos config.min_level_quantity) (pos config.max_level_quantity))
