-- ===== src/Market/Engine/Tests.antt =====
-- symbol-engine.ts, prng.ts and symbol-registry.ts run on BTC.
use exaint.Base.{
  ℕ, ◌+◌, ◌*◌, ◌/◌, ◌%◌, ◌<◌, ◌≤◌, ◌≡◌, ◌↔◌, ◌≢◌, refl, String, List, [], ◌∷◌, Result, ok, err, map,
  All, arith, max, min, length, none, some, Option,
}
use exaint.Base.Int.{ℤ, pos}
use exaint.Base.Keys.{string_eq}
use exaint.Base.Map
use exaint.Base.Sorted.{contains}
use exaint.Protocol.{s1}
use exaint.Market.Config.{btc_config, config_by_symbol}
use exaint.Market.OrderBook.{OrderBook}
use exaint.Market.OrderBook.Invariant.{IsValid}
use exaint.Market.OrderBook.History.{Copy, Mirrors}
use exaint.Market.OrderBook.Run.{receive_all}
use exaint.Market.Candles.{CandleAggregator, empty_ring, new_aggregator}
use exaint.Market.Steps.{Fault, Post}
use exaint.Market.Prng.{word, splitmix_64, draw_below, next_big_int_below}
use exaint.Market.Prng.Bounds.{draw_at, draw_below-returns}
use exaint.Market.Prng.Sampling.{state_at, next_big_int_below_lem}
use exaint.Market.Simulator.Sound.{WellConfigured, Uncrossed, IsPrint}
use exaint.Market.Engine.{SymbolEngine, new_engine}
use exaint.Market.Engine.Sound.{
  start_and_run, run_engine, start_and_run-Uncrossed, run_engine-Mirrors,
}
use exaint.Market.Engine.Registry.{
  RegistryError, SymbolRegistry, empty_registry, new_registry, add_symbols, add_symbol,
  candles_within,
}
use exaint.Market.Engine.Registry.Bounded.{candles_within-le}
use exaint.Market.Engine.Registry.Accepted.{Fresh, new_registry-ok}

btc-WellConfigured : WellConfigured btc_config
btc-WellConfigured = record {
  spaced = omega arith;
  on_grid = refl;
  spread = omega arith;
  priced = omega arith;
  trade_range = omega arith;
  some_trade = omega arith;
  level_range = omega arith;
  some_level = omega arith;
}

start_and_run-Uncrossed_example : Post (start_and_run 8 btc_config 1 3 (1000 ∷ 1050 ∷ [])) (λ rs e.
    Uncrossed btc_config e.book × IsValid e.book e.book × All (λ r. All IsPrint r.trades) rs)
start_and_run-Uncrossed_example =
    start_and_run-Uncrossed btc-WellConfigured 8 1 3 (1000 ∷ 1050 ∷ []) (omega arith)

abbrev made : Result Fault SymbolEngine
made = new_engine 8 btc_config 1 3

abbrev default_engine : SymbolEngine
default_engine = record {
  config = btc_config;
  book = record {
    symbol = "BTC-USD";
    depth = 0;
    bids = [];
    asks = [];
    touched_bids = [];
    touched_asks = [];
    sequence = 0;
  };
  candles = [];
  simulator = record {
    prng = 0;
    fair_value = pos 0;
    last_noise_side = none;
    trend_velocity = pos 0;
    regime_ticks_remaining = pos 0;
  };
  next_trade_id = 1;
  ticks = 0;
}

abbrev engine_of : Result Fault SymbolEngine → SymbolEngine
engine_of (ok e) = e
engine_of (err x) = default_engine

made_ok : made ≡ ok (engine_of made)
unfolding new_engine exaint.Market.OrderBook.new exaint.Market.Candles.new_set
    exaint.Market.Simulator.new_simulator exaint.Market.Simulator.Ticks.seed_book
    exaint.Market.Simulator.targets exaint.Market.FixedPoint.floor_to_tick
    exaint.Market.Simulator.Quotes.requote exaint.Market.OrderBook.best
    exaint.Market.OrderBook.prices exaint.Base.Sort.sort Map.keys exaint.Base.Int.◌-ℤ◌
    exaint.Base.Int.rem_ℤ exaint.Base.Int.◌+ℤ◌ exaint.Market.OrderBook.quantity_at Map.get
    exaint.Market.Prng.next_big_int_between exaint.Base.Int.◌*ℤ◌ Map.delete Map.has Map.set
    exaint.Base.Sort.insert new_aggregator exaint.Market.Candles.new_ring
    exaint.Market.FixedPoint.max_big_int exaint.Market.FixedPoint.min_big_int
    exaint.Market.OrderBook.clear_levels exaint.Market.OrderBook.clear_pending_changes
    exaint.Market.OrderBook.set_level exaint.Market.OrderBook.trim draw_below
    exaint.Market.Prng.mix_64 exaint.Market.Prng.next_big_int_below splitmix_64
    exaint.Market.Simulator.Quotes.replenish exaint.Market.Simulator.Quotes.replenish_from
made_ok = refl

abbrev opening : Copy
opening = record { bids = (engine_of made).book.bids; asks = (engine_of made).book.asks }

run_engine-Mirrors_example :
    Post
      (run_engine 8 (1000 ∷ 1050 ∷ []) (engine_of made))
      (λ rs e'. Mirrors (receive_all (map (λ r. r.delta) rs) opening) e'.book)
run_engine-Mirrors_example =
    run_engine-Mirrors btc-WellConfigured 8 1 3 (1000 ∷ 1050 ∷ []) (engine_of made) opening
      (omega arith) made_ok (record { same_bids = λ p. refl; same_asks = λ p. refl })

first_draw : draw_at 0 7 < 18446744073709551600
unfolding draw_at splitmix_64
first_draw = omega arith

draw_below-returns_example :
    (r : ℕ × ℕ) × ((more : ℕ) → draw_below (3 + more) 18446744073709551600 7 ≡ ok r)
draw_below-returns_example = draw_below-returns 0 3 18446744073709551600 7 first_draw (omega arith)

-- The state behind one draw from 7.
abbrev state_of_7 : ℕ
state_of_7 = 11400714819323198492

draws_7 : next_big_int_below 3 (pos 10) 7 ≡ ok (7, state_of_7)
unfolding next_big_int_below draw_below splitmix_64 exaint.Market.Prng.mix_64
draws_7 = refl

next_big_int_below_lem_example : (next_big_int_below 3 (pos 10) 7 ≡ ok (7, state_of_7)) ↔ (
    (n : ℕ) × (k : ℕ) × (n < 3)
    × (k < word / 10)
    × ((m : ℕ) → m < n → word / 10 * 10 ≤ draw_at m 7)
    × (draw_at n 7 ≡ k * 10 + 7)
    × (state_at n 7 ≡ state_of_7))
next_big_int_below_lem_example = next_big_int_below_lem 3 10 7 7 state_of_7 (omega arith)

abbrev bytes_of : String → List ℕ
bytes_of symbol = 66 ∷ 84 ∷ 67 ∷ []

abbrev registry : Result RegistryError SymbolRegistry
registry = new_registry 8 bytes_of (pos 42) 3 ("BTC-USD" ∷ [])

abbrev registry_of : Result RegistryError SymbolRegistry → SymbolRegistry
registry_of (ok r) = r
registry_of (err e) = empty_registry

registry_ok : registry ≡ ok (registry_of registry)
unfolding new_registry add_symbols add_symbol config_by_symbol exaint.Market.Prng.derive_symbol_seed
    exaint.Market.Prng.fnv1a_64 exaint.Market.Prng.fnv_loop exaint.Market.Prng.as_uint_64 new_engine
    exaint.Market.OrderBook.new exaint.Market.Candles.new_set exaint.Market.Simulator.new_simulator
    exaint.Market.Simulator.Ticks.seed_book exaint.Market.Simulator.targets
    exaint.Market.FixedPoint.floor_to_tick exaint.Market.Simulator.Quotes.requote
    exaint.Market.OrderBook.best exaint.Market.OrderBook.prices exaint.Base.Sort.sort Map.keys
    exaint.Base.Int.◌-ℤ◌ exaint.Base.Int.rem_ℤ exaint.Base.Int.◌+ℤ◌
    exaint.Market.OrderBook.quantity_at Map.get exaint.Market.Prng.next_big_int_between
    exaint.Base.Int.◌*ℤ◌ Map.delete Map.has Map.set exaint.Base.Sort.insert new_aggregator
    exaint.Market.Candles.new_ring exaint.Market.FixedPoint.max_big_int
    exaint.Market.FixedPoint.min_big_int exaint.Market.OrderBook.clear_levels
    exaint.Market.OrderBook.clear_pending_changes exaint.Market.OrderBook.set_level
    exaint.Market.OrderBook.trim draw_below exaint.Market.Prng.mix_64
    exaint.Market.Prng.next_big_int_below splitmix_64 exaint.Market.Simulator.Quotes.replenish
    exaint.Market.Simulator.Quotes.replenish_from
registry_ok = refl

new_registry-ok_example :
    Fresh [] ("BTC-USD" ∷ [])
    × ◌≢◌ {A = List String} ("BTC-USD" ∷ []) []
    × ((registry_of registry).order ≡ "BTC-USD" ∷ [])
    × ((k : String) → Map.has k (registry_of registry).engines ≡ contains k ("BTC-USD" ∷ []))
new_registry-ok_example =
    new_registry-ok 8 bytes_of (pos 42) 3 ("BTC-USD" ∷ []) (registry_of registry) registry_ok

abbrev idle : CandleAggregator
idle = record { symbol = "BTC-USD"; interval = s1; history = empty_ring 360; active = none }

candles_within-le_example : length (candles_within 0 idle) ≤ max 1 (min 0 300)
candles_within-le_example = candles_within-le 0 idle
