-- ===== src/Market/Engine.antt =====
-- apps/api/src/market/symbol-engine.ts: one symbol's simulator, book, candles and trade ids.
pub mod Sound
pub mod Registry
pub mod Tests
use exaint.Base.{
  ℕ, ◌+◌, String, Bool, Option, none, some, List, [], ◌∷◌, ◌++◌, Result, ok, err, ltb,
}
use exaint.Market.Events.{
  DomainTrade, DomainCandle, DomainBookSnapshot, SymbolTickResult, candle_history_capacity,
}
use exaint.Market.Config.{SymbolConfig}
use exaint.Market.OrderBook.{OrderBook, new, flush_delta, snapshot}
use exaint.Market.Candles.{
  SymbolCandleSet, candle_intervals, new_set, close_all, apply_all, active_candles,
}
use exaint.Market.Steps.{Fault, range_error, Done, Step}
use exaint.Market.Simulator.{MarketSimulator, Scene, new_simulator}
use exaint.Market.Simulator.Ticks.{seed_book, tick}

pub record SymbolEngine : Type 0 where
  pub config : SymbolConfig
  pub book : OrderBook
  pub candles : SymbolCandleSet
  pub simulator : MarketSimulator
  pub next_trade_id : ℕ
  pub ticks : ℕ

abbrev pub has_ticked : SymbolEngine → Bool
has_ticked e = ltb 0 e.ticks

abbrev pub engine_snapshot : SymbolEngine → DomainBookSnapshot
engine_snapshot e = snapshot e.book

-- The simulator at the start of a tick.
abbrev pub scene_of : SymbolEngine → Scene
scene_of e = record { sim = e.simulator; book = e.book; sink = []; next_trade_id = e.next_trade_id }

abbrev pub seeded :
    SymbolConfig → SymbolCandleSet → Result Fault (Done × Scene) → Result Fault SymbolEngine
seeded config candles (ok (_, w)) = ok (record {
  config = config;
  book = w.book;
  candles = candles;
  simulator = w.sim;
  next_trade_id = 1;
  ticks = 0;
})
seeded config candles (err e) = err e

module _ (fuel : ℕ) where
  unfoldable pub new_engine : SymbolConfig → ℕ → ℕ → Result Fault SymbolEngine
  new_engine config seed book_depth = elim (new config.symbol book_depth) [
    | none ↦ err range_error
    | some book ↦ elim (new_set config.symbol candle_intervals candle_history_capacity) [
      | none ↦ err range_error
      | some candles ↦ elim (new_simulator config seed) [
        | none ↦ err range_error
        | some sim ↦ seeded config candles (
            seed_book config fuel (record { sim = sim; book = book; sink = []; next_trade_id = 1 }))
      ]
    ]
  ]

-- `finalisedCandles.push(...this.candles.apply(trade))` for every trade.
unfoldable pub apply_trades :
    List DomainTrade → SymbolCandleSet → List DomainCandle × SymbolCandleSet
apply_trades [] s = ([], s)
apply_trades (trade ∷ trades) s =
    let (finalised, s') = apply_all trade s in
    let (rest, s'') = apply_trades trades s' in (finalised ++ rest, s'')

abbrev pub active_after : List DomainTrade → SymbolCandleSet → List DomainCandle
active_after [] s = []
active_after (trade ∷ trades) s = active_candles s

-- The rest of a tick, after the simulator's part: the flush, then buckets close before trades fold.
unfoldable pub finish_tick : ℕ → SymbolEngine → Scene → SymbolTickResult × SymbolEngine
finish_tick timestamp e w =
    let (delta, book) = flush_delta timestamp w.book in
    let (closed, candles) = close_all timestamp e.candles in
    let (finalised, candles') = apply_trades w.sink candles in
    (
      record {
        symbol = e.config.symbol;
        timestamp = timestamp;
        trades = w.sink;
        delta = delta;
        finalised_candles = closed ++ finalised;
        active_candles = active_after w.sink candles';
      },
      record e {
        book = book;
        candles = candles';
        simulator = w.sim;
        next_trade_id = w.next_trade_id;
        ticks = e.ticks + 1;
      },
    )

abbrev pub after_scene :
    ℕ → SymbolEngine → Result Fault (Done × Scene) → Result Fault (SymbolTickResult × SymbolEngine)
after_scene timestamp e (ok (_, w)) = ok (finish_tick timestamp e w)
after_scene timestamp e (err x) = err x

module _ (fuel : ℕ) where
  unfoldable pub engine_tick : ℕ → Step SymbolEngine SymbolTickResult
  engine_tick timestamp e = after_scene timestamp e (tick e.config fuel timestamp (scene_of e))
