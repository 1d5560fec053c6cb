-- ===== src/Market/Engine/Registry.antt =====
-- apps/api/src/market: symbol-registry.ts, market-engine.ts and market-repository.ts. The bytes of a
-- symbol in UTF-8 (`TextEncoder`) are a parameter.
pub mod Accepted
pub mod Bounded
use exaint.Base.{
  ℕ, ◌+◌, ◌-◌, min, max, String, Bool, true, false, not, Option, none, some, List, [], ◌∷◌, ◌++◌,
  map, Result, ok, err, keep_if, length, ◌==◌, if◌then◌else◌,
}
use exaint.Base.Int.{ℤ, pos}
use exaint.Base.Keys.{string_eq}
use exaint.Base.Map
use exaint.Base.Map.{Map}
use exaint.Protocol.{Interval}
use exaint.Protocol.Decimal.{Text, price_scale, quantity_scale, format_price}
use exaint.Delivery.Session.{same_interval}
use exaint.App.Wire.{Candle, BookSnapshot, encode_candle, encode_book_snapshot}
use exaint.Market.Events.{SymbolTickResult}
use exaint.Market.Config.{SymbolConfig, config_by_symbol}
use exaint.Market.Candles.{CandleAggregator, history_of}
use exaint.Market.Clock.{LogicalClock, advance}
use exaint.Market.Prng.{derive_symbol_seed}
use exaint.Market.Steps.{Fault, range_error, Step, pure, ◌>>=◌}
use exaint.Market.Engine.{SymbolEngine, new_engine, engine_tick, engine_snapshot, has_ticked}

pub data RegistryError : Type 0 where
  no_entry duplicate no_symbols : RegistryError
  engine_failed : Fault → RegistryError

pub record SymbolRegistry : Type 0 where
  pub engines : Map String SymbolEngine
  pub order : List String

abbrev pub empty_registry : SymbolRegistry
empty_registry = record { engines = []; order = [] }

module _ (fuel : ℕ) (utf_8 : String → List ℕ) (market_seed : ℤ) (book_depth : ℕ) where
  abbrev pub add_engine :
      String → SymbolRegistry → Result Fault SymbolEngine → Result RegistryError SymbolRegistry
  add_engine symbol r (ok engine) =
      ok (record { engines = Map.set symbol engine r.engines; order = r.order ++ symbol ∷ [] })
  add_engine symbol r (err e) = err (engine_failed e)

  abbrev pub add_known :
      String → SymbolRegistry → Option SymbolConfig → Result RegistryError SymbolRegistry
  add_known symbol r none = err no_entry
  add_known symbol r (some config) =
      if Map.has symbol r.engines
      then err duplicate
      else add_engine symbol r
          (new_engine fuel config (derive_symbol_seed market_seed (utf_8 symbol)) book_depth)

  unfoldable pub add_symbol : String → SymbolRegistry → Result RegistryError SymbolRegistry
  add_symbol symbol r = add_known symbol r (Map.get symbol config_by_symbol)

  unfoldable pub add_symbols : List String → SymbolRegistry → Result RegistryError SymbolRegistry
  add_symbols [] r = ok r
  add_symbols (symbol ∷ symbols) r = elim (add_symbol symbol r) [
    | ok r' ↦ add_symbols symbols r'
    | err e ↦ err e
  ]

  abbrev pub not_empty : SymbolRegistry → Result RegistryError SymbolRegistry
  not_empty r = if length r.order == 0 then err no_symbols else ok r

  unfoldable pub new_registry : List String → Result RegistryError SymbolRegistry
  new_registry symbols = elim (add_symbols symbols empty_registry) [
    | ok r ↦ not_empty r
    | err e ↦ err e
  ]

-- `engines()`: in registry order; `none` is the error that the order is out of sync.
unfoldable pub engines_in : List String → Map String SymbolEngine → Option (List SymbolEngine)
engines_in [] m = some []
engines_in (symbol ∷ rest) m = elim (Map.get symbol m) [
  | none ↦ none
  | some engine ↦ elim (engines_in rest m) [ none ↦ none | some es ↦ some (engine ∷ es) ]
]

pub record MarketSummary : Type 0 where
  pub symbol : String
  pub price_scale_of : ℕ
  pub quantity_scale_of : ℕ
  pub tick_size : Text
  pub book_depth : ℕ

abbrev pub summary_of : SymbolEngine → MarketSummary
summary_of e = record {
  symbol = e.config.symbol;
  price_scale_of = price_scale;
  quantity_scale_of = quantity_scale;
  tick_size = format_price (pos e.config.tick_size);
  book_depth = e.book.depth;
}

unfoldable pub summaries : SymbolRegistry → Option (List MarketSummary)
summaries r = elim (engines_in r.order r.engines) [
  | none ↦ none
  | some es ↦ some (map summary_of es)
]

-- market-engine.ts: the engines tick one after the other, in registry order.
pub record MarketEngine : Type 0 where
  pub clock : LogicalClock
  pub registry : SymbolRegistry

unfoldable pub tick_all :
    ℕ → ℕ → List String → Step (Map String SymbolEngine) (List SymbolTickResult)
tick_all fuel timestamp [] m = ok ([], m)
tick_all fuel timestamp (symbol ∷ rest) m = elim (Map.get symbol m) [
  | none ↦ err range_error
  | some engine ↦ elim (engine_tick fuel timestamp engine) [
    | err e ↦ err e
    | ok r ↦ elim (tick_all fuel timestamp rest (Map.set symbol r.1 m)) [
      | err e ↦ err e
      | ok s ↦ ok (r.0 ∷ s.0, s.1)
    ]
  ]
]

unfoldable pub advance_market : ℕ → Step MarketEngine (List SymbolTickResult)
advance_market fuel market =
    let (timestamp, clock) = advance market.clock in
    elim (tick_all fuel timestamp market.registry.order market.registry.engines) [
      | err e ↦ err e
      | ok r ↦ ok (
        r.0,
        record market { clock = clock; registry = record market.registry { engines = r.1 } },
      )
    ]

-- market-repository.ts.
abbrev pub candle_history_limit_max : ℕ
candle_history_limit_max = 300

unfoldable pub aggregator_of : Interval → List CandleAggregator → Option CandleAggregator
aggregator_of interval [] = none
aggregator_of interval (a ∷ rest) =
    if same_interval a.interval interval then some a else aggregator_of interval rest

-- Completed candles, then the open one, within the limit.
unfoldable pub candles_within : ℕ → CandleAggregator → List Candle
candles_within limit a =
    let bounded = max 1 (min limit candle_history_limit_max) in
    elim a.active [
      | none ↦ map (λ c. encode_candle c true) (history_of (some bounded) a)
      | some active ↦
          map (λ c. encode_candle c true) (history_of (some (bounded - 1)) a)
          ++ encode_candle active false ∷ []
    ]

unfoldable pub repository_candles : String → Interval → ℕ → SymbolRegistry → Option (List Candle)
repository_candles symbol interval limit r = elim (Map.get symbol r.engines) [
  | none ↦ none
  | some e ↦ elim (aggregator_of interval e.candles) [
    | none ↦ none
    | some a ↦ some (candles_within limit a)
  ]
]

unfoldable pub book_snapshot : String → SymbolRegistry → Option BookSnapshot
book_snapshot symbol r = elim (Map.get symbol r.engines) [
  | none ↦ none
  | some e ↦ some (encode_book_snapshot (engine_snapshot e))
]

-- `none` is the error that the order is out of sync, as in `engines_in`.
unfoldable pub pending_symbols : SymbolRegistry → Option (List String)
pending_symbols r = elim (engines_in r.order r.engines) [
  | none ↦ none
  | some es ↦ some (map (λ e. e.config.symbol) (keep_if (λ e. not (has_ticked e)) es))
]
