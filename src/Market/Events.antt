-- ===== src/Market/Events.antt =====
-- apps/api/src/market/events.ts and candles/candle.ts: domain values. A `bigint` that is a price, a
-- quantity or a volume is ℤ; identifiers and sequences, which only count up, are ℕ, and so are
-- timestamps (whole milliseconds).
use exaint.Base.{ℕ, String, List, Option, ◌*◌, ◌/◌}
use exaint.Base.Int.{ℤ}
use exaint.Protocol.{Interval, Side}

pub record DomainTrade : Type 0 where
  pub symbol : String
  pub trade_id : ℕ
  pub timestamp : ℕ
  pub side : Side
  pub price : ℤ
  pub quantity : ℤ

-- Price and quantity; quantity 0 in a delta deletes the level.
abbrev pub DomainBookLevel : Type 0
DomainBookLevel = ℤ × ℤ

pub record DomainBookSnapshot : Type 0 where
  pub symbol : String
  pub sequence : ℕ
  pub bids : List DomainBookLevel
  pub asks : List DomainBookLevel

pub record DomainBookDelta : Type 0 where
  pub symbol : String
  pub previous_sequence : ℕ
  pub sequence : ℕ
  pub timestamp : ℕ
  pub bids : List DomainBookLevel
  pub asks : List DomainBookLevel

pub record DomainCandle : Type 0 where
  pub symbol : String
  pub interval : Interval
  pub start_time : ℕ
  pub open_price : ℤ
  pub high : ℤ
  pub low : ℤ
  pub close : ℤ
  pub volume : ℤ
  pub trade_count : ℕ
  pub last_trade_id : ℕ

-- `Math.ceil(CANDLE_HISTORY_LIMIT_MAX * 1.2)`.
abbrev pub candle_history_capacity : ℕ
candle_history_capacity = 360

-- The start of the bucket a timestamp belongs to.
unfoldable pub candle_start : ℕ → ℕ → ℕ
candle_start timestamp interval_ms = timestamp / interval_ms * interval_ms

pub record SymbolTickResult : Type 0 where
  pub symbol : String
  pub timestamp : ℕ
  pub trades : List DomainTrade
  pub delta : Option DomainBookDelta
  pub finalised_candles : List DomainCandle
  pub active_candles : List DomainCandle
