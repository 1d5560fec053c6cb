-- ===== src/App/Wire.antt =====
-- apps/api/src/app/wire.ts: domain values to wire values, and the wire's records
-- (packages/protocol/src/market.ts).
use exaint.Base.{ℕ, Bool, String, List, map, if◌then◌else◌, [], ◌∷◌}
use exaint.Base.Int.{pos, eqb_ℤ}
use exaint.Protocol.{Side}
use exaint.Protocol.Decimal.{Text, format_price, format_quantity, format_identifier}
use exaint.Market.Events.{
  DomainTrade, DomainBookLevel, DomainBookDelta, DomainBookSnapshot, DomainCandle,
}

abbrev pub BookLevel : Type 0
BookLevel = Text × Text

pub record Trade : Type 0 where
  pub symbol : String
  pub trade_id : Text
  pub timestamp : ℕ
  pub side : Side
  pub price : Text
  pub quantity : Text

pub record BookSnapshot : Type 0 where
  pub symbol : String
  pub sequence : Text
  pub bids : List BookLevel
  pub asks : List BookLevel

pub record BookDelta : Type 0 where
  pub symbol : String
  pub previous_sequence : Text
  pub sequence : Text
  pub timestamp : ℕ
  pub bids : List BookLevel
  pub asks : List BookLevel

pub record Candle : Type 0 where
  pub symbol : String
  pub start_time : ℕ
  pub open_price : Text
  pub high : Text
  pub low : Text
  pub close : Text
  pub volume : Text
  pub trade_count : ℕ
  pub last_trade_id : Text
  pub final : Bool

-- Quantity 0 is the delete sentinel "0".
abbrev pub encode_level : DomainBookLevel → BookLevel
encode_level (price, quantity) =
    (format_price price, if eqb_ℤ quantity (pos 0) then b'0' ∷ [] else format_quantity quantity)

unfoldable pub encode_levels : List DomainBookLevel → List BookLevel
encode_levels levels = map encode_level levels

unfoldable pub encode_trade : DomainTrade → Trade
encode_trade trade = record {
  symbol = trade.symbol;
  trade_id = format_identifier trade.trade_id;
  timestamp = trade.timestamp;
  side = trade.side;
  price = format_price trade.price;
  quantity = format_quantity trade.quantity;
}

unfoldable pub encode_book_snapshot : DomainBookSnapshot → BookSnapshot
encode_book_snapshot snapshot = record {
  symbol = snapshot.symbol;
  sequence = format_identifier snapshot.sequence;
  bids = encode_levels snapshot.bids;
  asks = encode_levels snapshot.asks;
}

unfoldable pub encode_book_delta : DomainBookDelta → BookDelta
encode_book_delta delta = record {
  symbol = delta.symbol;
  previous_sequence = format_identifier delta.previous_sequence;
  sequence = format_identifier delta.sequence;
  timestamp = delta.timestamp;
  bids = encode_levels delta.bids;
  asks = encode_levels delta.asks;
}

unfoldable pub encode_candle : DomainCandle → Bool → Candle
encode_candle candle final = record {
  symbol = candle.symbol;
  start_time = candle.start_time;
  open_price = format_price candle.open_price;
  high = format_price candle.high;
  low = format_price candle.low;
  close = format_price candle.close;
  volume = format_quantity candle.volume;
  trade_count = candle.trade_count;
  last_trade_id = format_identifier candle.last_trade_id;
  final = final;
}
