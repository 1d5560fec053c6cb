-- ===== src/Web/UiModel.antt =====
-- model/market-ui-model.ts: class MarketUiModel. The wire's schema admits only trade ids that parse.
pub mod Groups
pub mod Latest
pub mod Shown
mod Tests
use exaint.Base.{
  ℕ, String, Bool, true, if◌then◌else◌, Option, none, some, or_else, List, [], ◌∷◌, ◌++◌, ltb, take,
}
use exaint.Base.Keys.{nat_eq, string_eq}
use exaint.Base.Map
use exaint.Base.Map.{Map}
use exaint.Base.Sort.{sort}
use exaint.Protocol.Decimal.{Text, parsed_identifier, format_identifier}
use exaint.App.Wire.{Trade}
use exaint.Web.OrderBookModel.{DisplayLevel}
use mathlib.Core.Option
use text.Mathlib.Text.{◌==◌ as same_text}

abbrev pub recent_trade_limit : ℕ
recent_trade_limit = 50

-- A trade with its id.
abbrev pub IdentifiedTrade : Type 0
IdentifiedTrade = ℕ × Trade

pub record SymbolTradeState : Type 0 where
  pub baseline_price : Option Text
  pub last_trade_id : Option ℕ
  pub latest_price : Option Text
  pub recent_trades : Map ℕ Trade

pub record MarketUiModel : Type 0 where
  pub selected_symbol : String
  pub symbols : Map String SymbolTradeState

pub record TopOrderBookLevels : Type 0 where
  pub bids : List DisplayLevel
  pub asks : List DisplayLevel

pub record MarketUiSnapshot : Type 0 where
  pub selected_symbol : String
  pub latest_price : Option Text
  pub session_baseline_price : Option Text
  pub last_trade_id : Option Text
  pub recent_trades : List Trade
  pub bids : List DisplayLevel
  pub asks : List DisplayLevel

abbrev pub new_ui_model : String → MarketUiModel
new_ui_model selected = record { selected_symbol = selected; symbols = [] }

abbrev pub created : SymbolTradeState
created = record {
  baseline_price = none;
  last_trade_id = none;
  latest_price = none;
  recent_trades = [];
}

abbrev pub state_for : String → MarketUiModel → SymbolTradeState
state_for symbol m = or_else (Map.get symbol m.symbols) created

unfoldable pub select_symbol : String → MarketUiModel → MarketUiModel
select_symbol symbol m =
    if same_text symbol m.selected_symbol
    then m
    else record { selected_symbol = symbol; symbols = Map.delete m.selected_symbol m.symbols }

-- The first loop of `processTrades`, over the groups so far.
unfoldable pub group_trades :
    List Trade → Map String (List IdentifiedTrade) → Map String (List IdentifiedTrade)
group_trades [] groups = groups
group_trades (trade ∷ rest) groups =
    let identified : IdentifiedTrade = (parsed_identifier trade.trade_id, trade) in
    let symbol_trades = or_else (Map.get trade.symbol groups) [] in
    group_trades rest (Map.set trade.symbol (symbol_trades ++ identified ∷ []) groups)

abbrev pub by_id : IdentifiedTrade → IdentifiedTrade → Bool
by_id left right = ltb left.0 right.0

abbrev pub by_id_falling : IdentifiedTrade → IdentifiedTrade → Bool
by_id_falling left right = ltb right.0 left.0

abbrev pub is_latest : ℕ → Option ℕ → Bool
is_latest id none = true
is_latest id (some last) = ltb last id

-- One pass of the inner loop.
unfoldable pub note_trade : IdentifiedTrade → SymbolTradeState → SymbolTradeState
note_trade (id, trade) state =
    if Map.has id state.recent_trades
    then state
    else let latest = is_latest id state.last_trade_id in
      record {
        baseline_price = some (or_else state.baseline_price trade.price);
        last_trade_id = if latest then some id else state.last_trade_id;
        latest_price = if latest then some trade.price else state.latest_price;
        recent_trades = Map.set id trade state.recent_trades;
      }

unfoldable pub note_trades : List IdentifiedTrade → SymbolTradeState → SymbolTradeState
note_trades [] state = state
note_trades (trade ∷ rest) state = note_trades rest (note_trade trade state)

-- One pass of the second loop of `processTrades`, on the symbol's state.
unfoldable pub note_group : List IdentifiedTrade → SymbolTradeState → SymbolTradeState
note_group trades state =
    let noted = note_trades (sort by_id trades) state in
    record noted {
      recent_trades = take recent_trade_limit (sort by_id_falling noted.recent_trades);
    }

unfoldable pub note_groups : Map String (List IdentifiedTrade) → MarketUiModel → MarketUiModel
note_groups [] m = m
note_groups ((symbol, trades) ∷ rest) m =
    note_groups rest
      (record m { symbols = Map.set symbol (note_group trades (state_for symbol m)) m.symbols })

unfoldable pub process_trades : List Trade → MarketUiModel → MarketUiModel
process_trades trades m = note_groups (group_trades trades []) m

unfoldable pub snapshot : TopOrderBookLevels → MarketUiModel → MarketUiSnapshot
snapshot book m =
    let state = state_for m.selected_symbol m in
    record {
      selected_symbol = m.selected_symbol;
      latest_price = state.latest_price;
      session_baseline_price = state.baseline_price;
      last_trade_id = Option.map format_identifier state.last_trade_id;
      recent_trades = Map.values state.recent_trades;
      bids = book.bids;
      asks = book.asks;
    }
