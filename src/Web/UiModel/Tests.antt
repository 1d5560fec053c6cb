-- ===== src/Web/UiModel/Tests.antt =====
-- Two symbols: one is left and loses its trades, the other had some before it was selected.
use exaint.Base.{refl, ◌≡◌, ◌≤◌, String, none, some, List, [], ◌∷◌, length}
use exaint.Base.Keys.{nat_eq, string_eq}
use exaint.Base.Map
use exaint.Base.Sort.{sort, insert}
use exaint.Protocol.{buy}
use exaint.Protocol.Decimal.{Text, parsed_identifier, parse_identifier, format_identifier}
use exaint.App.Wire.{Trade}
use exaint.Web.UiModel.{
  IdentifiedTrade, TopOrderBookLevels, new_ui_model, select_symbol, group_trades, note_trade,
  note_trades, note_group, note_groups, process_trades, snapshot,
}
use exaint.Web.UiModel.Latest.{newest}
use exaint.Web.UiModel.Shown.{UiCall, selects, processes, after_calls, heard, latest_lem}
use mathlib.Core.Option

abbrev trade : String → Text → Text → Trade
trade symbol id price = record {
  symbol = symbol;
  trade_id = id;
  timestamp = 1000;
  side = buy;
  price = price;
  quantity = b'1' ∷ [];
}

abbrev calls : List UiCall
calls =
    processes (trade "BTC" (b'2' ∷ []) (b'5' ∷ []) ∷ trade "ETH" (b'7' ∷ []) (b'9' ∷ []) ∷ [])
    ∷ selects "ETH"
    ∷ processes (trade "ETH" (b'8' ∷ []) (b'6' ∷ []) ∷ trade "ETH" (b'3' ∷ []) (b'4' ∷ []) ∷ [])
    ∷ []

abbrev book : TopOrderBookLevels
book = record { bids = []; asks = [] }

shows_last :
    (snapshot book (after_calls calls (new_ui_model "BTC"))).latest_price ≡ some (b'6' ∷ [])
unfolding snapshot after_calls process_trades group_trades note_groups note_group note_trades
    note_trade select_symbol Map.get Map.set Map.has Map.delete sort insert parsed_identifier
    parse_identifier
shows_last = refl

latest_lem_example :
    let m = after_calls calls (new_ui_model "BTC") in
    let last = newest (heard m.selected_symbol "BTC" calls []) none in
    ((snapshot book m).last_trade_id
      ≡ Option.map (λ (t : IdentifiedTrade). format_identifier t.0) last)
    × ((snapshot book m).latest_price ≡ Option.map (λ (t : IdentifiedTrade). t.1.price) last)
    × (length (snapshot book m).recent_trades ≤ 50)
latest_lem_example = latest_lem calls "BTC" book
