-- ===== src/Web/OrderBookModel.antt =====
-- apps/web/features/market/orderbook/order-book-model.ts: the client's mirror of one book.
pub mod Replays
use exaint.Base.{
  ℕ, zero, suc, Option, none, some, List, [], ◌∷◌, map, reverse, if◌then◌else◌, or_else, length,
  take, head_opt,
}
use exaint.Base.Int.{ℤ, pos, ◌+ℤ◌, ltb_ℤ, eqb_ℤ}
use exaint.Base.Keys.{int_eq}
use exaint.Base.Map
use exaint.Base.Map.{Map}
use exaint.Base.Sort.{sort}
use exaint.Protocol.Decimal.{Text, parsed_price, parsed_quantity, format_price, format_quantity}
use exaint.Market.OrderBook.{BookSide, bid, ask, best_first}
use exaint.App.Wire.{BookLevel, BookSnapshot}

pub record DisplayLevel : Type 0 where
  pub price : ℤ
  pub quantity : ℤ
  pub cumulative : ℤ

pub record LocalOrderBook : Type 0 where
  pub bids : Map ℤ ℤ
  pub asks : Map ℤ ℤ

abbrev pub new_book : LocalOrderBook
new_book = record { bids = []; asks = [] }

abbrev pub side_of : BookSide → LocalOrderBook → Map ℤ ℤ
side_of bid b = b.bids
side_of ask b = b.asks

abbrev pub with_side : BookSide → Map ℤ ℤ → LocalOrderBook → LocalOrderBook
with_side bid m b = record b { bids = m }
with_side ask m b = record b { asks = m }

abbrev pub reset : LocalOrderBook → LocalOrderBook
reset b = new_book

-- Quantity "0" deletes the level.
unfoldable pub set : BookSide → BookLevel → LocalOrderBook → LocalOrderBook
set s (price, quantity) b =
    let parsed_quantity' = parsed_quantity quantity in
    with_side s
      (if eqb_ℤ parsed_quantity' (pos 0)
        then Map.delete (parsed_price price) (side_of s b)
        else Map.set (parsed_price price) parsed_quantity' (side_of s b))
      b

unfoldable pub set_all : BookSide → List BookLevel → LocalOrderBook → LocalOrderBook
set_all s [] b = b
set_all s (l ∷ ls) b = set_all s ls (set s l b)

unfoldable pub apply_levels : List BookLevel → List BookLevel → LocalOrderBook → LocalOrderBook
apply_levels bids asks b = set_all ask asks (set_all bid bids b)

unfoldable pub apply_snapshot : BookSnapshot → LocalOrderBook → LocalOrderBook
unfolding apply_levels
apply_snapshot snapshot b = apply_levels snapshot.bids snapshot.asks (reset b)

unfoldable pub size : BookSide → LocalOrderBook → ℕ
size s b = length (side_of s b)

abbrev pub prices : BookSide → LocalOrderBook → List ℤ
prices s b = best_first s (sort ltb_ℤ (Map.keys (side_of s b)))

-- The running sum from the touch outward.
unfoldable pub display : Map ℤ ℤ → ℤ → List ℤ → List DisplayLevel
display source cumulative [] = []
display source cumulative (price ∷ rest) =
    let quantity = or_else (Map.get price source) (pos 0) in
    record { price = price; quantity = quantity; cumulative = cumulative +ℤ quantity }
    ∷ display source (cumulative +ℤ quantity) rest

-- `none` is the default limit, infinity.
unfoldable pub levels : BookSide → Option ℕ → LocalOrderBook → List DisplayLevel
levels s none b = display (side_of s b) (pos 0) (prices s b)
levels s (some limit) b = display (side_of s b) (pos 0) (take limit (prices s b))

unfoldable pub best : BookSide → LocalOrderBook → Option ℤ
unfolding levels
best s b = elim (levels s (some 1) b) [ [] ↦ none | l ∷ rest ↦ some l.price ]

unfoldable pub to_wire : BookSide → LocalOrderBook → List BookLevel
to_wire s b = map (λ l. (format_price l.price, format_quantity l.quantity)) (levels s none b)
