-- ===== src/Market/OrderBook.antt =====
-- apps/api/src/market/orderbook/order-book.ts: one symbol's canonical book. A method that changes
-- the book returns the new one; `none` is a thrown RangeError.
pub mod Tracking
pub mod Window
pub mod Trim
pub mod Replay
pub mod Invariant
pub mod History
pub mod Run
pub mod Chain
pub mod Snapshot
pub mod Ladder
pub mod Tests
use exaint.Base.{
  ℕ, ◌+◌, String, Bool, Option, none, some, List, [], ◌∷◌, map, reverse, ◌==◌, if◌then◌else◌,
  or_else, drop, head_opt, length,
}
use exaint.Base.Int.{ℤ, pos, ◌+ℤ◌, ltb_ℤ, eqb_ℤ}
use exaint.Base.Keys.{int_eq, int_order}
use exaint.Base.Map
use exaint.Base.Map.{Map}
use exaint.Base.Sort.{sort}
use exaint.Base.Sorted.{by_key}
use exaint.Market.Events.{DomainBookLevel, DomainBookDelta, DomainBookSnapshot}

pub data BookSide : Type 0 where
  bid ask : BookSide

pub record OrderBook : Type 0 where
  pub symbol : String
  pub depth : ℕ
  pub bids : Map ℤ ℤ
  pub asks : Map ℤ ℤ
  pub touched_bids : Map ℤ ℤ
  pub touched_asks : Map ℤ ℤ
  pub sequence : ℕ

unfoldable pub new : String → ℕ → Option OrderBook
new symbol depth =
    if depth == 0
    then none
    else some (record {
      symbol = symbol;
      depth = depth;
      bids = [];
      asks = [];
      touched_bids = [];
      touched_asks = [];
      sequence = 0;
    })

abbrev pub side_of : BookSide → OrderBook → Map ℤ ℤ
side_of bid b = b.bids
side_of ask b = b.asks

abbrev pub touched_of : BookSide → OrderBook → Map ℤ ℤ
touched_of bid b = b.touched_bids
touched_of ask b = b.touched_asks

abbrev pub with_side : BookSide → Map ℤ ℤ → OrderBook → OrderBook
with_side bid m b = record b { bids = m }
with_side ask m b = record b { asks = m }

abbrev pub with_touched : BookSide → Map ℤ ℤ → OrderBook → OrderBook
with_touched bid m b = record b { touched_bids = m }
with_touched ask m b = record b { touched_asks = m }

-- Bids descend, asks ascend.
abbrev pub best_first {ℓ} : {A : Type ℓ} → BookSide → List A → List A
best_first bid xs = reverse xs
best_first ask xs = xs

unfoldable pub prices : BookSide → OrderBook → List ℤ
prices s b = best_first s (sort ltb_ℤ (Map.keys (side_of s b)))

unfoldable pub quantity_at : BookSide → ℤ → OrderBook → ℤ
quantity_at s price b = or_else (Map.get price (side_of s b)) (pos 0)

unfoldable pub levels : BookSide → OrderBook → List DomainBookLevel
levels s b = map (λ p. (p, or_else (Map.get p (side_of s b)) (pos 0))) (prices s b)

unfoldable pub best : BookSide → OrderBook → Option ℤ
best s b = head_opt (prices s b)

unfoldable pub size : BookSide → OrderBook → ℕ
size s b = length (side_of s b)

-- The value before this tick is noted once for each price.
abbrev pub touch : ℤ → Map ℤ ℤ → Map ℤ ℤ → Map ℤ ℤ
touch price levels touched =
    if Map.has price touched
    then touched
    else Map.set price (or_else (Map.get price levels) (pos 0)) touched

abbrev pub store : ℤ → ℤ → Map ℤ ℤ → Map ℤ ℤ
store price quantity levels =
    if eqb_ℤ quantity (pos 0) then Map.delete price levels else Map.set price quantity levels

unfoldable pub set_level : BookSide → ℤ → ℤ → OrderBook → Option OrderBook
set_level s price quantity b =
    if ltb_ℤ quantity (pos 0)
    then none
    else some (
        with_side s (store price quantity (side_of s b))
          (with_touched s (touch price (side_of s b) (touched_of s b)) b))

unfoldable pub add_quantity : BookSide → ℤ → ℤ → OrderBook → Option OrderBook
add_quantity s price delta b =
    let next = quantity_at s price b +ℤ delta in
    set_level s price (if ltb_ℤ (pos 0) next then next else pos 0) b

-- `for (const price of …) this.setLevel(side, price, 0n)`.
unfoldable pub clear_levels : BookSide → List ℤ → OrderBook → Option OrderBook
clear_levels s [] b = some b
clear_levels s (p ∷ ps) b = elim (set_level s p (pos 0) b) [
  | none ↦ none
  | some b' ↦ clear_levels s ps b'
]

abbrev pub trim_side : BookSide → OrderBook → Option OrderBook
trim_side s b = clear_levels s (drop b.depth (prices s b)) b

unfoldable pub trim : OrderBook → Option OrderBook
trim b = elim (trim_side bid b) [ none ↦ none | some b' ↦ trim_side ask b' ]

unfoldable pub snapshot : OrderBook → DomainBookSnapshot
snapshot b = record {
  symbol = b.symbol;
  sequence = b.sequence;
  bids = levels bid b;
  asks = levels ask b;
}

-- A level touched and put back as it was is no change.
unfoldable pub changed : Map ℤ ℤ → Map ℤ ℤ → List DomainBookLevel
changed levels [] = []
changed levels ((price, before) ∷ rest) =
    let after = or_else (Map.get price levels) (pos 0) in
    if eqb_ℤ after before then changed levels rest else (price, after) ∷ changed levels rest

unfoldable pub collect_changes : BookSide → OrderBook → List DomainBookLevel
collect_changes s b = best_first s (sort by_key (changed (side_of s b) (touched_of s b)))

unfoldable pub clear_pending_changes : OrderBook → OrderBook
clear_pending_changes b = record b { touched_bids = []; touched_asks = [] }

abbrev pub emit :
    List DomainBookLevel → List DomainBookLevel → ℕ → OrderBook → Option DomainBookDelta × OrderBook
emit [] [] timestamp b = (none, b)
emit bids asks timestamp b = (
  some (record {
    symbol = b.symbol;
    previous_sequence = b.sequence;
    sequence = b.sequence + 1;
    timestamp = timestamp;
    bids = bids;
    asks = asks;
  }),
  record b { sequence = b.sequence + 1 },
)

unfoldable pub flush_delta : ℕ → OrderBook → Option DomainBookDelta × OrderBook
unfolding clear_pending_changes
flush_delta timestamp b =
    emit (collect_changes bid b) (collect_changes ask b) timestamp (clear_pending_changes b)
