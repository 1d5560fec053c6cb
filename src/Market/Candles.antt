-- ===== src/Market/Candles.antt =====
-- apps/api/src/market/candles: the ring buffer of finalised candles, the aggregator of one interval
-- and the set of one symbol. `none` of a constructor is a thrown RangeError.
pub mod Ring
pub mod Pushes
pub mod Fold
pub mod Progress
pub mod Feed
pub mod Tests
use exaint.Base.{
  ℕ, zero, suc, ◌+◌, ◌-◌, ◌%◌, String, Bool, Option, none, some, List, [], ◌∷◌, ◌++◌, ltb, leb,
  ◌==◌, if◌then◌else◌, length, drop, get_elem?, set_elem, replicate, not,
}
use exaint.Base.Int.{ℤ, ◌+ℤ◌, ltb_ℤ}
use exaint.Protocol.{Interval, s1, s5, m1, interval_ms}
use exaint.Market.Events.{DomainCandle, DomainTrade, candle_start, candle_history_capacity}

-- candles/ring-buffer.ts: `Slots` are the array's cells, empty (`undefined`) at first.
pub record CandleRingBuffer : Type 0 where
  pub capacity : ℕ
  pub slots : List (Option DomainCandle)
  pub next : ℕ
  pub size : ℕ

abbrev pub empty_ring : ℕ → CandleRingBuffer
empty_ring capacity = record {
  capacity = capacity;
  slots = replicate capacity none;
  next = 0;
  size = 0;
}

unfoldable pub new_ring : ℕ → Option CandleRingBuffer
new_ring capacity = if capacity == 0 then none else some (empty_ring capacity)

unfoldable pub push : DomainCandle → CandleRingBuffer → CandleRingBuffer
push candle r = record r {
  slots = set_elem r.slots r.next (some candle);
  next = (r.next + 1) % r.capacity;
  size = if ltb r.size r.capacity then r.size + 1 else r.size;
}

-- A read of the array; out of range is `undefined` too.
abbrev pub slot : List (Option DomainCandle) → ℕ → Option DomainCandle
slot slots i = elim (get_elem? slots i) [ none ↦ none | some c ↦ c ]

-- `n` cells from index `i` on, going round, the empty ones left out.
unfoldable pub collect : List (Option DomainCandle) → ℕ → ℕ → ℕ → List DomainCandle
collect slots capacity i zero = []
collect slots capacity i (suc n) =
    let rest = collect slots capacity ((i + 1) % capacity) n in
    elim (slot slots (i % capacity)) [ none ↦ rest | some candle ↦ candle ∷ rest ]

-- `this.#next - this.#size` may be negative there: the capacity is added first.
unfoldable pub to_array : CandleRingBuffer → List DomainCandle
unfolding collect
to_array r = collect r.slots r.capacity ((r.next + r.capacity - r.size) % r.capacity) r.size

unfoldable pub recent : ℕ → CandleRingBuffer → List DomainCandle
recent limit r = if limit == 0 then [] else let all = to_array r in drop (length all - limit) all

unfoldable pub last : CandleRingBuffer → Option DomainCandle
last r = if r.size == 0 then none else slot r.slots ((r.next + r.capacity - 1) % r.capacity)

-- candles/aggregator.ts.
pub record CandleAggregator : Type 0 where
  pub symbol : String
  pub interval : Interval
  pub history : CandleRingBuffer
  pub active : Option DomainCandle

unfoldable pub new_aggregator : String → Interval → ℕ → Option CandleAggregator
unfolding new_ring
new_aggregator symbol interval capacity = elim (new_ring capacity) [
  | none ↦ none
  | some ring ↦
      some (record { symbol = symbol; interval = interval; history = ring; active = none })
]

-- `none` is the default limit, infinity.
unfoldable pub history_of : Option ℕ → CandleAggregator → List DomainCandle
history_of none a = to_array a.history
history_of (some limit) a = recent limit a.history

abbrev pub close_active :
    Option DomainCandle → ℕ → CandleAggregator → Option DomainCandle × CandleAggregator
close_active none timestamp a = (none, a)
close_active (some candle) timestamp a =
    if ltb timestamp (candle.start_time + interval_ms a.interval)
    then (none, a)
    else (some candle, record a { history = push candle a.history; active = none })

unfoldable pub close_through : ℕ → CandleAggregator → Option DomainCandle × CandleAggregator
close_through timestamp a = close_active a.active timestamp a

abbrev pub open_candle : String → Interval → ℕ → DomainTrade → DomainCandle
open_candle symbol interval start trade = record {
  symbol = symbol;
  interval = interval;
  start_time = start;
  open_price = trade.price;
  high = trade.price;
  low = trade.price;
  close = trade.price;
  volume = trade.quantity;
  trade_count = 1;
  last_trade_id = trade.trade_id;
}

unfoldable pub extend_candle : DomainCandle → DomainTrade → DomainCandle
extend_candle active trade = record active {
  high = if ltb_ℤ active.high trade.price then trade.price else active.high;
  low = if ltb_ℤ trade.price active.low then trade.price else active.low;
  close = trade.price;
  volume = active.volume +ℤ trade.quantity;
  trade_count = active.trade_count + 1;
  last_trade_id =
      if ltb active.last_trade_id trade.trade_id then trade.trade_id else active.last_trade_id;
}

abbrev pub fold_active : Option DomainCandle → String → Interval → ℕ → DomainTrade → DomainCandle
fold_active none symbol interval start trade = open_candle symbol interval start trade
fold_active (some active) symbol interval start trade =
    if active.start_time == start
    then extend_candle active trade
    else open_candle symbol interval start trade

unfoldable pub apply : DomainTrade → CandleAggregator → Option DomainCandle × CandleAggregator
apply trade a =
    let start = candle_start trade.timestamp (interval_ms a.interval) in
    let (finalised, a') = close_through start a in
    (finalised, record a' { active = some (fold_active a'.active a.symbol a.interval start trade) })

-- candles/symbol-candles.ts: the aggregators of one symbol, in the order of the intervals.
abbrev pub candle_intervals : List Interval
candle_intervals = s1 ∷ s5 ∷ m1 ∷ []

abbrev pub SymbolCandleSet : Type 0
SymbolCandleSet = List CandleAggregator

unfoldable pub new_set : String → List Interval → ℕ → Option SymbolCandleSet
unfolding new_aggregator
new_set symbol [] capacity = some []
new_set symbol (i ∷ is') capacity = elim (new_aggregator symbol i capacity) [
  | none ↦ none
  | some a ↦ elim (new_set symbol is' capacity) [ none ↦ none | some rest ↦ some (a ∷ rest) ]
]

abbrev pub and_finalised : Option DomainCandle → List DomainCandle → List DomainCandle
and_finalised none rest = rest
and_finalised (some candle) rest = candle ∷ rest

unfoldable pub close_all : ℕ → SymbolCandleSet → List DomainCandle × SymbolCandleSet
unfolding close_through
close_all timestamp [] = ([], [])
close_all timestamp (a ∷ rest) =
    let (candle, a') = close_through timestamp a in
    let (finalised, rest') = close_all timestamp rest in
    (and_finalised candle finalised, a' ∷ rest')

unfoldable pub apply_all : DomainTrade → SymbolCandleSet → List DomainCandle × SymbolCandleSet
unfolding apply
apply_all trade [] = ([], [])
apply_all trade (a ∷ rest) =
    let (candle, a') = apply trade a in
    let (finalised, rest') = apply_all trade rest in (and_finalised candle finalised, a' ∷ rest')

unfoldable pub active_candles : SymbolCandleSet → List DomainCandle
active_candles [] = []
active_candles (a ∷ rest) = and_finalised a.active (active_candles rest)
