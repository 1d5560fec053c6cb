-- ===== src/Market/Candles/Tests.antt =====
-- The candles of three trades.
use exaint.Base.{
  ℕ, ◌≡◌, ◌-◌, none, some, List, [], ◌∷◌, ◌++◌, ◌==◌, if◌then◌else◌, get_elem?, length, min, arith,
}
use exaint.Base.Int.{pos}
use exaint.Protocol.{s1, buy}
use exaint.Market.Events.{DomainCandle, DomainTrade}
use exaint.Market.Candles.{
  CandleRingBuffer, CandleAggregator, new_ring, to_array, recent, last, new_aggregator, open_candle,
}
use exaint.Market.Candles.Ring.{keep_last}
use exaint.Market.Candles.Pushes.{push_all, ring_lem}
use exaint.Market.Candles.Progress.{Candled, list_of}
use exaint.Market.Candles.Feed.{Input, trades_at, ticks_at, feed, trades_of, feed-Candled}

abbrev trade : ℕ → ℕ → ℕ → DomainTrade
trade trade_id timestamp price = record {
  symbol = "BTC";
  trade_id = trade_id;
  timestamp = timestamp;
  side = buy;
  price = pos price;
  quantity = pos 2;
}

abbrev inputs : List Input
inputs =
    trades_at (trade 1 1000 50)
    ∷ trades_at (trade 2 1900 40)
    ∷ ticks_at 2500
    ∷ trades_at (trade 3 2600 60)
    ∷ []

feed-Candled_example :
    (a : CandleAggregator) × (new_aggregator "BTC" s1 2 ≡ some a)
    × (let (fs, a') = feed inputs a in
        (ends : ℕ) × Candled s1 ends (trades_of inputs) (fs ++ list_of a'.active))
feed-Candled_example =
    feed-Candled "BTC" s1 2 inputs (omega arith)
      (omega arith, (omega arith, (omega arith, (omega arith, tt))))

abbrev candles : List DomainCandle
candles =
    open_candle "BTC" s1 1000 (trade 1 1000 50)
    ∷ open_candle "BTC" s1 2000 (trade 2 2000 40)
    ∷ open_candle "BTC" s1 3000 (trade 3 3000 60)
    ∷ []

ring_lem_example :
    (r : CandleRingBuffer) × (new_ring 2 ≡ some r)
    × (let r' = push_all candles r in
        let held = keep_last 2 candles in
        (to_array r' ≡ held)
        × (recent 1 r' ≡ keep_last 1 held)
        × (last r' ≡ (if length held == 0 then none else get_elem? held (length held - 1)))
        × (r'.size ≡ min (length candles) 2))
ring_lem_example = ring_lem 2 candles 1 (omega arith)
