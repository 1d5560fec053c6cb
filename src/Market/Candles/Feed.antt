-- ===== src/Market/Candles/Feed.antt =====
-- candles/aggregator.ts over any sequence of trades and closings.
use exaint.Base.{
  ℕ, ◌+◌, ◌≤◌, ◌<◌, ◌≡◌, refl, sym, ◌∙◌, subst, Option, none, some, List, [], ◌∷◌, ◌++◌, String,
  ◌==◌, false, arith, append-nil, append_assoc,
}
use exaint.Protocol.{Interval, interval_ms}
use exaint.Market.Events.{DomainCandle, DomainTrade}
use exaint.Market.Candles.{
  CandleAggregator, new_aggregator, new_ring, empty_ring, close_through, apply,
}
use exaint.Market.Candles.Progress.{
  Candled, nothing, one_more, Progress, resting, building, list_of, close-Progress, apply-Progress,
  zero-IsStart,
}

-- What an aggregator is told: a trade, or the time, at the end of a tick.
pub data Input : Type 0 where
  trades_at : DomainTrade → Input
  ticks_at : ℕ → Input

abbrev time_of : Input → ℕ
time_of (trades_at t) = t.timestamp
time_of (ticks_at n) = n

-- Time does not run backwards over the inputs.
abbrev pub Timely : ℕ → List Input → Type 0
Timely now [] = Unit
Timely now (x ∷ xs) = (now ≤ time_of x) × Timely (time_of x) xs

pub trades_of : List Input → List DomainTrade
trades_of [] = []
trades_of (trades_at t ∷ xs) = t ∷ trades_of xs
trades_of (ticks_at n ∷ xs) = trades_of xs

abbrev feed_one : Input → CandleAggregator → Option DomainCandle × CandleAggregator
feed_one (trades_at t) a = apply t a
feed_one (ticks_at n) a = close_through n a

-- The candles finalised, in order, and the aggregator at the end.
unfoldable pub feed : List Input → CandleAggregator → List DomainCandle × CandleAggregator
feed [] a = ([], a)
feed (x ∷ xs) a = let (f, a') = feed_one x a in let (fs, a'') = feed xs a' in (list_of f ++ fs, a'')

feed-Progress :
    (i : Interval) (xs : List Input) {now : ℕ} {ts : List DomainTrade} {cs : List DomainCandle}
    (a : CandleAggregator)
    → a.interval ≡ i
    → Timely now xs
    → Progress i now ts cs a.active
    → let (fs, a') = feed xs a in
      (last : ℕ) × Progress i last (ts ++ trades_of xs) (cs ++ fs) a'.active
unfolding feed trades_of
feed-Progress i [] {now} {ts} {cs} a e h p = (now, rw (append-nil ts, append-nil cs) p)
feed-Progress i (trades_at t ∷ xs) {now} {ts} {cs} a e h p =
    let (kept, next) =
      apply-Progress a.interval t a.symbol a.history h.0
        (subst (λ j. Progress j now ts cs a.active) (sym e) p) in
    let (last, done) = feed-Progress i xs (apply t a).1 (kept ∙ e) h.1 (
      subst
        (λ j.
          Progress j t.timestamp (ts ++ t ∷ []) (cs ++ list_of (apply t a).0) (apply t a).1.active)
        e next) in
    (
      last,
      rw
          (
            ← append_assoc ts (t ∷ []) (trades_of xs),
            ← append_assoc cs (list_of (apply t a).0) (feed xs (apply t a).1).0,
          )
          done,
    )
feed-Progress i (ticks_at n ∷ xs) {now} {ts} {cs} a e h p =
    let (kept, next) =
      close-Progress a.interval n a.symbol a.history h.0
        (subst (λ j. Progress j now ts cs a.active) (sym e) p) in
    let (last, done) = feed-Progress i xs (close_through n a).1 (kept ∙ e) h.1 (
      subst
        (λ j. Progress j n ts (cs ++ list_of (close_through n a).0) (close_through n a).1.active) e
        next) in
    (
      last,
      rw (← append_assoc cs (list_of (close_through n a).0) (feed xs (close_through n a).1).0) done,
    )

-- Progress, with the open candle as the last one.
whole :
    {i : Interval} {now : ℕ} {ts : List DomainTrade} {cs : List DomainCandle}
    {o : Option DomainCandle}
    → Progress i now ts cs o
    → (ends : ℕ) × Candled i ends ts (cs ++ list_of o)
whole {cs = cs} (resting {before} d s h) = (before, rw (append-nil cs) d)
whole {i} (building {c = c} d e s h k q) =
    (c.start_time + interval_ms i, rw q (one_more d e h (omega arith)))

-- A new aggregator is told trades and ticks in the order of time. Then the candles it finalises, in
-- the order it does, with the open candle behind them, cover all trades with none left out or counted
-- twice: cut into consecutive groups, each candle tells of its group alone (its first and last price,
-- its highest and lowest, its volume, its number of trades and the largest identifier), the trades
-- of a group are in the candle's bucket, and the buckets rise without overlap.
pub feed-Candled :
    (symbol : String) (i : Interval) (capacity : ℕ) (xs : List Input)
    → 0 < capacity
    → Timely 0 xs
    → (a : CandleAggregator) × (new_aggregator symbol i capacity ≡ some a)
      × (let (fs, a') = feed xs a in
          (ends : ℕ) × Candled i ends (trades_of xs) (fs ++ list_of a'.active))
unfolding new_aggregator new_ring
feed-Candled symbol i capacity xs p h =
    let positive : (capacity == 0) ≡ false = ground arith in
    let a : CandleAggregator = record {
      symbol = symbol;
      interval = i;
      history = empty_ring capacity;
      active = none;
    } in
    let (last, done) =
      feed-Progress i xs {now = 0} {ts = []} {cs = []} a refl h
        (resting {before = 0} nothing (zero-IsStart i) (omega arith)) in
    (a, rw (positive, new_aggregator) refl, whole done)
