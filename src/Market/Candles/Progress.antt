-- ===== src/Market/Candles/Progress.antt =====
-- candles/aggregator.ts: what one trade, and one closing, make of the candles so far.
use exaint.Base.{
  ℕ, ◌+◌, ◌≤◌, ◌<◌, ◌≡◌, refl, ◌∙◌, ap, true, Option, none, some, List, [], ◌∷◌, ◌++◌, String, ltb,
  ◌==◌, arith, append-nil, append_assoc, Bool-cases, inl, inr,
}
use exaint.Protocol.{Interval, s1, s5, m1, interval_ms}
use exaint.Market.Events.{DomainCandle, DomainTrade, candle_start}
use exaint.Market.Candles.{CandleRingBuffer, CandleAggregator, close_through, extend_candle, apply}
use exaint.Market.Candles.Fold.{Describes, open_candle-Describes, extend_candle-Describes}

-- Candles over trades: the buckets are disjoint, in order, and the last of them ends at `ends` or
-- before it.
pub data Candled (i : Interval) : ℕ → List DomainTrade → List DomainCandle → Type 0 where
  nothing : {ends : ℕ} → Candled i ends [] []
  one_more :
      {before ends : ℕ} {ts us : List DomainTrade} {cs : List DomainCandle} {c : DomainCandle}
      → Candled i before ts cs
      → Describes i c us
      → before ≤ c.start_time
      → c.start_time + interval_ms i ≤ ends
      → Candled i ends (ts ++ us) (cs ++ c ∷ [])

abbrev pub IsStart : Interval → ℕ → Type 0
IsStart i n = candle_start n (interval_ms i) ≡ n

pub zero-IsStart : (i : Interval) → IsStart i 0
unfolding interval_ms candle_start
zero-IsStart s1 = refl
zero-IsStart s5 = refl
zero-IsStart m1 = refl

candle_start-IsStart : (i : Interval) (n : ℕ) → IsStart i (candle_start n (interval_ms i))
unfolding interval_ms candle_start
candle_start-IsStart s1 n = omega arith
candle_start-IsStart s5 n = omega arith
candle_start-IsStart m1 n = omega arith

next-IsStart : (i : Interval) (n : ℕ) → IsStart i n → IsStart i (n + interval_ms i)
unfolding interval_ms candle_start
next-IsStart s1 n h = omega arith
next-IsStart s5 n h = omega arith
next-IsStart m1 n h = omega arith

start-le : (i : Interval) (n : ℕ) → candle_start n (interval_ms i) ≤ n
unfolding interval_ms candle_start
start-le s1 n = omega arith
start-le s5 n = omega arith
start-le m1 n = omega arith

start_mono : (i : Interval) (n t : ℕ) → IsStart i n → n ≤ t → n ≤ candle_start t (interval_ms i)
unfolding interval_ms candle_start
start_mono s1 n t h k = omega arith
start_mono s5 n t h k = omega arith
start_mono m1 n t h k = omega arith

same_bucket :
    (i : Interval) (n t : ℕ)
    → IsStart i n
    → n ≤ t
    → candle_start t (interval_ms i) < n + interval_ms i
    → candle_start t (interval_ms i) ≡ n
unfolding interval_ms candle_start
same_bucket s1 n t h k l = omega arith
same_bucket s5 n t h k l = omega arith
same_bucket m1 n t h k l = omega arith

-- What has become of the trades `ts` so far, with the candles `cs` finalised.
pub data Progress (i : Interval) (now : ℕ) (ts : List DomainTrade) (cs : List DomainCandle)
    : Option DomainCandle → Type 0 where
  resting :
      {before : ℕ}
      → Candled i before ts cs
      → IsStart i before
      → before ≤ now
      → Progress i now ts cs none
  building :
      {before : ℕ} {old us : List DomainTrade} {c : DomainCandle}
      → Candled i before old cs
      → Describes i c us
      → IsStart i c.start_time
      → before ≤ c.start_time
      → c.start_time ≤ now
      → ts ≡ old ++ us
      → Progress i now ts cs (some c)

abbrev pub list_of : Option DomainCandle → List DomainCandle
list_of none = []
list_of (some c) = c ∷ []

pub close-Progress :
    (i : Interval) {now : ℕ} {ts : List DomainTrade} {cs : List DomainCandle} (timestamp : ℕ)
    (symbol : String) (history : CandleRingBuffer) {o : Option DomainCandle}
    → now ≤ timestamp
    → Progress i now ts cs o
    → let a : CandleAggregator = record {
      symbol = symbol;
      interval = i;
      history = history;
      active = o;
    } in
      let (f, a') = close_through timestamp a in
      (a'.interval ≡ i) × Progress i timestamp ts (cs ++ list_of f) a'.active
unfolding close_through
close-Progress i {cs = cs} timestamp symbol history l (resting d s h) =
    (refl, rw (append-nil cs) (resting d s (omega arith)))
close-Progress i {cs = cs} timestamp symbol history l (building {c = c} d e s h k q) =
    elim (Bool-cases (ltb timestamp (c.start_time + interval_ms i))) [
      | inl early ↦ rw (early, append-nil cs) (refl, building d e s h (omega arith) q)
      | inr over ↦
          rw (over, q)
            (
              refl,
              resting (one_more d e h (omega arith)) (next-IsStart i c.start_time s) (ground arith),
            )
    ]

pub apply-Progress :
    (i : Interval) {now : ℕ} {ts : List DomainTrade} {cs : List DomainCandle} (t : DomainTrade)
    (symbol : String) (history : CandleRingBuffer) {o : Option DomainCandle}
    → now ≤ t.timestamp
    → Progress i now ts cs o
    → let a : CandleAggregator = record {
      symbol = symbol;
      interval = i;
      history = history;
      active = o;
    } in
      let (f, a') = apply t a in
      (a'.interval ≡ i) × Progress i t.timestamp (ts ++ t ∷ []) (cs ++ list_of f) a'.active
unfolding apply close_through extend_candle
apply-Progress i {cs = cs} t symbol history l (resting d s h) = (
  refl,
  rw (append-nil cs) (
      building d (open_candle-Describes i symbol t) (candle_start-IsStart i t.timestamp)
        (start_mono i _ t.timestamp s (omega arith)) (start-le i t.timestamp) refl),
)
apply-Progress i {ts = ts} {cs = cs} t symbol history l
      (building {old = old} {us = us} {c = c} d e s h k q) =
    elim (Bool-cases
      (ltb (candle_start t.timestamp (interval_ms i)) (c.start_time + interval_ms i))) [
        | inl inside ↦
            let same : candle_start t.timestamp (interval_ms i) ≡ c.start_time =
              same_bucket i c.start_time t.timestamp s (omega arith) (ground arith) in
            let hit : (c.start_time == candle_start t.timestamp (interval_ms i)) ≡ true =
              ground arith in
            rw (inside, append-nil cs, hit)
              (
                refl,
                building d (extend_candle-Describes t same e) s h (omega arith)
                    (ap (λ xs. xs ++ t ∷ []) q ∙ append_assoc old us (t ∷ [])),
              )
        | inr over ↦ rw over (
          refl,
          building {before = c.start_time + interval_ms i} (rw q (one_more d e h (omega arith)))
              (open_candle-Describes i symbol t) (candle_start-IsStart i t.timestamp) (ground arith)
              (start-le i t.timestamp) refl,
        )
      ]
