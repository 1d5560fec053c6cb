-- ===== src/Market/OrderBook/History.antt =====
-- The book over any sequence of calls, beside a reader that holds copies of both sides and replays
-- each delta that a flush emits.
use exaint.Base.{ℕ, ◌+◌, ◌≡◌, refl, Option, none, some, List, [], ◌∷◌}
use exaint.Base.Int.{ℤ}
use exaint.Base.Keys.{int_eq, int_order}
use exaint.Base.Map
use exaint.Base.Map.{Map, Unique}
use exaint.Market.Events.{DomainBookLevel, DomainBookDelta}
use exaint.Market.OrderBook.{
  OrderBook, bid, ask, flush_delta, emit, collect_changes, clear_pending_changes,
}
use exaint.Market.OrderBook.Tracking.{Tracks-start}
use exaint.Market.OrderBook.Replay.{replay, replay_lem}
use exaint.Market.OrderBook.Invariant.{IsValid}

-- A reader's copies of the two sides.
pub record Copy : Type 0 where
  pub bids : Map ℤ ℤ
  pub asks : Map ℤ ℤ

-- The copies hold the same quantity at every price.
pub record Mirrors (c : Copy) (b : OrderBook) : Type 0 where
  pub same_bids : (p : ℤ) → Map.get p c.bids ≡ Map.get p b.bids
  pub same_asks : (p : ℤ) → Map.get p c.asks ≡ Map.get p b.asks

unfoldable pub receive : Option DomainBookDelta → Copy → Copy
receive none c = c
receive (some d) c = record { bids = replay d.bids c.bids; asks = replay d.asks c.asks }

receive-emit :
    (bs as' : List DomainBookLevel) (timestamp : ℕ) (b : OrderBook) (c : Copy)
    → receive (emit bs as' timestamp b).0 c
      ≡ record { bids = replay bs c.bids; asks = replay as' c.asks }
unfolding receive replay
receive-emit [] [] timestamp b c = refl
receive-emit [] (a ∷ as') timestamp b c = refl
receive-emit (a ∷ bs) as' timestamp b c = refl

-- The book that `emit` returns differs from the given one in its sequence at most.
pub emit-book :
    (bs as' : List DomainBookLevel) (timestamp : ℕ) (b : OrderBook)
    → (n : ℕ) × ((emit bs as' timestamp b).1 ≡ record b { sequence = n })
emit-book [] [] timestamp b = (b.sequence, refl)
emit-book [] (a ∷ as') timestamp b = (b.sequence + 1, refl)
emit-book (a ∷ bs) as' timestamp b = (b.sequence + 1, refl)

-- The book after a flush is its own base: nothing is pending.
pub flush_delta-IsValid :
    {base b : OrderBook} (timestamp : ℕ)
    → IsValid base b
    → let b' = (flush_delta timestamp b).1 in IsValid b' b'
unfolding flush_delta
flush_delta-IsValid {base} {b} timestamp v =
    let (n, e) =
      emit-book (collect_changes bid b) (collect_changes ask b) timestamp
        (record b { touched_bids = []; touched_asks = [] }) in
    rw e (record {
      bid_side = Tracks-start b.bids v.bid_side.unique v.bid_side.positive;
      ask_side = Tracks-start b.asks v.ask_side.unique v.ask_side.positive;
      bids_before = v.bid_side.positive;
      asks_before = v.ask_side.positive;
      same_sequence = refl;
      same_symbol = refl;
      same_depth = refl;
    })

-- A reader that had the book of the last flush, and replays what this flush emits (nothing, where
-- it returns null), has the book of this flush.
pub flush_delta-Mirrors :
    {base b : OrderBook} (c : Copy) (timestamp : ℕ)
    → IsValid base b
    → Mirrors c base
    → let (d, b') = flush_delta timestamp b in Mirrors (receive d c) b'
unfolding flush_delta collect_changes
flush_delta-Mirrors {base} {b} c timestamp v m =
    let (n, e) =
      emit-book (collect_changes bid b) (collect_changes ask b) timestamp
        (record b { touched_bids = []; touched_asks = [] }) in
    rw e (
      rw
        (receive-emit (collect_changes bid b) (collect_changes ask b) timestamp
          (record b { touched_bids = []; touched_asks = [] }) c)
        (record {
          same_bids = λ p. replay_lem bid c.bids p v.bid_side v.bids_before (m.same_bids p);
          same_asks = λ p. replay_lem ask c.asks p v.ask_side v.asks_before (m.same_asks p);
        }))

-- What a delta says of the sequence, and that there is none only where no sequence is used up.
abbrev pub Continues : ℕ → Option DomainBookDelta → ℕ → Type 0
Continues n none m = m ≡ n
Continues n (some d) m = (d.previous_sequence ≡ n) × (d.sequence ≡ n + 1) × (m ≡ n + 1)

emit-Continues :
    (bs as' : List DomainBookLevel) (timestamp : ℕ) (b : OrderBook)
    → let (d, b') = emit bs as' timestamp b in Continues b.sequence d b'.sequence
emit-Continues [] [] timestamp b = refl
emit-Continues [] (a ∷ as') timestamp b = (refl, refl, refl)
emit-Continues (a ∷ bs) as' timestamp b = (refl, refl, refl)

-- A flush uses up exactly one sequence number where it emits a delta, and none where it returns null.
pub flush_delta-Continues :
    (timestamp : ℕ) (b : OrderBook)
    → let (d, b') = flush_delta timestamp b in Continues b.sequence d b'.sequence
unfolding flush_delta
flush_delta-Continues timestamp b =
    emit-Continues (collect_changes bid b) (collect_changes ask b) timestamp
      (clear_pending_changes b)
