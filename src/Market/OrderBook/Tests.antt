-- ===== src/Market/OrderBook/Tests.antt =====
-- order-book.ts on a small book of one symbol.
use exaint.Base.{
  ℕ, ◌≡◌, refl, Option, some, List, [], ◌∷◌, or_else, ◌>>=◌, >>=-eq-some, none, true, false, ◌⊎◌,
}
use exaint.Base.Int.{ℤ, pos, negsuc, ◌+ℤ◌}
use exaint.Base.Keys.{int_eq}
use exaint.Base.Map
use exaint.Market.Events.{DomainBookDelta}
use exaint.Market.OrderBook.{
  OrderBook, BookSide, bid, ask, set_level, trim, flush_delta, best, levels, add_quantity,
  quantity_at, collect_changes, changed, clear_levels, prices, clear_pending_changes,
}
use exaint.Base.Sort.{sort, insert}
use exaint.Market.OrderBook.Tracking.{Tracks-start}
use exaint.Market.OrderBook.Replay.{replay}
use exaint.Market.OrderBook.Invariant.{IsValid, set_level-IsValid}
use exaint.Market.OrderBook.Trim.{KeepsWindow, trim_lem}
use exaint.Market.OrderBook.History.{Copy, Mirrors, receive, Continues, flush_delta-Mirrors}
use exaint.Market.OrderBook.Snapshot.{replay-levels}
use exaint.Market.OrderBook.Ladder.{BestFirst, prices-BestFirst, best_lem, NotWorse}
use exaint.Market.OrderBook.Run.{
  Command, sets, adds, trims, flushes, run, step, receive_all, Chain, run-Mirrors,
}

abbrev pub empty_book : OrderBook
empty_book = record {
  symbol = "BTC";
  depth = 1;
  bids = [];
  asks = [];
  touched_bids = [];
  touched_asks = [];
  sequence = 7;
}

abbrev pub empty_copy : Copy
empty_copy = record { bids = []; asks = [] }

pub empty_book-IsValid : IsValid empty_book empty_book
unfolding Map.get
empty_book-IsValid = record {
  bid_side = Tracks-start [] tt (λ p q e. absurd (cc));
  ask_side = Tracks-start [] tt (λ p q e. absurd (cc));
  bids_before = λ p q e. absurd (cc);
  asks_before = λ p q e. absurd (cc);
  same_sequence = refl;
  same_symbol = refl;
  same_depth = refl;
}

pub empty_copy-Mirrors : Mirrors empty_copy empty_book
empty_copy-Mirrors = record { same_bids = λ p. refl; same_asks = λ p. refl }

abbrev pub history : List Command
history =
    sets bid (pos 10) (pos 3)
    ∷ sets bid (pos 9) (pos 4)
    ∷ sets ask (pos 12) (pos 5)
    ∷ flushes 100
    ∷ adds bid (pos 9) (negsuc 0)
    ∷ trims
    ∷ sets ask (pos 12) (pos 0)
    ∷ []

unfoldable pub history_result : List (Option DomainBookDelta) × OrderBook
unfolding run
history_result = or_else (run history empty_book) ([], empty_book)

pub history_run : run history empty_book ≡ some history_result
unfolding run step set_level add_quantity ◌+ℤ◌ quantity_at Map.get flush_delta collect_changes sort
    changed Map.has Map.set trim clear_levels prices Map.keys Map.delete insert
    clear_pending_changes history_result
history_run = refl

run-Mirrors_example :
    let (d, b'') = flush_delta 200 history_result.1 in
    Mirrors (receive d (receive_all history_result.0 empty_copy)) b''
    × (n : ℕ) × Chain empty_book.sequence history_result.0 n
    × Continues n d b''.sequence
run-Mirrors_example =
    run-Mirrors history empty_copy 200 empty_book-IsValid empty_copy-Mirrors history_run

-- A book with two bids since the last flush, at which it was empty.
abbrev pub two_levels : OrderBook
two_levels = record empty_book {
  bids = (pos 10, pos 3) ∷ (pos 9, pos 4) ∷ [];
  touched_bids = (pos 10, pos 0) ∷ (pos 9, pos 0) ∷ [];
}

two_levels_lem :
    (set_level bid (pos 10) (pos 3) empty_book >>= set_level bid (pos 9) (pos 4)) ≡ some two_levels
unfolding set_level Map.get Map.set Map.has
two_levels_lem = refl

pub two_levels-IsValid : IsValid empty_book two_levels
two_levels-IsValid =
    let (b, e, f) = >>=-eq-some (set_level bid (pos 10) (pos 3) empty_book) _ two_levels_lem in
    set_level-IsValid bid (pos 9) (pos 4) f
      (set_level-IsValid bid (pos 10) (pos 3) e empty_book-IsValid)

trim_lem_example :
    (b' : OrderBook) × (trim two_levels ≡ some b')
    × IsValid empty_book b'
    × ((s : BookSide) → KeepsWindow s two_levels b')
trim_lem_example = trim_lem two_levels-IsValid

flush_delta-Mirrors_example :
    let (d, b') = flush_delta 300 two_levels in Mirrors (receive d empty_copy) b'
flush_delta-Mirrors_example =
    flush_delta-Mirrors empty_copy 300 two_levels-IsValid empty_copy-Mirrors

replay-levels_example :
    Map.get (pos 9) (replay (levels bid two_levels) []) ≡ Map.get (pos 9) two_levels.bids
replay-levels_example = replay-levels bid (pos 9) two_levels two_levels-IsValid.bid_side.positive

prices-BestFirst_example : BestFirst bid (prices bid two_levels)
prices-BestFirst_example = prices-BestFirst bid two_levels two_levels-IsValid.bid_side.unique

best_lem_example :
    ((best bid two_levels ≡ none) × ((k : ℤ) → Map.has k two_levels.bids ≡ false))
    ⊎ ((p : ℤ) × (best bid two_levels ≡ some p)
        × (Map.has p two_levels.bids ≡ true)
        × ((k : ℤ) → Map.has k two_levels.bids ≡ true → NotWorse bid p k))
best_lem_example = best_lem bid two_levels two_levels-IsValid.bid_side.unique
