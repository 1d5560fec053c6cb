-- ===== src/Web/Synchronizer/Tests.antt =====
-- A synchroniser of the book of `Market.OrderBook.Tests`.
use exaint.Base.{ℕ, ◌≡◌, refl, some, none, List, [], ◌∷◌, All, ◌↔◌, ◌≢◌, keep_if}
use exaint.Base.Int.{pos, negsuc}
use exaint.Base.Keys.{int_eq}
use exaint.Base.Map
use exaint.Base.Sort.{sort, insert}
use exaint.App.Wire.{BookDelta, BookSnapshot, encode_book_snapshot}
use exaint.Protocol.Decimal.{
  parsed_identifier, parse_identifier, to_string, digits, is_whole, number, number_from, all_digits,
}
use exaint.Market.OrderBook.{
  OrderBook, bid, ask, set_level, flush_delta, snapshot, clear_pending_changes, collect_changes,
  changed,
}
use exaint.Market.OrderBook.Run.{Command, sets, run, step}
use exaint.Market.OrderBook.Tests.{
  empty_book, empty_copy, empty_book-IsValid, empty_copy-Mirrors, history, history_result,
  history_run,
}
use exaint.Web.OrderBookModel.{size}
use exaint.Web.Synchronizer.{
  synchronized, syncing, resyncing, new, begin_sync, set_status, has_book, apply_snapshot, drain,
  apply_delta, applied, previous_of,
}
use exaint.Web.Synchronizer.Agrees.{Feed, Shows}
use exaint.Web.Synchronizer.Events.{
  Event, begins, snapshots, handle, handle_all, FromFeed, synchronized-Shows, applied_iff,
}
use exaint.Web.Synchronizer.Server.{server_feed, sequence-mirrors}

abbrev before : List Command
before = sets bid (pos 10) (pos 3) ∷ sets bid (pos 9) (pos 4) ∷ sets ask (pos 12) (pos 5) ∷ []

abbrev after : List Command
after = Command.adds bid (pos 9) (negsuc 0) ∷ Command.trims ∷ sets ask (pos 12) (pos 0) ∷ []

abbrev book : OrderBook
book = record empty_book {
  bids = (pos 10, pos 3) ∷ (pos 9, pos 4) ∷ [];
  asks = (pos 12, pos 5) ∷ [];
  touched_bids = (pos 10, pos 0) ∷ (pos 9, pos 0) ∷ [];
  touched_asks = (pos 12, pos 0) ∷ [];
}

book_run : run before empty_book ≡ some (none ∷ none ∷ none ∷ [], book)
unfolding run step set_level Map.get Map.set Map.has
book_run = refl

abbrev server : OrderBook
server = (flush_delta 100 book).1

abbrev snap : BookSnapshot
snap = encode_book_snapshot (snapshot server)

abbrev events : List Event
events = begins ∷ snapshots snap 1 ∷ []

client_sequence : (handle_all events (new "BTC")).sequence ≡ some server.sequence
unfolding handle_all handle begin_sync set_status has_book size apply_snapshot drain
    encode_book_snapshot snapshot flush_delta clear_pending_changes collect_changes changed sort
    insert Map.get parsed_identifier parse_identifier to_string digits is_whole number number_from
    all_digits keep_if
client_sequence = refl

abbrev feed : Feed
feed =
    server_feed empty_book history_result.1 history history_result.0 empty_copy empty_book-IsValid
      empty_copy-Mirrors history_run

events-FromFeed : All (FromFeed feed) events
events-FromFeed = (
  tt,
  (
    record {
      before = before;
      timestamp = 100;
      after = after;
      book = book;
      emitted = none ∷ none ∷ none ∷ [];
      splits = refl;
      reached = book_run;
      encoded = refl;
    },
    tt,
  ),
)

sequence-mirrors_example :
    (Map.get (pos 10) (handle_all events (new "BTC")).book.bids ≡ Map.get (pos 10) server.bids)
    × (Map.get (pos 10) (handle_all events (new "BTC")).book.asks ≡ Map.get (pos 10) server.asks)
sequence-mirrors_example =
    sequence-mirrors empty_book history_result.1 history history_result.0 empty_copy
      empty_book-IsValid empty_copy-Mirrors history_run "BTC" events before 100 after book
      (none ∷ none ∷ none ∷ []) events-FromFeed refl book_run client_sequence (pos 10)

client_status : (handle_all events (new "BTC")).status ≡ synchronized
unfolding handle_all handle begin_sync set_status has_book size apply_snapshot drain
    encode_book_snapshot snapshot flush_delta clear_pending_changes collect_changes changed sort
    insert Map.get parsed_identifier parse_identifier to_string digits is_whole number number_from
    all_digits keep_if
client_status = refl

synchronized-Shows_example :
    (n : ℕ) × ((handle_all events (new "BTC")).sequence ≡ some n)
    × Shows (handle_all events (new "BTC")).book (feed.book_at n)
synchronized-Shows_example = synchronized-Shows feed "BTC" events events-FromFeed client_status

abbrev stale : BookDelta
stale = record {
  symbol = "BTC";
  previous_sequence = b'3' ∷ [];
  sequence = b'4' ∷ [];
  timestamp = 100;
  bids = [];
  asks = [];
}

applied_iff_example :
    let (outcome, s') = apply_delta stale (new "BTC") in
    ((outcome ≡ applied) ↔ (
      (stale.symbol ≡ (new "BTC").symbol)
      × ((new "BTC").status ≢ syncing)
      × ((new "BTC").status ≢ resyncing)
      × ((new "BTC").sequence ≡ some (previous_of stale))))
    × (outcome ≢ applied → (s'.book ≡ (new "BTC").book) × (s'.sequence ≡ (new "BTC").sequence))
applied_iff_example = applied_iff stale (new "BTC")
