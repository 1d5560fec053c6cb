-- ===== src/Web/Synchronizer.antt =====
-- apps/web/features/market/orderbook/synchronizer.ts: one symbol's synchroniser, and the registry.
-- `reported` holds the calls of `onStatusChange` so far, newest first.
pub mod Agrees
pub mod Events
pub mod Server
pub mod Tests
use exaint.Base.{
  ℕ, ◌+◌, String, Bool, true, false, not, ◌&&◌, ◌||◌, Option, none, some, List, [], ◌∷◌, ◌++◌, ltb,
  leb, ◌==◌, if◌then◌else◌, or_else, length, drop, keep_if,
}
use exaint.Base.Keys.{string_eq}
use exaint.Base.Map
use exaint.Base.Map.{Map}
use exaint.Base.Sort.{sort}
use exaint.Protocol.Decimal.{parsed_identifier}
use exaint.App.Wire.{BookDelta, BookSnapshot}
use exaint.Market.OrderBook.{bid, ask}
use exaint.Web.OrderBookModel.{LocalOrderBook, new_book, size, apply_levels}
use exaint.Web.OrderBookModel
use text.Mathlib.Text.{◌==◌ as same_text}

pub data BookStatus : Type 0 where
  idle syncing synchronized resyncing : BookStatus

pub data DeltaOutcome : Type 0 where
  buffered applied ignored_duplicate ignored_symbol resync_required : DeltaOutcome

abbrev pub max_buffered_deltas : ℕ
max_buffered_deltas = 2000

pub record Synchronizer : Type 0 where
  pub symbol : String
  pub book : LocalOrderBook
  pub status : BookStatus
  pub sequence : Option ℕ
  pub buffer : List BookDelta
  pub generation : ℕ
  pub reported : List BookStatus

abbrev pub new : String → Synchronizer
new symbol = record {
  symbol = symbol;
  book = new_book;
  status = idle;
  sequence = none;
  buffer = [];
  generation = 0;
  reported = [];
}

abbrev pub same_status : BookStatus → BookStatus → Bool
same_status idle idle = true
same_status syncing syncing = true
same_status synchronized synchronized = true
same_status resyncing resyncing = true
same_status _ _ = false

unfoldable pub set_status : BookStatus → Synchronizer → Synchronizer
set_status status s =
    if same_status status s.status
    then s
    else record s { status = status; reported = status ∷ s.reported }

unfoldable pub has_book : Synchronizer → Bool
has_book s = ltb 0 (size bid s.book) || ltb 0 (size ask s.book)

unfoldable pub begin_sync : Synchronizer → ℕ × Synchronizer
begin_sync s = (
  s.generation + 1,
  set_status (if has_book s then resyncing else syncing)
      (record s { generation = s.generation + 1; buffer = []; sequence = none }),
)

abbrev pub sequence_of : BookDelta → ℕ
sequence_of delta = parsed_identifier delta.sequence

abbrev pub previous_of : BookDelta → ℕ
previous_of delta = parsed_identifier delta.previous_sequence

-- `#applyDelta`.
abbrev pub write_delta : BookDelta → Synchronizer → Synchronizer
write_delta delta s = record s {
  book = apply_levels delta.bids delta.asks s.book;
  sequence = some (sequence_of delta);
}

-- `sequence === n`, where `null` equals no bigint.
abbrev pub is_at : Option ℕ → ℕ → Bool
is_at none n = false
is_at (some m) n = n == m

-- The loop over the pending deltas of `applySnapshot`; there the sequence is set.
unfoldable pub drain : List BookDelta → Synchronizer → Bool × Synchronizer
unfolding set_status
drain [] s = (true, set_status synchronized s)
drain (delta ∷ rest) s =
    let skip = drain rest s in
    let go = drain rest (write_delta delta s) in
    if leb (sequence_of delta) (or_else s.sequence 0)
    then skip
    else if not (is_at s.sequence (previous_of delta))
    then (false, set_status resyncing s)
    else go

-- The comparator never answers 0; the sort asks only whether one delta comes before another.
abbrev pub by_sequence : BookDelta → BookDelta → Bool
by_sequence a b = ltb (sequence_of a) (sequence_of b)

abbrev pub pending : ℕ → List BookDelta → List BookDelta
pending snapshot_sequence buffer =
    sort by_sequence (keep_if (λ delta. ltb snapshot_sequence (sequence_of delta)) buffer)

unfoldable pub apply_snapshot : BookSnapshot → ℕ → Synchronizer → Bool × Synchronizer
apply_snapshot snapshot generation s =
    if not (same_text snapshot.symbol s.symbol)
    then (false, s)
    else if not (generation == s.generation)
    then (false, s)
    else let snapshot_sequence = parsed_identifier snapshot.sequence in
      drain (pending snapshot_sequence s.buffer) (record s {
        book = OrderBookModel.apply_snapshot snapshot s.book;
        sequence = some snapshot_sequence;
        buffer = [];
      })

-- The oldest delta goes where the buffer is full.
abbrev pub push_bounded : BookDelta → List BookDelta → List BookDelta
push_bounded delta buffer =
    (if leb max_buffered_deltas (length buffer) then drop 1 buffer else buffer) ++ delta ∷ []

abbrev pub is_buffering : Synchronizer → Bool
is_buffering s =
    same_status s.status syncing
    || same_status s.status resyncing
    || (elim s.sequence [ none ↦ true | some n ↦ false ])

unfoldable pub apply_delta : BookDelta → Synchronizer → DeltaOutcome × Synchronizer
unfolding set_status
apply_delta delta s =
    if not (same_text delta.symbol s.symbol)
    then (ignored_symbol, s)
    else if is_buffering s
    then (buffered, record s { buffer = push_bounded delta s.buffer })
    else if is_at s.sequence (previous_of delta)
    then (applied, write_delta delta s)
    else if leb (sequence_of delta) (or_else s.sequence 0)
    then (ignored_duplicate, s)
    else (resync_required, set_status resyncing s)

unfoldable pub reset : Synchronizer → Synchronizer
unfolding set_status
reset s =
    set_status idle
      (record s { book = new_book; buffer = []; sequence = none; generation = s.generation + 1 })

-- The registry: `OrderBookRegistry`.
abbrev pub Registry : Type 0
Registry = Map String Synchronizer

-- `for`: the symbol's synchroniser, made where there is none.
unfoldable pub get_or_create : String → Registry → Synchronizer × Registry
get_or_create symbol r = elim (Map.get symbol r) [
  | some existing ↦ (existing, r)
  | none ↦ (new symbol, Map.set symbol (new symbol) r)
]

abbrev pub peek : String → Registry → Option Synchronizer
peek symbol r = Map.get symbol r

unfoldable pub route : BookDelta → Registry → DeltaOutcome × Registry
route delta r = elim (Map.get delta.symbol r) [
  | none ↦ (ignored_symbol, r)
  | some s ↦ let (outcome, s') = apply_delta delta s in (outcome, Map.set delta.symbol s' r)
]

-- The synchroniser that is dropped is reset after it is taken out; its last state is returned for
-- the status that its callback reports.
unfoldable pub remove : String → Registry → Option Synchronizer × Registry
remove symbol r = elim (Map.get symbol r) [
  | none ↦ (none, r)
  | some s ↦ (some (reset s), Map.delete symbol r)
]

unfoldable pub every_synchronized : List Synchronizer → Bool
every_synchronized [] = true
every_synchronized (s ∷ rest) = same_status s.status synchronized && every_synchronized rest

unfoldable pub all_synchronized : Registry → Bool
unfolding every_synchronized
all_synchronized r = if length r == 0 then false else every_synchronized (Map.values r)
