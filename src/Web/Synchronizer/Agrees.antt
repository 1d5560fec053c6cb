-- ===== src/Web/Synchronizer/Agrees.antt =====
-- A synchroniser against a feed: whatever reaches it of the feed's deltas and snapshots, and in
-- whatever order, its book is the feed's book at its sequence.
use exaint.Base.{
  ℕ, ◌+◌, ◌≡◌, ◌≢◌, ◌∙◌, subst, Bool, true, none, some, List, [], ◌∷◌, leb, ◌==◌, if◌then◌else◌,
  or_else, Bool-cases, eq_of_some, inl, inr, arith, length, drop, All, All-append, String,
  All-keep_if, All-drop,
}
use exaint.Base.Int.{ℤ}
use exaint.Base.Keys.{int_eq}
use exaint.Base.Map
use exaint.Base.Map.{Map}
use exaint.Base.Sort.{All-sort}
use exaint.Protocol.Decimal.{parsed_identifier}
use exaint.App.Wire.{BookDelta, BookSnapshot}
use exaint.Market.OrderBook.History.{Copy}
use exaint.Web.OrderBookModel.{LocalOrderBook, new_book, apply_levels}
use exaint.Web.OrderBookModel
use exaint.Web.Synchronizer.{
  Synchronizer, BookStatus, idle, syncing, synchronized, resyncing, same_status, set_status,
  has_book, begin_sync, sequence_of, previous_of, write_delta, is_at, drain, by_sequence, pending,
  apply_snapshot, push_bounded, is_buffering, apply_delta, reset, max_buffered_deltas, new,
}
use text.Mathlib.Text.{◌==◌ as same_text}

-- The two hold the same quantity at every price.
pub record Shows (b : LocalOrderBook) (c : Copy) : Type 0 where
  pub same_bids : (p : ℤ) → Map.get p b.bids ≡ Map.get p c.bids
  pub same_asks : (p : ℤ) → Map.get p b.asks ≡ Map.get p c.asks

-- What a server publishes of one book: the book at each sequence, deltas that lead from the book at
-- one sequence to that at another, and snapshots of the book at their sequence.
pub record Feed : Type 1 where
  pub book_at : ℕ → Copy
  pub Published : BookDelta → Type 0
  pub Taken : BookSnapshot → Type 0
  pub delta_law :
      (d : BookDelta) (b : LocalOrderBook)
      → Published d
      → Shows b (book_at (previous_of d))
      → Shows (apply_levels d.bids d.asks b) (book_at (sequence_of d))
  pub snapshot_law :
      (s : BookSnapshot) (b : LocalOrderBook)
      → Taken s
      → Shows (OrderBookModel.apply_snapshot s b) (book_at (parsed_identifier s.sequence))

same_status-eq : (a b : BookStatus) → same_status a b ≡ true → a ≡ b
same_status-eq a b h = ground arith

module _ (feed : Feed) where
  open feed use {book_at, Published, Taken, delta_law, snapshot_law}

  -- The book is the feed's at the sequence, and what waits in the buffer comes from the feed.
  pub record Holds (s : Synchronizer) : Type 0 where
    pub shows : (n : ℕ) → s.sequence ≡ some n → Shows s.book (book_at n)
    pub genuine : All Published s.buffer

  -- A synchroniser that calls itself synchronised has a sequence.
  pub record Agrees (s : Synchronizer) : Type 0 where
    pub holds : Holds s
    pub known : s.status ≡ synchronized → s.sequence ≢ none

  set_status-Agrees :
      {s : Synchronizer} (status : BookStatus)
      → (status ≡ synchronized → s.sequence ≢ none)
      → Holds s
      → Agrees (set_status status s)
  unfolding set_status
  set_status-Agrees {s} status h a = elim (Bool-cases (same_status status s.status)) [
    | inl same ↦
        rw same (record { holds = a; known = λ q. h (same_status-eq status s.status same ∙ q) })
    | inr new ↦
        rw new (record { holds = record { shows = a.shows; genuine = a.genuine }; known = h })
  ]

  write_delta-Holds :
      {s : Synchronizer} (d : BookDelta)
      → Published d
      → is_at s.sequence (previous_of d) ≡ true
      → Holds s
      → Holds (write_delta d s)
  write_delta-Holds {s} d p e a = record {
    shows = λ n q.
        subst (λ (k : ℕ). Shows (write_delta d s).book (book_at k)) (eq_of_some q)
          (delta_law d s.book p (a.shows (previous_of d) (ground arith)));
    genuine = a.genuine;
  }

  drain-Agrees :
      (ds : List BookDelta) {s : Synchronizer}
      → All Published ds
      → s.sequence ≢ none
      → Holds s
      → Agrees (drain ds s).1
  unfolding drain
  drain-Agrees [] h k a = set_status-Agrees synchronized (λ _. k) a
  drain-Agrees (d ∷ ds) {s} h k a = elim (Bool-cases (leb (sequence_of d) (or_else s.sequence 0))) [
    | inl old ↦ rw old (drain-Agrees ds h.1 k a)
    | inr new ↦ elim (Bool-cases (is_at s.sequence (previous_of d))) [
      | inl next ↦
          rw (new, next)
            (drain-Agrees ds {s = write_delta d s} h.1 (λ q. cc) (write_delta-Holds d h.0 next a))
      | inr hole ↦ rw (new, hole) (set_status-Agrees resyncing (λ q. cc) a)
    ]
  ]

  pub new-Agrees : (symbol : String) → Agrees (new symbol)
  new-Agrees symbol = record { holds = record { shows = λ n q. cc; genuine = tt }; known = λ q. cc }

  pub begin_sync-Agrees : (s : Synchronizer) → Agrees (begin_sync s).1
  unfolding begin_sync
  begin_sync-Agrees s =
      set_status-Agrees _ (λ q. absurd (never (has_book s) q))
        (record { shows = λ n q. cc; genuine = tt })
    where
      never : (b : Bool) → (if b then resyncing else syncing) ≡ synchronized → ⊥
      never b q = ground arith

  pub reset-Agrees : (s : Synchronizer) → Agrees (reset s)
  unfolding reset
  reset-Agrees s =
      set_status-Agrees
        {s = record s {
          book = new_book;
          buffer = [];
          sequence = none;
          generation = s.generation + 1;
        }}
        idle (λ q. cc) (record { shows = λ n q. cc; genuine = tt })

  -- A snapshot of the feed, of whatever generation, leaves the book the feed's.
  pub apply_snapshot-Agrees :
      {s : Synchronizer} (snapshot : BookSnapshot) (generation : ℕ)
      → Taken snapshot
      → Agrees s
      → Agrees (apply_snapshot snapshot generation s).1
  unfolding apply_snapshot
  apply_snapshot-Agrees {s} snapshot generation t a =
      elim (Bool-cases (same_text snapshot.symbol s.symbol)) [
        | inr other ↦ rw other a
        | inl mine ↦ elim (Bool-cases (generation == s.generation)) [
          | inr late ↦ rw (mine, late) a
          | inl now ↦
              rw (mine, now)
                (drain-Agrees (pending n s.buffer)
                  (All-sort by_sequence Published _
                    (All-keep_if Published _ s.buffer a.holds.genuine))
                  (λ q. cc)
                  (record {
                    shows = λ k q.
                        subst
                          (λ (k : ℕ).
                            Shows (OrderBookModel.apply_snapshot snapshot s.book) (book_at k))
                          (eq_of_some q) (snapshot_law snapshot s.book t);
                    genuine = tt;
                  }))
        ]
      ]
    where
      n : ℕ
      n = parsed_identifier snapshot.sequence

  push_bounded-All :
      (d : BookDelta) (buffer : List BookDelta)
      → Published d
      → All Published buffer
      → All Published (push_bounded d buffer)
  push_bounded-All d buffer p h = elim (Bool-cases (leb max_buffered_deltas (length buffer))) [
    | inl full ↦
        rw full
          (All-append Published (drop 1 buffer) (d ∷ []) (All-drop Published 1 buffer h) (p, tt))
    | inr room ↦ rw room (All-append Published buffer (d ∷ []) h (p, tt))
  ]

  -- So does a delta of the feed, contiguous or not.
  pub apply_delta-Agrees :
      {s : Synchronizer} (d : BookDelta) → Published d → Agrees s → Agrees (apply_delta d s).1
  unfolding apply_delta
  apply_delta-Agrees {s} d p a = elim (Bool-cases (same_text d.symbol s.symbol)) [
    | inr other ↦ rw other a
    | inl mine ↦ elim (Bool-cases (is_buffering s)) [
      | inl wait ↦
          rw (mine, wait)
            (record {
              holds = record {
                shows = a.holds.shows;
                genuine = push_bounded-All d s.buffer p a.holds.genuine;
              };
              known = a.known;
            })
      | inr live ↦ elim (Bool-cases (is_at s.sequence (previous_of d))) [
        | inl next ↦
            rw (mine, live, next)
              (record { holds = write_delta-Holds d p next a.holds; known = λ q r. cc })
        | inr hole ↦ elim (Bool-cases (leb (sequence_of d) (or_else s.sequence 0))) [
          | inl old ↦ rw (mine, live, hole, old) a
          | inr gap ↦ rw (mine, live, hole, gap) (set_status-Agrees resyncing (λ q. cc) a.holds)
        ]
      ]
    ]
  ]
