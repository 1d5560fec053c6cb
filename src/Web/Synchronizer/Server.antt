-- ===== src/Web/Synchronizer/Server.antt =====
-- The feed that a server's book publishes over a history of calls: the deltas that its flushes emit,
-- encoded, and the snapshots taken right after a flush.
use exaint.Base.{ℕ, ◌≡◌, sym, ◌∙◌, subst, Option, some, List, ◌∷◌, ◌++◌, All, String}
use exaint.Base.Int.{ℤ}
use exaint.Base.Keys.{int_eq}
use exaint.Base.Map
use exaint.Base.Map.{Map}
use exaint.Protocol.Decimal.{parsed_identifier}
use exaint.Protocol.Decimal.RoundTrip.{parsed-format_identifier}
use exaint.App.Wire.{BookDelta, BookSnapshot, encode_book_delta, encode_book_snapshot}
use exaint.Market.Events.{DomainBookLevel, DomainBookDelta}
use exaint.Market.OrderBook.{OrderBook, bid, ask, snapshot, levels, flush_delta}
use exaint.Market.OrderBook.Replay.{replay, get-replay}
use exaint.Market.OrderBook.Snapshot.{replay-levels}
use exaint.Market.OrderBook.Invariant.{IsValid}
use exaint.Market.OrderBook.History.{Copy, Mirrors, receive, flush_delta-IsValid}
use exaint.Market.OrderBook.Run.{Command, flushes, run, run-Ran, Chain, run-Mirrors}
use exaint.Market.OrderBook.Chain.{state_at, Emitted, state_at_step, state_at-snoc, run-flush}
use exaint.Web.OrderBookModel.{LocalOrderBook, apply_levels, new_book}
use exaint.Web.OrderBookModel
use exaint.Web.OrderBookModel.Replays.{apply_levels-encode}
use exaint.Web.Synchronizer.{new, sequence_of, previous_of}
use exaint.Web.Synchronizer.Agrees.{Feed, Shows, new-Agrees}
use exaint.Web.Synchronizer.Events.{Event, FromFeed, handle_all, handle_all-Agrees}

replay_ext :
    (cs : List DomainBookLevel) (k : ℤ) (m n : Map ℤ ℤ)
    → Map.get k m ≡ Map.get k n
    → Map.get k (replay cs m) ≡ Map.get k (replay cs n)
replay_ext cs k m n e = rw (get-replay k cs m, get-replay k cs n, e)

module _ (b b' : OrderBook) (ks : List Command) (ds : List (Option DomainBookDelta)) (c : Copy)
    (valid : IsValid b b) (mirrors : Mirrors c b) (ran : run ks b ≡ some (ds, b')) where
  -- A snapshot taken right after a flush of the history.
  pub record TakenFrom (s : BookSnapshot) : Type 0 where
    pub before : List Command
    pub timestamp : ℕ
    pub after : List Command
    pub book : OrderBook
    pub emitted : List (Option DomainBookDelta)
    pub splits : ks ≡ before ++ flushes timestamp ∷ after
    pub reached : run before b ≡ some (emitted, book)
    pub encoded : s ≡ encode_book_snapshot (snapshot (flush_delta timestamp book).1)

  pub record PublishedFrom (d : BookDelta) : Type 0 where
    pub delta : DomainBookDelta
    pub emitted : Emitted delta ds
    pub encoded : d ≡ encode_book_delta delta

  chain : (n : ℕ) × Chain b.sequence ds n
  chain = let (m, n, h, e) = run-Mirrors ks c 0 valid mirrors ran in (n, h)

  pub delta_law :
      (d : BookDelta) (l : LocalOrderBook)
      → PublishedFrom d
      → Shows l (state_at ds c (previous_of d))
      → Shows (apply_levels d.bids d.asks l) (state_at ds c (sequence_of d))
  unfolding encode_book_delta receive
  delta_law d l p s =
      let (n, h) = chain in
      let same : previous_of d ≡ p.delta.previous_sequence =
        rw p.encoded (parsed-format_identifier p.delta.previous_sequence) in
      let s' : Shows l (state_at ds c p.delta.previous_sequence) =
        subst (λ (k : ℕ). Shows l (state_at ds c k)) same s in
      rw
        (
          p.encoded,
          parsed-format_identifier p.delta.sequence,
          apply_levels-encode,
          ← state_at_step c h p.emitted,
        )
        (record {
          same_bids = λ k. replay_ext p.delta.bids k _ _ (s'.same_bids k);
          same_asks = λ k. replay_ext p.delta.asks k _ _ (s'.same_asks k);
        })

  -- At the sequence of a book just flushed, the copies mirror that book.
  flushed_book :
      (before : List Command) (timestamp : ℕ) (after : List Command) (book : OrderBook)
      (emitted : List (Option DomainBookDelta))
      → ks ≡ before ++ flushes timestamp ∷ after
      → run before b ≡ some (emitted, book)
      → let b₂ = (flush_delta timestamp book).1 in
        IsValid b₂ b₂ × Mirrors (state_at ds c b₂.sequence) b₂
  flushed_book before timestamp after book emitted e r =
      let (base, f, h₀) = run-Ran before c (record { valid = valid; mirrors = mirrors }) r in
      let (m, n, h, k) = run-Mirrors before c timestamp valid mirrors r in
      let (total, whole) = chain in
      let (rest, e₁) =
        run-flush before after timestamp b
          (subst (λ (l : List Command). run l b ≡ some (ds, b')) e ran) r in
      let here =
        state_at-snoc emitted rest (flush_delta timestamp book).0 c
          (flush_delta timestamp book).1.sequence h k
          (subst (λ (l : List (Option DomainBookDelta)). Chain b.sequence l total) e₁ whole) in
      (flush_delta-IsValid timestamp f.valid, rw (e₁, here) m)

  pub snapshot_law :
      (s : BookSnapshot) (l : LocalOrderBook)
      → TakenFrom s
      → Shows (OrderBookModel.apply_snapshot s l) (state_at ds c (parsed_identifier s.sequence))
  unfolding encode_book_snapshot snapshot OrderBookModel.apply_snapshot
  snapshot_law s l t =
      let b₂ = (flush_delta t.timestamp t.book).1 in
      let (v, m) = flushed_book t.before t.timestamp t.after t.book t.emitted t.splits t.reached in
      rw
        (
          t.encoded,
          parsed-format_identifier b₂.sequence,
          apply_levels-encode (levels bid b₂) (levels ask b₂) new_book,
        )
        (record {
          same_bids = λ k. replay-levels bid k b₂ v.bids_before ∙ sym (m.same_bids k);
          same_asks = λ k. replay-levels ask k b₂ v.asks_before ∙ sym (m.same_asks k);
        })

  abbrev pub server_feed : Feed
  server_feed = record {
    book_at = state_at ds c;
    Published = PublishedFrom;
    Taken = TakenFrom;
    delta_law = delta_law;
    snapshot_law = snapshot_law;
  }

  -- Take a server's book that is valid, with nothing pending, and any history of sets, adds, trims
  -- and flushes on it. Feed a new synchroniser any sequence of resyncs, resets, snapshots taken
  -- right after some flush of that history, and encoded deltas that its flushes emitted, lost,
  -- repeated or in any order. Whenever the synchroniser's sequence is the sequence of the server's
  -- book right after some flush of the history, it holds the same quantity as that book at every
  -- price of both sides.
  pub sequence-mirrors :
      (symbol : String) (es : List Event) (before : List Command) (timestamp : ℕ)
      (after : List Command) (book : OrderBook) (emitted : List (Option DomainBookDelta))
      → All (FromFeed server_feed) es
      → ks ≡ before ++ flushes timestamp ∷ after
      → run before b ≡ some (emitted, book)
      → let server = (flush_delta timestamp book).1 in
        let client = handle_all es (new symbol) in
        client.sequence ≡ some server.sequence
        → (p : ℤ)
        → (Map.get p client.book.bids ≡ Map.get p server.bids)
          × (Map.get p client.book.asks ≡ Map.get p server.asks)
  sequence-mirrors symbol es before timestamp after book emitted h e r n p =
      let a = handle_all-Agrees server_feed es h (new-Agrees server_feed symbol) in
      let shown = a.holds.shows _ n in
      let (v, m) = flushed_book before timestamp after book emitted e r in
      (shown.same_bids p ∙ m.same_bids p, shown.same_asks p ∙ m.same_asks p)
