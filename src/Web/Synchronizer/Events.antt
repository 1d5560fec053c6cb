-- ===== src/Web/Synchronizer/Events.antt =====
-- A synchroniser over any sequence of events: resyncs begun, snapshots of any attempt, deltas
-- lost, repeated or out of order, and resets.
use exaint.Base.{ℕ, ◌≡◌, ◌≢◌, some, List, [], ◌∷◌, Option-cases, inl, inr, arith, All, String, ◌↔◌}
use exaint.App.Wire.{BookDelta, BookSnapshot}
use exaint.Web.Synchronizer.{
  Synchronizer, synchronized, syncing, resyncing, begin_sync, previous_of, apply_snapshot,
  apply_delta, reset, new, applied,
}
use exaint.Web.Synchronizer.Agrees.{
  Feed, Shows, Agrees, new-Agrees, begin_sync-Agrees, reset-Agrees, apply_snapshot-Agrees,
  apply_delta-Agrees,
}
use text.Mathlib.TextEquality.{eq_iff}

pub data Event : Type 0 where
  begins resets : Event
  snapshots : BookSnapshot → ℕ → Event
  deltas : BookDelta → Event

unfoldable pub handle : Event → Synchronizer → Synchronizer
handle begins s = (begin_sync s).1
handle resets s = reset s
handle (snapshots snapshot generation) s = (apply_snapshot snapshot generation s).1
handle (deltas d) s = (apply_delta d s).1

unfoldable pub handle_all : List Event → Synchronizer → Synchronizer
handle_all [] s = s
handle_all (e ∷ es) s = handle_all es (handle e s)

module _ (feed : Feed) where
  -- The event carries nothing that the feed did not publish.
  abbrev pub FromFeed : Event → Type 0
  FromFeed begins = Unit
  FromFeed resets = Unit
  FromFeed (snapshots snapshot generation) = feed.Taken snapshot
  FromFeed (deltas d) = feed.Published d

  handle-Agrees :
      {s : Synchronizer} (e : Event) → FromFeed e → Agrees feed s → Agrees feed (handle e s)
  unfolding handle
  handle-Agrees {s} begins h a = begin_sync-Agrees feed s
  handle-Agrees {s} resets h a = reset-Agrees feed s
  handle-Agrees (snapshots snapshot generation) h a =
      apply_snapshot-Agrees feed snapshot generation h a
  handle-Agrees (deltas d) h a = apply_delta-Agrees feed d h a

  pub handle_all-Agrees :
      (es : List Event) {s : Synchronizer}
      → All FromFeed es
      → Agrees feed s
      → Agrees feed (handle_all es s)
  unfolding handle_all
  handle_all-Agrees [] h a = a
  handle_all-Agrees (e ∷ es) h a = handle_all-Agrees es h.1 (handle-Agrees e h.0 a)

  -- Whatever a new synchroniser is fed of what the feed publishes, in any order and with any losses
  -- and repeats, and however often it is resynced or reset: where it calls itself synchronised it
  -- has a sequence, and its book holds at every price what the feed's book holds at that sequence.
  pub synchronized-Shows :
      (symbol : String) (es : List Event)
      → All FromFeed es
      → (handle_all es (new symbol)).status ≡ synchronized
      → (n : ℕ) × ((handle_all es (new symbol)).sequence ≡ some n)
        × Shows (handle_all es (new symbol)).book (feed.book_at n)
  synchronized-Shows symbol es h live =
      let a = handle_all-Agrees es h (new-Agrees feed symbol) in
      elim (Option-cases (handle_all es (new symbol)).sequence) [
        | inl missing ↦ absurd (a.known live missing)
        | inr (n, e) ↦ (n, e, a.holds.shows n e)
      ]

-- A delta is applied exactly when it is for this symbol, the synchroniser is not collecting deltas
-- for a resync, and its previous sequence is the local one; a delta that is not applied changes
-- neither the book nor the sequence.
pub applied_iff :
    (d : BookDelta) (s : Synchronizer)
    → let (outcome, s') = apply_delta d s in
      ((outcome ≡ applied) ↔ (
        (d.symbol ≡ s.symbol)
        × (s.status ≢ syncing)
        × (s.status ≢ resyncing)
        × (s.sequence ≡ some (previous_of d))))
      × (outcome ≢ applied → (s'.book ≡ s.book) × (s'.sequence ≡ s.sequence))
unfolding apply_delta
applied_iff d s = (
  (
    λ h. (ground (arith, eq_iff d.symbol s.symbol), ground arith, ground arith, ground arith),
    λ h. ground (arith, eq_iff d.symbol s.symbol),
  ),
  λ h. (ground arith, ground arith),
)
