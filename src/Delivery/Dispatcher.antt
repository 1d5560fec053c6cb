-- ===== src/Delivery/Dispatcher.antt =====
-- apps/api/src/websocket/dispatcher.ts: what the tick of one symbol makes each connection do. What a
-- connection sends, and how it closes, is a list of effects; metrics are left out.
use exaint.Base.{ℕ, Bool, not, Option, none, some, List, [], ◌∷◌, ◌++◌, map, ltb, if◌then◌else◌}
use exaint.Base.Keys.{string_eq}
use exaint.Base.Map
use exaint.Protocol.{Tier, book}
use exaint.App.Wire.{encode_book_delta}
use exaint.Market.Events.{SymbolTickResult, DomainBookDelta}
use exaint.Delivery.Session.{
  SymbolSubscription, ConnectionSession, has_channel, subscription, effective_tier,
}
use exaint.Delivery.Scheduler.{
  ServerFrame, book_delta, error_frame, backpressure_close, backpressure_soft_bytes,
  backpressure_hard_bytes, enqueue, flush_due,
}

pub data Effect : Type 0 where
  send : ServerFrame → Effect
  resync_close : Effect
  close : ℕ → Effect

-- `CLOSE_CODES.BACKPRESSURE`.
abbrev pub backpressure_code : ℕ
backpressure_code = 4409

-- One open socket: its session, and what the socket answers at this tick.
pub record ConnectionHandle (M : Type 0) : Type 0 where
  pub session : ConnectionSession M
  pub is_open : Bool
  pub buffered_amount : ℕ

unfoldable pub delta_effects : SymbolSubscription → Option DomainBookDelta → List Effect
delta_effects s none = []
delta_effects s (some delta) =
    if has_channel book s.channels then send (book_delta (encode_book_delta delta)) ∷ [] else []

unfoldable pub serve :
    SymbolTickResult → ℕ → ℕ → Tier → SymbolSubscription → List Effect × SymbolSubscription
unfolding delta_effects
serve result now buffered tier s =
    let s' = enqueue result s in
    let (frames, s'') = flush_due now tier (ltb backpressure_soft_bytes buffered) s' in
    (delta_effects s result.delta ++ map send frames, s'')

module _ {M : Type 0} where
  unfoldable pub dispatch_one :
      SymbolTickResult → ℕ → ConnectionHandle M → List Effect × ConnectionHandle M
  unfolding serve
  dispatch_one result now h =
      if not h.is_open then ([], h) else elim (subscription result.symbol h.session) [
        | none ↦ ([], h)
        | some s ↦
            let (effects, s') = serve result now h.buffered_amount (effective_tier h.session) s in
            if ltb backpressure_hard_bytes h.buffered_amount
            then (
              send (error_frame backpressure_close) ∷ resync_close ∷ close backpressure_code ∷ [],
              h,
            )
            else (
              effects,
              record h {
                session = record h.session {
                  subscriptions = Map.set result.symbol s' h.session.subscriptions;
                };
              },
            )
      ]

  -- Every connection, in the order they were added.
  unfoldable pub dispatch :
      SymbolTickResult → ℕ → List (ConnectionHandle M) → List (List Effect × ConnectionHandle M)
  dispatch result now handles = map (dispatch_one result now) handles
