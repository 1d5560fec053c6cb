-- ===== src/Delivery/Frames.antt =====
-- apps/api/src/websocket/frame-handler.ts. The decoder of frames and the rate limiter stand apart:
-- a frame comes decoded or refused, with the limiter's verdict. Callbacks and metrics are effects.
pub mod Cap
use exaint.Base.{
  ℕ, String, Bool, true, false, not, ◌&&◌, Option, none, some, List, [], ◌∷◌, if◌then◌else◌,
}
use exaint.Base.Keys.{string_eq}
use exaint.Base.Map
use exaint.Protocol.{Interval, Tier, Channel, candles}
use exaint.Delivery.RateLimiter.{RateLimitVerdict, allow, limit, close_socket}
use exaint.Delivery.Session.{
  ConnectionSession, SymbolSubscription, subscription, at_subscription_cap, subscribe, unsubscribe,
  set_interval, has_channel,
}

pub data ClientFrame (M : Type 0) : Type 0 where
  ping : ℕ → ClientFrame M
  network_report : M → M → ClientFrame M
  tier_override : Option Tier → ClientFrame M
  subscribe_to : String → List Channel → Option Interval → ClientFrame M
  unsubscribe_from : String → ClientFrame M
  change_interval : String → Interval → ClientFrame M

pub data ErrorReply : Type 0 where
  undecodable rate_limited invalid_message unknown_symbol too_many_subscriptions not_subscribed :
      ErrorReply

-- What a frame makes the handler do, besides changing the session.
pub data Reply (M : Type 0) : Type 0 where
  pong : ℕ → Reply M
  subscribed : String → List Channel → Option Interval → Reply M
  refused : ErrorReply → Reply M
  closes : Reply M
  reports : M → M → Reply M
  overrides : Option Tier → Reply M
  subscriptions_changed : Reply M

abbrev pub wanted_interval : List Channel → Option Interval → Option Interval
wanted_interval channels interval = if has_channel candles channels then interval else none

module _ {M : Type 0} where
  abbrev pub is_new : String → ConnectionSession M → Bool
  is_new symbol s = not (Map.has symbol s.subscriptions)

  abbrev pub change_of :
      String
      → Interval
      → Option SymbolSubscription
      → ConnectionSession M
      → List (Reply M) × ConnectionSession M
  change_of symbol interval none s = (refused not_subscribed ∷ [], s)
  change_of symbol interval (some existing) s =
      if not (has_channel candles existing.channels) then (refused not_subscribed ∷ [], s) else (
        subscribed symbol existing.channels (some interval) ∷ [],
        record s {
          subscriptions = Map.set symbol (set_interval (some interval) existing) s.subscriptions;
        },
      )

module _ {M : Type 0} (known : String → Bool) (enable_debug_controls : Bool) where
  unfoldable pub apply_frame :
      ClientFrame M → ConnectionSession M → List (Reply M) × ConnectionSession M
  apply_frame (ping id) s = (pong id ∷ [], s)
  apply_frame (network_report rtt jitter) s = (reports rtt jitter ∷ [], s)
  apply_frame (tier_override tier) s =
      if not enable_debug_controls
      then (refused invalid_message ∷ [], s)
      else (overrides tier ∷ [], s)
  apply_frame (subscribe_to symbol channels interval) s =
      if not (known symbol)
      then (refused unknown_symbol ∷ [], s)
      else if is_new symbol s && at_subscription_cap s
      then (refused too_many_subscriptions ∷ [], s)
      else let wanted = wanted_interval channels interval in
        (
          subscriptions_changed ∷ subscribed symbol channels wanted ∷ [],
          subscribe symbol channels wanted s,
        )
  apply_frame (unsubscribe_from symbol) s =
      let (was_there, s') = unsubscribe symbol s in
      if not was_there
      then (refused not_subscribed ∷ [], s')
      else (subscriptions_changed ∷ subscribed symbol [] none ∷ [], s')
  apply_frame (change_interval symbol interval) s =
      change_of symbol interval (subscription symbol s) s

  -- `none` is a frame that the decoder refuses.
  unfoldable pub handle_client_frame :
      Option (ClientFrame M)
      → RateLimitVerdict
      → ℕ
      → ConnectionSession M
      → List (Reply M) × ConnectionSession M
  unfolding apply_frame
  handle_client_frame none verdict now s =
      (refused undecodable ∷ [], record s { last_inbound_at = now })
  handle_client_frame (some frame) limit now s =
      (refused rate_limited ∷ [], record s { last_inbound_at = now })
  handle_client_frame (some frame) close_socket now s =
      (refused rate_limited ∷ closes ∷ [], record s { last_inbound_at = now })
  handle_client_frame (some frame) allow now s =
      apply_frame frame (record s { last_inbound_at = now })
