-- ===== src/Delivery/Gateway.antt =====
-- apps/api/src/websocket/gateway.ts: one connection from its ticket to its end, with the frame
-- handler, the rate limiter and the tier controller that it puts together. `M` are the client's
-- numbers. Frames come decoded or refused; what the connection does to the world is an effect. A
-- socket that the server closes is not OPEN any more, and then nothing is sent on it. Logs, metrics
-- and request parsing are left out.
pub mod Heartbeat
pub mod Tests
pub mod Tiers
use exaint.Base.{
  ℕ, ◌-◌, String, Bool, true, false, not, ◌&&◌, Option, none, some, List, [], ◌∷◌, ◌++◌, ltb,
  if◌then◌else◌, Result, ok, err, or_else,
}
use exaint.Base.Keys.{Eq, string_eq}
use exaint.Base.Map
use exaint.Base.Map.{Map}
use exaint.Protocol.{Tier, full, degraded, minimal, Cadence, tier_cadence_ms}
use exaint.Auth.Tickets.{TicketRejection, unauthorized, ticket_expired, TicketPayload}
use exaint.Delivery.Session.{ConnectionSession, SymbolSubscription, new_session, effective_tier}
use exaint.Delivery.Tier.{
  TierController, TierUpdate, TierChangeReason, new_controller, apply_report, apply_silence,
  set_override, same_tier,
}
use exaint.Delivery.RateLimiter.{
  RateLimitVerdict, allow, ClientFrameType, ping_frame, report_frame, subscribe_frame,
  unsubscribe_frame, interval_frame, override_frame, ConnectionRateLimiter, new_limiter, check,
}
use exaint.Delivery.Frames.{
  ClientFrame, ping, network_report, tier_override, subscribe_to, unsubscribe_from, change_interval,
  Reply, pong, subscribed, refused, closes, reports, overrides, subscriptions_changed,
  handle_client_frame,
}

abbrev pub heartbeat_timeout_ms : ℕ
heartbeat_timeout_ms = 45000

-- `CLOSE_CODES`, with the backpressure's in the dispatcher.
abbrev pub unauthorized_code : ℕ
unauthorized_code = 4401

abbrev pub ticket_expired_code : ℕ
ticket_expired_code = 4408

abbrev pub rate_limited_code : ℕ
rate_limited_code = 4429

abbrev pub heartbeat_timeout_code : ℕ
heartbeat_timeout_code = 4000

pub data Outgoing (M : Type 0) : Type 0 where
  hello : String → ℕ → Tier → Outgoing M
  tier_changed : Tier → Option Tier → Tier → TierChangeReason → Cadence → Outgoing M
  rejected : TicketRejection → Outgoing M
  replied : Reply M → Outgoing M

pub data GatewayEffect (M : Type 0) : Type 0 where
  sends : Outgoing M → GatewayEffect M
  closes_with : ℕ → GatewayEffect M
  refreshes_gauges : GatewayEffect M

-- What happens to a connection: a frame, a firing of the heartbeat's timer, its end.
pub data GatewaySignal (M : Type 0) : Type 0 where
  message : Option (ClientFrame M) → ℕ → GatewaySignal M
  beats : ℕ → GatewaySignal M
  closed : GatewaySignal M

pub record Connection (M : Type 0) : Type 0 where
  pub tiers : TierController M
  pub limiter : ConnectionRateLimiter
  pub socket_open : Bool
  pub heartbeat_runs : Bool

abbrev pub session_of : {M : Type 0} → Connection M → ConnectionSession M
session_of c = c.tiers.session

abbrev pub type_of : {M : Type 0} → ClientFrame M → ClientFrameType
type_of (ping id) = ping_frame
type_of (network_report rtt jitter) = report_frame
type_of (tier_override tier) = override_frame
type_of (subscribe_to symbol channels interval) = subscribe_frame
type_of (unsubscribe_from symbol) = unsubscribe_frame
type_of (change_interval symbol interval) = interval_frame

abbrev pub Handler : Type 0 → Type 0
Handler M = Connection M → List (GatewayEffect M) × Connection M

module _ {M : Type 0} where
  -- `send`.
  abbrev pub send : Outgoing M → Handler M
  send frame c = (if c.socket_open then sends frame ∷ [] else [], c)

  -- `close`.
  abbrev pub close : ℕ → Handler M
  close code c = (closes_with code ∷ [], record c { socket_open = false })

  infixl 5 ◌then_do◌
  abbrev pub ◌then_do◌ : Handler M → Handler M → Handler M
  ◌then_do◌ f g c = let (es, c') = f c in let (fs, c'') = g c' in (es ++ fs, c'')

  abbrev pub tier_frame : TierUpdate → ConnectionSession M → Outgoing M
  tier_frame update session =
      tier_changed update.auto_tier session.tier_override update.effective update.reason
        (tier_cadence_ms update.effective)

  -- `announceTier`, behind the change of the controller that it announces.
  unfoldable pub announce : TierUpdate × TierController M → Handler M
  announce r c =
      let c' = record c { tiers = r.1 } in
      if not r.0.changed
      then ([], c')
      else ((send (tier_frame r.0 r.1.session) c).0 ++ refreshes_gauges ∷ [], c')

  unfoldable pub hello_frame : ℕ → Connection M → Outgoing M
  hello_frame now c = hello (session_of c).connection_id now (effective_tier (session_of c))

-- What the upgrade's ticket comes to: no tickets are asked for, or one is taken or refused.
pub data Admission : Type 0 where
  no_tickets : Admission
  verified : Result TicketRejection TicketPayload → Admission

abbrev pub refusal_code : TicketRejection → ℕ
refusal_code unauthorized = unauthorized_code
refusal_code ticket_expired = ticket_expired_code

module _ {M : Type 0} (nought : M)
    (global_frames_per_second strike_limit max_subscriptions : ℕ) where
  -- The session and what goes with it.
  abbrev pub new_connection : String → String → ℕ → Connection M
  new_connection connection_id subject now = record {
    tiers = new_controller (new_session nought connection_id subject max_subscriptions now);
    limiter = new_limiter global_frames_per_second strike_limit now;
    socket_open = true;
    heartbeat_runs = true;
  }

  abbrev pub accept : String → String → ℕ → List (GatewayEffect M) × Option (Connection M)
  accept connection_id subject now =
      let c = new_connection connection_id subject now in
      (refreshes_gauges ∷ sends (hello_frame now c) ∷ [], some c)

  -- The handler of `/v1/ws`, on a socket that is open.
  unfoldable pub on_upgrade :
      Admission → String → ℕ → List (GatewayEffect M) × Option (Connection M)
  unfolding hello_frame
  on_upgrade no_tickets connection_id now = accept connection_id "anon-local" now
  on_upgrade (verified (ok payload)) connection_id now = accept connection_id payload.sub now
  on_upgrade (verified (err reason)) connection_id now =
      (sends (rejected reason) ∷ closes_with (refusal_code reason) ∷ [], none)

module _ {M : Type 0} (above below : M → ℕ → Bool) (known : String → Bool)
    (enable_debug_controls : Bool) (timeout_ms : ℕ) where
  -- What the frame handler's reply makes the gateway do.
  unfoldable pub obey : ℕ → Reply M → Handler M
  unfolding announce
  obey now (pong id) c = send (replied (pong id)) c
  obey now (subscribed symbol channels interval) c =
      send (replied (subscribed symbol channels interval)) c
  obey now (refused reason) c = send (replied (refused reason)) c
  obey now closes c = close rate_limited_code c
  obey now (reports rtt jitter) c = announce (apply_report above below rtt jitter now c.tiers) c
  obey now (overrides tier) c = announce (set_override tier c.tiers) c
  obey now subscriptions_changed c = (refreshes_gauges ∷ [], c)

  unfoldable pub obey_all : ℕ → List (Reply M) → Handler M
  unfolding obey
  obey_all now [] c = ([], c)
  obey_all now (reply ∷ rest) c = (obey now reply then_do obey_all now rest) c

  -- The limiter is asked about a frame that the decoder takes.
  abbrev pub judge_frame :
      Option (ClientFrame M) → ℕ → ConnectionRateLimiter → RateLimitVerdict × ConnectionRateLimiter
  judge_frame none now l = (allow, l)
  judge_frame (some frame) now l = check (type_of frame) now l

  unfoldable pub on_message : Option (ClientFrame M) → ℕ → Handler M
  unfolding obey_all
  on_message frame now c =
      let (verdict, limiter) = judge_frame frame now c.limiter in
      let (replies, session) =
        handle_client_frame known enable_debug_controls frame verdict now (session_of c) in
      obey_all now replies
        (record c { tiers = record c.tiers { session = session }; limiter = limiter })

  -- The timer of the heartbeat, which also watches for missing reports.
  unfoldable pub on_heartbeat : ℕ → Handler M
  unfolding announce
  on_heartbeat now c =
      if not c.heartbeat_runs
      then ([], c)
      else if ltb timeout_ms (now - (session_of c).last_inbound_at)
      then close heartbeat_timeout_code c
      else announce (apply_silence now c.tiers) c

  -- The socket has closed.
  abbrev pub on_close : Connection M → List (GatewayEffect M) × Connection M
  on_close c = (refreshes_gauges ∷ [], record c { heartbeat_runs = false; socket_open = false })

  unfoldable pub handle : GatewaySignal M → Handler M
  unfolding on_message on_heartbeat
  handle (message frame now) c = on_message frame now c
  handle (beats now) c = on_heartbeat now c
  handle closed c = on_close c

  unfoldable pub handle_all : List (GatewaySignal M) → Handler M
  unfolding handle
  handle_all [] c = ([], c)
  handle_all (s ∷ ss) c = (handle s then_do handle_all ss) c
