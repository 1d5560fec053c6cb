-- ===== src/Web/Socket/Client.antt =====
-- apps/web/features/market/socket: market-socket-client.ts and visibility-controller.ts. What happens
-- to the client is a signal; what it does besides changing its state is a list of effects. A ticket
-- fetch and a socket are known by numbers, which never come twice. `M` are the client's numbers.
pub mod Signals
pub mod Handlers
pub mod Live
use exaint.Base.{
  ℕ, suc, ◌+◌, ◌-◌, min, String, Bool, true, false, not, ◌&&◌, Option, none, some, List, [], ◌∷◌,
  ◌++◌, ltb, leb, ◌==◌, if◌then◌else◌, or_else, map,
}
use exaint.Base.Keys.{nat_eq}
use exaint.Base.Map
use exaint.Protocol.{Tier, Channel, Interval}
use exaint.Web.Socket.{
  LatencyTracker, new_latency, record_rtt, take_report, SentFrame, SocketDesiredState, no_wishes,
  wish_subscribe, wish_unsubscribe, wish_interval, wish_tier, reapply, SocketMeasurement, send_ping,
  network_report, backoff_delay_ms, error_after_attempts, stable_connection_ms, backoff_max_ms,
}

pub data ConnectionState : Type 0 where
  connecting syncing live stale reconnecting error_state : ConnectionState

pub data ResyncReason : Type 0 where
  reconnect backpressure visibility : ResyncReason

-- Effects: `emit`, and calls of the network, the timers and the ticket service.
pub data Effect (M : Type 0) : Type 0 where
  state_changed : ConnectionState → ConnectionState → Effect M
  sends : SentFrame M → Effect M
  fetches_ticket : ℕ → Effect M
  opens_socket : ℕ → Bool → Effect M
  closes_socket : ℕ → Effect M
  sets_timer : ℕ → Effect M
  hello : Effect M
  resync : ResyncReason → Effect M
  closed : ℕ → Effect M
  latency : M → M → Effect M
  visibility_changed : Bool → ℕ → Effect M
  other_frame : Effect M

-- The server's frames as the client tells them apart; the payload of other frames is passed on.
pub data Inbound : Type 0 where
  invalid hello_frame another : Inbound
  pong : ℕ → Inbound

pub record SocketVisibility : Type 0 where
  pub has_source : Bool
  pub listening : Bool
  pub hidden_at : Option ℕ

pub record MarketSocketClient (M : Type 0) : Type 0 where
  pub state : ConnectionState
  pub socket : Option ℕ
  pub socket_is_open : Bool
  pub started : Bool
  pub has_seen_hello : Bool
  pub attempt : ℕ
  pub connected_at : Option ℕ
  pub last_live_at : Option ℕ
  pub reconnect_timer : Option ℕ
  pub ticket : Option ℕ
  pub next_id : ℕ
  pub desired : SocketDesiredState
  pub measurement : SocketMeasurement M
  pub visible : SocketVisibility

abbrev pub same_state : ConnectionState → ConnectionState → Bool
same_state connecting connecting = true
same_state syncing syncing = true
same_state live live = true
same_state stale stale = true
same_state reconnecting reconnecting = true
same_state error_state error_state = true
same_state _ _ = false

abbrev pub Handler : Type 0 → Type 0
Handler M = MarketSocketClient M → List (Effect M) × MarketSocketClient M

module _ {M : Type 0} where
  -- One handler after the other.
  infixl 5 ◌then_do◌
  abbrev pub ◌then_do◌ : Handler M → Handler M → Handler M
  ◌then_do◌ f g c = let (effects, c') = f c in let (more, c'') = g c' in (effects ++ more, c'')

  abbrev pub quiet : (MarketSocketClient M → MarketSocketClient M) → Handler M
  quiet f c = ([], f c)

  abbrev pub emit : Effect M → Handler M
  emit e c = (e ∷ [], c)

  abbrev pub when : Bool → Handler M → Handler M
  when true f = f
  when false f = quiet (λ c. c)

  unfoldable pub set_state : ConnectionState → Handler M
  set_state next c =
      if same_state next c.state
      then ([], c)
      else (state_changed next c.state ∷ [], record c { state = next })

  -- `#send`: frames go to a socket that is open, and nowhere else.
  abbrev pub can_send : MarketSocketClient M → Bool
  can_send c = elim c.socket [ none ↦ false | some id ↦ c.socket_is_open ]

  abbrev pub send_all : List (SentFrame M) → Handler M
  send_all frames c = (if can_send c then map sends frames else [], c)

  -- `#attemptConnect`, up to the wait for the ticket: an earlier fetch is aborted.
  unfoldable pub attempt_connect : Handler M
  attempt_connect c = if not c.started then ([], c) else (
    fetches_ticket c.next_id ∷ [],
    record c { ticket = some c.next_id; next_id = c.next_id + 1 },
  )

  abbrev pub clear_reconnect_timer : Handler M
  clear_reconnect_timer = quiet (λ c. record c { reconnect_timer = none })

  abbrev pub arm : ℕ → Handler M
  arm delay c = (
    sets_timer (min delay (backoff_max_ms + backoff_max_ms)) ∷ [],
    record c {
      attempt = c.attempt + 1;
      reconnect_timer = some (min delay (backoff_max_ms + backoff_max_ms));
    },
  )

  abbrev pub has_timer : MarketSocketClient M → Bool
  has_timer c = elim c.reconnect_timer [ none ↦ false | some delay ↦ true ]

  unfoldable pub schedule_reconnect : ℕ → Handler M
  schedule_reconnect random c =
      if not c.started
      then ([], c)
      else if has_timer c
      then ([], c)
      else arm (backoff_delay_ms c.attempt random) c

  abbrev pub stop_measurement : Handler M
  stop_measurement = quiet (λ c. record c {
    measurement = record c.measurement { timers_run = false; pending_pings = [] };
  })

  unfoldable pub send_ping_now : ℕ → Handler M
  send_ping_now now c =
      let (frames, m) = send_ping (can_send c) now c.measurement in
      (map sends frames, record c { measurement = m })

  unfoldable pub start_visibility : Bool → ℕ → Handler M
  start_visibility hidden now c =
      let v = c.visible in
      if not v.has_source then ([], c) else if v.listening then ([], c) else (
        [],
        record c {
          visible = record v {
            listening = true;
            hidden_at = if hidden then some now else v.hidden_at;
          };
        },
      )

  unfoldable pub stop_visibility : Handler M
  stop_visibility c =
      if c.visible.has_source && c.visible.listening
      then ([], record c { visible = record c.visible { listening = false; hidden_at = none } })
      else ([], c)

  -- `hidden` is what the document says at the time.
  unfoldable pub connect : Bool → ℕ → Handler M
  connect hidden now c =
      if c.started
      then ([], c)
      else (quiet (λ c. record c { started = true; attempt = 0; has_seen_hello = false })
            then_do start_visibility hidden now
            then_do set_state connecting
            then_do attempt_connect)
          c

  -- The socket's handlers are taken off, so nothing of it is heard again.
  abbrev pub drop_socket : Handler M
  drop_socket c = elim c.socket [
    | none ↦ ([], c)
    | some id ↦ (closes_socket id ∷ [], record c { socket = none; socket_is_open = false })
  ]

  -- Timers, measurement and ticket are given up.
  abbrev pub halt : Handler M
  halt =
      quiet (λ c. record c { started = false })
      then_do clear_reconnect_timer
      then_do stop_measurement
      then_do quiet (λ c. record c { ticket = none })

  unfoldable pub disconnect : Handler M
  disconnect = halt then_do stop_visibility then_do drop_socket then_do set_state stale

  -- `socket.close`: the socket stays the client's until its close is heard.
  abbrev pub close_current : Handler M
  close_current c = elim c.socket [
    | none ↦ ([], c)
    | some id ↦ (closes_socket id ∷ [], record c { socket_is_open = false })
  ]

  unfoldable pub handle_offline : ℕ → Handler M
  handle_offline random c =
      if not c.started
      then ([], c)
      else (set_state stale then_do close_current then_do schedule_reconnect random) c

  unfoldable pub handle_online : Handler M
  handle_online c =
      if not c.started
      then ([], c)
      else (clear_reconnect_timer then_do set_state reconnecting then_do attempt_connect) c

  -- The fetch with this number is the one waited for: no other was started, nothing was aborted.
  abbrev pub is_awaited : ℕ → MarketSocketClient M → Bool
  is_awaited id c = elim c.ticket [ none ↦ false | some awaited ↦ awaited == id ]

  unfoldable pub ticket_failed : ℕ → ℕ → Handler M
  ticket_failed id random c =
      if not (is_awaited id c)
      then ([], c)
      else schedule_reconnect random (record c { ticket = none })

  unfoldable pub ticket_arrived : ℕ → Handler M
  ticket_arrived id c =
      if not (is_awaited id c)
      then ([], c)
      else if not c.started
      then ([], record c { ticket = none })
      else (
        opens_socket c.next_id c.has_seen_hello ∷ [],
        record c {
          ticket = none;
          socket = some c.next_id;
          socket_is_open = false;
          next_id = c.next_id + 1;
        },
      )

  abbrev pub is_current : ℕ → MarketSocketClient M → Bool
  is_current id c = elim c.socket [ none ↦ false | some current ↦ current == id ]

  unfoldable pub mark_synchronized : Handler M
  mark_synchronized c = if same_state c.state syncing then set_state live c else ([], c)

  unfoldable pub mark_syncing : Handler M
  mark_syncing c = if same_state c.state live then set_state syncing c else ([], c)

  -- After a close that was not asked for: the count starts again where the connection was stable.
  abbrev pub reopen_after : ℕ → ℕ → Handler M
  reopen_after now random c =
      if not c.started
      then ([], c)
      else let uptime : ℕ = elim c.connected_at [ none ↦ 0 | some at ↦ now - at ] in
        let attempt = if leb stable_connection_ms uptime then 0 else c.attempt in
        (quiet (λ c. record c { attempt = attempt; connected_at = none })
            then_do set_state (if leb error_after_attempts attempt then error_state else stale)
            then_do schedule_reconnect random)
          c

  abbrev pub hear_close : ℕ → Handler M
  hear_close code =
      stop_measurement
      then_do quiet (λ c. record c { socket = none; socket_is_open = false })
      then_do emit (closed code)
      then_do when (code == 4409) (emit (resync backpressure))

  unfoldable pub on_close : ℕ → ℕ → ℕ → ℕ → Handler M
  on_close id code now random c =
      if not (is_current id c) then ([], c) else (hear_close code then_do reopen_after now random) c

  unfoldable pub reconnect_fires : Handler M
  reconnect_fires c =
      let c' = record c { reconnect_timer = none } in
      if not c.started
      then ([], c')
      else (set_state (if leb error_after_attempts c.attempt then error_state else reconnecting)
            then_do attempt_connect)
          c'

  -- A wish changes the desired state and is sent at once where the socket is open.
  abbrev pub wish : (SocketDesiredState → List (SentFrame M) × SocketDesiredState) → Handler M
  wish f c = let (frames, d) = f c.desired in send_all frames (record c { desired = d })

  -- `#handleChange`, and what the client does on it.
  unfoldable pub visibility_change : Bool → ℕ → Handler M
  visibility_change true now c = (
    visibility_changed true 0 ∷ [],
    record c { visible = record c.visible { hidden_at = some (or_else c.visible.hidden_at now) } },
  )
  visibility_change false now c =
      let hidden_ms : ℕ = elim c.visible.hidden_at [ none ↦ 0 | some at ↦ now - at ] in
      (quiet (λ c. record c { visible = record c.visible { hidden_at = none } })
          then_do emit (visibility_changed false hidden_ms)
          then_do send_ping_now now
          then_do when (ltb 30000 hidden_ms) (emit (resync visibility)))
        c
