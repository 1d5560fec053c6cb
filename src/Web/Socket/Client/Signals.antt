-- ===== src/Web/Socket/Client/Signals.antt =====
-- market-socket-client.ts: opening, frames, and the client as a machine that takes signals.
use exaint.Base.{
  false, none, [], ℕ, ◌-◌, String, Bool, true, not, Option, some, List, ◌∷◌, if◌then◌else◌,
}
use exaint.Base.Keys.{nat_eq}
use exaint.Base.Map
use exaint.Protocol.{Tier, Channel, Interval}
use exaint.Web.Socket.{
  no_wishes, new_latency, record_rtt, take_report, wish_subscribe, wish_unsubscribe, wish_interval,
  wish_tier, reapply, network_report,
}
use exaint.Web.Socket.Client.{
  stale, MarketSocketClient, syncing, hello, resync, reconnect, latency, other_frame, Inbound,
  invalid, hello_frame, another, pong, Handler, ◌then_do◌, quiet, emit, when, set_state, send_all,
  stop_measurement, send_ping_now, connect, disconnect, handle_online, handle_offline, is_current,
  mark_synchronized, mark_syncing, ticket_arrived, ticket_failed, reconnect_fires, on_close, wish,
  visibility_change,
}

-- The numbers of the client, as in `LatencyTracker`.
module _ {M : Type 0} (nought : M) (of_ms : ℕ → M) (ewma : ℕ → M → M) (rounded : M → M) where
  abbrev pub new_client : Bool → MarketSocketClient M
  new_client has_source = record {
    state = stale;
    socket = none;
    socket_is_open = false;
    started = false;
    has_seen_hello = false;
    attempt = 0;
    connected_at = none;
    last_live_at = none;
    reconnect_timer = none;
    ticket = none;
    next_id = 0;
    desired = no_wishes;
    measurement = record {
      latency = new_latency nought of_ms ewma rounded;
      pending_pings = [];
      ping_sequence = 0;
      timers_run = false;
    };
    visible = record { has_source = has_source; listening = false; hidden_at = none };
  }

  -- `measurement.start`.
  abbrev pub start_measurement : ℕ → Handler M
  start_measurement now =
      stop_measurement
      then_do quiet (λ c. record c {
        measurement = record c.measurement {
          latency = new_latency nought of_ms ewma rounded;
          timers_run = true;
        };
      })
      then_do send_ping_now now

  -- The socket has opened: from here on it takes frames.
  unfoldable pub on_open : ℕ → ℕ → Handler M
  on_open id now c =
      if not (is_current id c)
      then ([], c)
      else (quiet (λ c. record c { socket_is_open = true; connected_at = some now })
            then_do start_measurement now)
          c

  unfoldable pub receive_pong : ℕ → ℕ → Handler M
  receive_pong id now c = elim (Map.get id c.measurement.pending_pings) [
    | none ↦ ([], c)
    | some sent_at ↦
        let l = record_rtt nought of_ms ewma rounded (now - sent_at) c.measurement.latency in
        (
          latency l.rtt_ms l.jitter_ms ∷ [],
          record c {
            measurement = record c.measurement {
              latency = l;
              pending_pings = Map.delete id c.measurement.pending_pings;
            };
          },
        )
  ]

  unfoldable pub send_network_report : Handler M
  send_network_report c =
      let (report, l) = take_report nought of_ms ewma rounded c.measurement.latency in
      let c' = record c { measurement = record c.measurement { latency = l } } in
      elim report [ none ↦ ([], c') | some r ↦ send_all (network_report r ∷ []) c' ]

  unfoldable pub on_hello : Handler M
  on_hello c =
      (quiet (λ c. record c { attempt = 0 })
          then_do set_state syncing
          then_do (λ c. send_all (reapply c.desired) c)
          then_do emit hello
          then_do when c.has_seen_hello (emit (resync reconnect))
          then_do quiet (λ c. record c { has_seen_hello = true }))
        c

  abbrev pub on_frame : Inbound → ℕ → Handler M
  on_frame invalid now c = ([], c)
  on_frame hello_frame now c = on_hello (record c { last_live_at = some now })
  on_frame (pong id) now c = receive_pong id now (record c { last_live_at = some now })
  on_frame another now c = emit other_frame (record c { last_live_at = some now })

  unfoldable pub on_message : ℕ → Inbound → ℕ → Handler M
  on_message id frame now c = if is_current id c then on_frame frame now c else ([], c)

-- Everything that can happen to a client, each with the time, the draw or the answer it reads.
pub data Signal : Type 0 where
  connects visibility_changes : Bool → ℕ → Signal
  disconnects goes_online synchronized falls_behind timer_fires report_due : Signal
  goes_offline ticket_comes ping_due : ℕ → Signal
  ticket_fails opens : ℕ → ℕ → Signal
  message_comes : ℕ → Inbound → ℕ → Signal
  closes : ℕ → ℕ → ℕ → ℕ → Signal
  wants : String → List Channel → Option Interval → Signal
  unwants : String → Signal
  wants_interval : String → Interval → Signal
  wants_tier : Option Tier → Signal

module _ {M : Type 0} (nought : M) (of_ms : ℕ → M) (ewma : ℕ → M → M) (rounded : M → M) where
  unfoldable pub handle : Signal → Handler M
  handle (connects hidden now) = connect hidden now
  handle disconnects = disconnect
  handle goes_online = handle_online
  handle (goes_offline random) = handle_offline random
  handle synchronized = mark_synchronized
  handle falls_behind = mark_syncing
  handle timer_fires = reconnect_fires
  handle (ticket_comes id) = ticket_arrived id
  handle (ticket_fails id random) = ticket_failed id random
  handle (opens id now) = on_open nought of_ms ewma rounded id now
  handle (message_comes id frame now) = on_message nought of_ms ewma rounded id frame now
  handle (closes id code now random) = on_close id code now random
  handle (ping_due now) = send_ping_now now
  handle report_due = send_network_report nought of_ms ewma rounded
  handle (visibility_changes hidden now) = visibility_change hidden now
  handle (wants symbol channels interval) = wish (wish_subscribe symbol channels interval)
  handle (unwants symbol) = wish (wish_unsubscribe symbol)
  handle (wants_interval symbol interval) = wish (wish_interval symbol interval)
  handle (wants_tier tier) = wish (wish_tier tier)

  unfoldable pub handle_all : List Signal → Handler M
  handle_all [] c = ([], c)
  handle_all (s ∷ ss) c = (handle s then_do handle_all ss) c
