-- ===== src/Web/Socket/Client/Live.antt =====
-- market-socket-client.ts: a client that was started never stops trying. Handlers has the operations.
use exaint.Base.{ℕ, ◌≡◌, Bool, true, some, List, [], ◌∷◌, Bool-cases, Option-cases, inl, inr}
use exaint.Base.Map
use exaint.Base.Keys.{nat_eq}
use exaint.Web.Socket.{take_report}
use exaint.Web.Socket.Client.{
  MarketSocketClient, emit, set_state, send_ping_now, is_current, syncing, resync, reconnect,
  Inbound, invalid, hello_frame, another, pong,
}
use exaint.Web.Socket.Client.Signals.{
  new_client, Signal, on_open, receive_pong, send_network_report, on_hello, on_frame, on_message,
  handle, handle_all, connects, disconnects, goes_online, goes_offline, synchronized, falls_behind,
  timer_fires, ticket_comes, ticket_fails, opens, message_comes, closes, ping_due, report_due,
  visibility_changes, wants, unwants, wants_interval, wants_tier,
}
use exaint.Web.Socket.Client.Handlers.{
  reaching, Trying, set_state-Trying, when-Trying, connect-Trying, disconnect-Trying,
  handle_online-Trying, handle_offline-Trying, ticket_failed-Trying, ticket_arrived-Trying,
  on_close-Trying, reconnect_fires-Trying, mark_synchronized-Trying, mark_syncing-Trying,
  visibility_change-Trying,
}

module _ {M : Type 0} (nought : M) (of_ms : ℕ → M) (ewma : ℕ → M → M) (rounded : M → M) where
  on_open-Trying :
      (id now : ℕ) (c : MarketSocketClient M)
      → Trying c
      → Trying (on_open nought of_ms ewma rounded id now c).1
  unfolding on_open send_ping_now
  on_open-Trying id now c h = elim (Bool-cases (is_current id c)) [
    | inl current ↦ rw current h
    | inr other ↦ rw other h
  ]

  on_frame-Trying :
      (frame : Inbound) (now : ℕ) (c : MarketSocketClient M)
      → Trying c
      → Trying (on_frame nought of_ms ewma rounded frame now c).1
  unfolding on_hello receive_pong
  on_frame-Trying invalid now c h = h
  on_frame-Trying another now c h = h
  on_frame-Trying (pong id) now c h = elim (Option-cases (Map.get id c.measurement.pending_pings)) [
    | inl unknown ↦ rw (unknown, receive_pong) h
    | inr known ↦ rw (known.1, receive_pong) h
  ]
  on_frame-Trying hello_frame now c h =
      let c₁ : MarketSocketClient M = record c { last_live_at = some now; attempt = 0 } in
      let c₂ = (set_state syncing c₁).1 in
      when-Trying c.has_seen_hello (emit (resync reconnect)) (λ c h. h) c₂
        (set_state-Trying syncing c₁ h)

  -- Any signal leaves a client that was started with something to wait for.
  handle-Trying :
      (s : Signal) (c : MarketSocketClient M)
      → Trying c
      → Trying (handle nought of_ms ewma rounded s c).1
  unfolding handle on_message send_network_report send_ping_now
  handle-Trying (connects hidden now) c h = connect-Trying hidden now c h
  handle-Trying disconnects c h = disconnect-Trying c h
  handle-Trying goes_online c h = handle_online-Trying c h
  handle-Trying (goes_offline random) c h = handle_offline-Trying random c h
  handle-Trying synchronized c h = mark_synchronized-Trying c h
  handle-Trying falls_behind c h = mark_syncing-Trying c h
  handle-Trying timer_fires c h = reconnect_fires-Trying c h
  handle-Trying (ticket_comes id) c h = ticket_arrived-Trying id c h
  handle-Trying (ticket_fails id random) c h = ticket_failed-Trying id random c h
  handle-Trying (opens id now) c h = on_open-Trying id now c h
  handle-Trying (message_comes id frame now) c h = elim (Bool-cases (is_current id c)) [
    | inl current ↦ rw current (on_frame-Trying frame now c h)
    | inr other ↦ rw other h
  ]
  handle-Trying (closes id code now random) c h = on_close-Trying id code now random c h
  handle-Trying (ping_due now) c h = h
  handle-Trying report_due c h =
      elim (Option-cases (take_report nought of_ms ewma rounded c.measurement.latency).0) [
        | inl quiet_link ↦ rw (quiet_link, send_network_report) h
        | inr measured ↦ rw (measured.1, send_network_report) h
      ]
  handle-Trying (visibility_changes hidden now) c h = visibility_change-Trying hidden now c h
  handle-Trying (wants symbol channels interval) c h = h
  handle-Trying (unwants symbol) c h = h
  handle-Trying (wants_interval symbol interval) c h = h
  handle-Trying (wants_tier tier) c h = h

  all-Trying :
      (ss : List Signal) (c : MarketSocketClient M)
      → Trying c
      → Trying (handle_all nought of_ms ewma rounded ss c).1
  unfolding handle_all
  all-Trying [] c h = h
  all-Trying (s ∷ ss) c h =
      all-Trying ss (handle nought of_ms ewma rounded s c).1 (handle-Trying s c h)

  -- A new client after the signals.
  abbrev pub client_after : List Signal → Bool → MarketSocketClient M
  client_after ss has_source =
      (handle_all nought of_ms ewma rounded ss (new_client nought of_ms ewma rounded has_source)).1

  -- Whatever happens to a new client, in any order: while it is started it has a socket, a ticket on
  -- its way, or a timer that will ask for one.
  pub client-Trying :
      (ss : List Signal) (has_source : Bool)
      → (client_after ss has_source).started ≡ true
      → reaching (client_after ss has_source) ≡ true
  client-Trying ss has_source =
      all-Trying ss (new_client nought of_ms ewma rounded has_source) (λ on. absurd (cc))
