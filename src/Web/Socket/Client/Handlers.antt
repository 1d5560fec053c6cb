-- ===== src/Web/Socket/Client/Handlers.antt =====
-- market-socket-client.ts: the operations of a client that was started, one by one.
use exaint.Base.{
  ℕ, ◌≡◌, refl, Bool, true, false, ◌||◌, Option, none, some, List, arith, Bool-cases, Option-cases,
  inl, inr,
}
use exaint.Base.Keys.{nat_eq}
use exaint.Web.Socket.{SentFrame}
use exaint.Web.Socket.Client.{
  ConnectionState, same_state, MarketSocketClient, Handler, emit, when, set_state, send_all,
  attempt_connect, schedule_reconnect, send_ping_now, stop_visibility, connect, drop_socket, halt,
  hear_close, disconnect, handle_online, handle_offline, is_awaited, is_current, mark_synchronized,
  mark_syncing, ticket_arrived, ticket_failed, reconnect_fires, reopen_after, on_close,
  visibility_change, live, syncing, stale, resync, visibility,
}

abbrev pub is_some {ℓ} : {A : Type ℓ} → Option A → Bool
is_some none = false
is_some (some a) = true

module _ {M : Type 0} where
  -- A socket, a ticket on its way, or a timer that will ask for one.
  abbrev pub reaching : MarketSocketClient M → Bool
  reaching c = is_some c.socket || is_some c.ticket || is_some c.reconnect_timer

  abbrev pub Trying : MarketSocketClient M → Type 0
  Trying c = c.started ≡ true → reaching c ≡ true

  abbrev Keeps : (MarketSocketClient M → Type 0) → Handler M → Type 0
  Keeps P f = (c : MarketSocketClient M) → P c → P (f c).1

  abbrev Stopped : MarketSocketClient M → Type 0
  Stopped c = c.started ≡ false

  pub set_state-Trying : (next : ConnectionState) → Keeps Trying (set_state next)
  unfolding set_state
  set_state-Trying next c h = elim (Bool-cases (same_state next c.state)) [
    | inl same ↦ rw same h
    | inr new ↦ rw new h
  ]

  set_state-Stopped : (next : ConnectionState) → Keeps Stopped (set_state next)
  unfolding set_state
  set_state-Stopped next c h = elim (Bool-cases (same_state next c.state)) [
    | inl same ↦ rw same h
    | inr new ↦ rw new h
  ]

  stop_visibility-Stopped : Keeps Stopped stop_visibility
  unfolding stop_visibility
  stop_visibility-Stopped c h = ground arith

  drop_socket-Stopped : Keeps Stopped drop_socket
  drop_socket-Stopped c h = elim (Option-cases c.socket) [
    | inl gone ↦ rw gone h
    | inr there ↦ rw there.1 h
  ]

  pub when-Trying : (b : Bool) (f : Handler M) → Keeps Trying f → Keeps Trying (when b f)
  when-Trying true f k c h = k c h
  when-Trying false f k c h = h

  send_all-Trying : (frames : List (SentFrame M)) → Keeps Trying (send_all frames)
  send_all-Trying frames c h = h

  -- After these the client tries, whatever it did before.
  attempt_connect-Trying : (c : MarketSocketClient M) → Trying (attempt_connect c).1
  unfolding attempt_connect
  attempt_connect-Trying c = elim (Bool-cases c.started) [
    | inl on ↦ rw on (λ h. ground arith)
    | inr off ↦ rw off (λ h. absurd (cc))
  ]

  schedule_reconnect-Trying :
      (random : ℕ) (c : MarketSocketClient M) → Trying (schedule_reconnect random c).1
  unfolding schedule_reconnect
  schedule_reconnect-Trying random c = elim (Bool-cases c.started) [
    | inr off ↦ rw off (λ h. absurd (cc))
    | inl on ↦ rw on (elim (Option-cases c.reconnect_timer) [
      | inl unarmed ↦ rw unarmed (λ h. ground arith)
      | inr armed ↦ rw armed.1 (λ h. ground (arith, armed.1))
    ])
  ]

  Stopped-Trying : (c : MarketSocketClient M) → Stopped c → Trying c
  Stopped-Trying c h on = absurd (cc)

  pub connect-Trying : (hidden : Bool) (now : ℕ) → Keeps Trying (connect hidden now)
  unfolding connect
  connect-Trying hidden now c h = elim (Bool-cases c.started) [
    | inl on ↦ rw on (λ _. h on)
    | inr off ↦ rw off (attempt_connect-Trying _)
  ]

  pub disconnect-Trying : Keeps Trying disconnect
  unfolding disconnect
  disconnect-Trying c h =
      let c₁ = (halt c).1 in
      let c₂ = (stop_visibility c₁).1 in
      let c₃ = (drop_socket c₂).1 in
      Stopped-Trying (set_state stale c₃).1
        (set_state-Stopped stale c₃ (drop_socket-Stopped c₂ (stop_visibility-Stopped c₁ refl)))

  pub handle_online-Trying : Keeps Trying handle_online
  unfolding handle_online
  handle_online-Trying c h = elim (Bool-cases c.started) [
    | inl on ↦ rw on (attempt_connect-Trying _)
    | inr off ↦ rw off (λ on. absurd (cc))
  ]

  pub handle_offline-Trying : (random : ℕ) → Keeps Trying (handle_offline random)
  unfolding handle_offline
  handle_offline-Trying random c h = elim (Bool-cases c.started) [
    | inl on ↦ rw on (schedule_reconnect-Trying random _)
    | inr off ↦ rw off (λ on. absurd (cc))
  ]

  pub ticket_failed-Trying : (id random : ℕ) → Keeps Trying (ticket_failed id random)
  unfolding ticket_failed
  ticket_failed-Trying id random c h = elim (Bool-cases (is_awaited id c)) [
    | inl awaited ↦ rw awaited (schedule_reconnect-Trying random _)
    | inr other ↦ rw other h
  ]

  pub ticket_arrived-Trying : (id : ℕ) → Keeps Trying (ticket_arrived id)
  unfolding ticket_arrived
  ticket_arrived-Trying id c h = elim (Bool-cases (is_awaited id c)) [
    | inr other ↦ rw other h
    | inl awaited ↦ rw awaited (elim (Bool-cases c.started) [
      | inl on ↦ rw on (λ _. ground arith)
      | inr off ↦ rw off (λ on. absurd (cc))
    ])
  ]

  reopen_after-Trying :
      (now random : ℕ) (c : MarketSocketClient M) → Trying (reopen_after now random c).1
  reopen_after-Trying now random c = elim (Bool-cases c.started) [
    | inl on ↦ rw on (schedule_reconnect-Trying random _)
    | inr off ↦ rw off (λ on. absurd (cc))
  ]

  pub on_close-Trying : (id code now random : ℕ) → Keeps Trying (on_close id code now random)
  unfolding on_close
  on_close-Trying id code now random c h = elim (Bool-cases (is_current id c)) [
    | inl current ↦ rw current (reopen_after-Trying now random (hear_close code c).1)
    | inr other ↦ rw other h
  ]

  pub reconnect_fires-Trying : Keeps Trying reconnect_fires
  unfolding reconnect_fires
  reconnect_fires-Trying c h = elim (Bool-cases c.started) [
    | inl on ↦ rw on (attempt_connect-Trying _)
    | inr off ↦ rw off (λ on. absurd (cc))
  ]

  pub mark_synchronized-Trying : Keeps Trying mark_synchronized
  unfolding mark_synchronized
  mark_synchronized-Trying c h = elim (Bool-cases (same_state c.state syncing)) [
    | inl yes_it_is ↦ rw yes_it_is (set_state-Trying live c h)
    | inr other ↦ rw other h
  ]

  pub mark_syncing-Trying : Keeps Trying mark_syncing
  unfolding mark_syncing
  mark_syncing-Trying c h = elim (Bool-cases (same_state c.state live)) [
    | inl yes_it_is ↦ rw yes_it_is (set_state-Trying syncing c h)
    | inr other ↦ rw other h
  ]

  pub visibility_change-Trying :
      (hidden : Bool) (now : ℕ) → Keeps Trying (visibility_change hidden now)
  unfolding visibility_change send_ping_now
  visibility_change-Trying true now c h = h
  visibility_change-Trying false now c h = when-Trying _ (emit (resync visibility)) (λ c h. h) _ h
