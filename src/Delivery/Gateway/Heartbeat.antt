-- ===== src/Delivery/Gateway/Heartbeat.antt =====
-- gateway.ts: when the heartbeat closes a connection.
use exaint.Base.{
  ℕ, ◌-◌, ◌≡◌, refl, sym, ◌∙◌, ap, ap₂, subst, String, Bool, true, false, ◌||◌, Option, none, some,
  List, [], ◌∷◌, ◌++◌, ltb, ◌==◌, arith, Bool-cases, Option-cases, inl, inr,
}
use exaint.Base.Keys.{string_eq}
use exaint.Base.Map
use exaint.Protocol.{Interval}
use exaint.Delivery.Session.{ConnectionSession, SymbolSubscription, subscribe, unsubscribe}
use exaint.Delivery.Tier.{
  TierController, TierUpdate, apply_report, apply_silence, set_override, judge, count_report,
  demote, promote, demoted, is_bad, is_good,
}
use exaint.Delivery.RateLimiter.{RateLimitVerdict, allow, limit, close_socket}
use exaint.Delivery.Frames.{
  ClientFrame, ping, network_report, tier_override, subscribe_to, unsubscribe_from, change_interval,
  Reply, pong, subscribed, refused, closes, reports, overrides, subscriptions_changed,
  handle_client_frame, apply_frame, change_of,
}
use exaint.Delivery.Gateway.{
  Outgoing, GatewayEffect, sends, closes_with, refreshes_gauges, GatewaySignal, message, beats,
  closed, Connection, session_of, send, close, announce, obey, obey_all, judge_frame, on_message,
  on_heartbeat, on_close, handle, handle_all, heartbeat_timeout_code,
}

module _ {M : Type 0} where
  unfoldable pub times_out : List (GatewayEffect M) → Bool
  times_out [] = false
  times_out (closes_with code ∷ es) = (code == heartbeat_timeout_code) || times_out es
  times_out (sends frame ∷ es) = times_out es
  times_out (refreshes_gauges ∷ es) = times_out es

  times_out-append :
      (es fs : List (GatewayEffect M)) → times_out (es ++ fs) ≡ (times_out es || times_out fs)
  unfolding times_out
  times_out-append [] fs = refl
  times_out-append (closes_with code ∷ es) fs = ground (arith, times_out-append es fs)
  times_out-append (sends frame ∷ es) fs = times_out-append es fs
  times_out-append (refreshes_gauges ∷ es) fs = times_out-append es fs

  -- The timer of the heartbeat finds more silence than it allows, before the connection's end.
  unfoldable pub falls_silent : ℕ → ℕ → List (GatewaySignal M) → Bool
  falls_silent timeout_ms last [] = false
  falls_silent timeout_ms last (message frame now ∷ ss) = falls_silent timeout_ms now ss
  falls_silent timeout_ms last (beats now ∷ ss) =
      ltb timeout_ms (now - last) || falls_silent timeout_ms last ss
  falls_silent timeout_ms last (closed ∷ ss) = false

  -- A step that is not the heartbeat's verdict.
  record Calm (c : Connection M) (r : List (GatewayEffect M) × Connection M) : Type 0 where
    no_timeout : times_out r.0 ≡ false
    last : (session_of r.1).last_inbound_at ≡ (session_of c).last_inbound_at
    runs : r.1.heartbeat_runs ≡ c.heartbeat_runs

  announce-Calm :
      (u : TierUpdate) (tiers : TierController M) (c : Connection M)
      → tiers.session.last_inbound_at ≡ (session_of c).last_inbound_at
      → Calm c (announce (u, tiers) c)
  unfolding announce times_out
  announce-Calm u tiers c h = ground arith

  send-Calm : (frame : Outgoing M) (c : Connection M) → Calm c (send frame c)
  unfolding times_out
  send-Calm frame c = ground arith

  demote-last :
      (above below : M → ℕ → Bool) (s : ConnectionSession M)
      → (demote above below s).last_inbound_at ≡ s.last_inbound_at
  demote-last above below s = elim (Option-cases (demoted s.auto_tier)) [
    | inl lowest ↦ ground arith
    | inr (next, lower) ↦ ground arith
  ]

  promote-last :
      (above below : M → ℕ → Bool) (s : ConnectionSession M)
      → (promote above below s).last_inbound_at ≡ s.last_inbound_at
  promote-last above below s = ground arith

  judge-last :
      (above below : M → ℕ → Bool) (bad good : Bool) (s : ConnectionSession M)
      → (judge above below bad good (count_report above below bad good s)).last_inbound_at
        ≡ s.last_inbound_at
  judge-last above below bad good s =
      let counted = count_report above below bad good s in
      ground (arith, demote-last above below counted, promote-last above below counted)

  report-last :
      (above below : M → ℕ → Bool) (rtt jitter : M) (now : ℕ) (c : TierController M)
      → (apply_report above below rtt jitter now c).1.session.last_inbound_at
        ≡ c.session.last_inbound_at
  unfolding apply_report
  report-last above below rtt jitter now c =
      judge-last above below (is_bad above below c.session.auto_tier rtt jitter)
        (is_good above below c.session.auto_tier rtt jitter)
        (record c.session { rtt_ms = rtt; jitter_ms = jitter; last_network_report_at = some now })

  silence-last :
      (now : ℕ) (c : TierController M)
      → (apply_silence now c).1.session.last_inbound_at ≡ c.session.last_inbound_at
  unfolding apply_silence
  silence-last now c = ground arith

  change-last :
      (symbol : String) (interval : Interval) (o : Option SymbolSubscription)
      (s : ConnectionSession M)
      → (change_of symbol interval o s).1.last_inbound_at ≡ s.last_inbound_at
  change-last symbol interval none s = refl
  change-last symbol interval (some existing) s = ground arith

  apply_frame-last :
      (known : String → Bool) (enable_debug_controls : Bool) (f : ClientFrame M)
      (s : ConnectionSession M)
      → (apply_frame known enable_debug_controls f s).1.last_inbound_at ≡ s.last_inbound_at
  unfolding apply_frame unsubscribe subscribe
  apply_frame-last known enable_debug_controls (ping id) s = refl
  apply_frame-last known enable_debug_controls (network_report rtt jitter) s = refl
  apply_frame-last known enable_debug_controls (tier_override tier) s = ground arith
  apply_frame-last known enable_debug_controls (subscribe_to symbol channels interval) s =
      grind arith
  apply_frame-last known enable_debug_controls (unsubscribe_from symbol) s = ground arith
  apply_frame-last known enable_debug_controls (change_interval symbol interval) s =
      change-last symbol interval (Map.get symbol s.subscriptions) s

  handle-last :
      (known : String → Bool) (enable_debug_controls : Bool) (frame : Option (ClientFrame M))
      (verdict : RateLimitVerdict) (now : ℕ) (s : ConnectionSession M)
      → (handle_client_frame known enable_debug_controls frame verdict now s).1.last_inbound_at
        ≡ now
  unfolding handle_client_frame
  handle-last known enable_debug_controls none verdict now s = refl
  handle-last known enable_debug_controls (some f) limit now s = refl
  handle-last known enable_debug_controls (some f) close_socket now s = refl
  handle-last known enable_debug_controls (some f) allow now s =
      apply_frame-last known enable_debug_controls f (record s { last_inbound_at = now })

  module _ (above below : M → ℕ → Bool) (known : String → Bool) (enable_debug_controls : Bool)
      (timeout_ms : ℕ) where
    obey-Calm :
        (now : ℕ) (reply : Reply M) (c : Connection M)
        → Calm c (obey above below known enable_debug_controls timeout_ms now reply c)
    unfolding obey times_out
    obey-Calm now (pong id) c = send-Calm _ c
    obey-Calm now (subscribed symbol channels interval) c = send-Calm _ c
    obey-Calm now (refused reason) c = send-Calm _ c
    obey-Calm now closes c = record { no_timeout = refl; last = refl; runs = refl }
    obey-Calm now (reports rtt jitter) c =
        let r = apply_report above below rtt jitter now c.tiers in
        announce-Calm r.0 r.1 c (report-last above below rtt jitter now c.tiers)
    obey-Calm now (overrides tier) c =
        let r = set_override tier c.tiers in announce-Calm r.0 r.1 c (unfold set_override in refl)
    obey-Calm now subscriptions_changed c = record { no_timeout = refl; last = refl; runs = refl }

    obey_all-Calm :
        (now : ℕ) (replies : List (Reply M)) (c : Connection M)
        → Calm c (obey_all above below known enable_debug_controls timeout_ms now replies c)
    unfolding obey_all times_out
    obey_all-Calm now [] c = record { no_timeout = refl; last = refl; runs = refl }
    obey_all-Calm now (reply ∷ rest) c =
        let first = obey above below known enable_debug_controls timeout_ms now reply c in
        let a = obey-Calm now reply c in
        let b = obey_all-Calm now rest first.1 in
        record {
          no_timeout = times_out-append first.0 _ ∙ ap₂ ◌||◌ a.no_timeout b.no_timeout;
          last = b.last ∙ a.last;
          runs = b.runs ∙ a.runs;
        }

    message_lem :
        (frame : Option (ClientFrame M)) (now : ℕ) (c : Connection M)
        → let r = on_message above below known enable_debug_controls timeout_ms frame now c in
          (times_out r.0 ≡ false)
          × ((session_of r.1).last_inbound_at ≡ now)
          × (r.1.heartbeat_runs ≡ c.heartbeat_runs)
    unfolding on_message
    message_lem frame now c =
        let judged =
          judge_frame above below known enable_debug_controls timeout_ms frame now c.limiter in
        let r = handle_client_frame known enable_debug_controls frame judged.0 now (session_of c) in
        let calm =
          obey_all-Calm now r.0
            (record c { tiers = record c.tiers { session = r.1 }; limiter = judged.1 }) in
        (
          calm.no_timeout,
          calm.last ∙ handle-last known enable_debug_controls frame judged.0 now (session_of c),
          calm.runs,
        )

    abbrev run : List (GatewaySignal M) → Connection M → List (GatewayEffect M) × Connection M
    run = handle_all above below known enable_debug_controls timeout_ms

    stopped_lem :
        (ss : List (GatewaySignal M)) (c : Connection M)
        → c.heartbeat_runs ≡ false
        → times_out (run ss c).0 ≡ false
    unfolding handle_all handle times_out
    stopped_lem [] c h = refl
    stopped_lem (message frame now ∷ ss) c h =
        let first = on_message above below known enable_debug_controls timeout_ms frame now c in
        let (calm, _, runs) = message_lem frame now c in
        times_out-append first.0 _ ∙ ap₂ ◌||◌ calm (stopped_lem ss first.1 (runs ∙ h))
    stopped_lem (beats now ∷ ss) c h =
        let e : on_heartbeat above below known enable_debug_controls timeout_ms now c ≡ ([], c) =
          unfold on_heartbeat in ground arith in
        rw e (stopped_lem ss c h)
    stopped_lem (closed ∷ ss) c h =
        stopped_lem ss (on_close above below known enable_debug_controls timeout_ms c).1 refl

    -- A beat that hears the client.
    heard_lem :
        (now : ℕ) (c : Connection M)
        → c.heartbeat_runs ≡ true
        → ltb timeout_ms (now - (session_of c).last_inbound_at) ≡ false
        → Calm c (on_heartbeat above below known enable_debug_controls timeout_ms now c)
    unfolding on_heartbeat
    heard_lem now c runs heard =
        let r = apply_silence now c.tiers in
        let e : on_heartbeat above below known enable_debug_controls timeout_ms now c
            ≡ announce r c =
          ground arith in
        subst (Calm c) (sym e) (announce-Calm r.0 r.1 c (silence-last now c.tiers))

    silent_lem :
        (now : ℕ) (c : Connection M)
        → c.heartbeat_runs ≡ true
        → ltb timeout_ms (now - (session_of c).last_inbound_at) ≡ true
        → on_heartbeat above below known enable_debug_controls timeout_ms now c
          ≡ close heartbeat_timeout_code c
    unfolding on_heartbeat
    silent_lem now c runs silent = ground arith

    -- Over anything that happens to a connection whose timer runs: it is closed for silence exactly if
    -- some firing of the timer, before the connection's end, comes more than the timeout after the
    -- last frame before it, of whatever kind, or after the time that the connection starts with.
    pub heartbeat_lem :
        (ss : List (GatewaySignal M)) (c : Connection M)
        → c.heartbeat_runs ≡ true
        → times_out (handle_all above below known enable_debug_controls timeout_ms ss c).0
          ≡ falls_silent timeout_ms (session_of c).last_inbound_at ss
    unfolding handle_all handle times_out falls_silent
    heartbeat_lem [] c h = refl
    heartbeat_lem (message frame now ∷ ss) c h =
        let first = on_message above below known enable_debug_controls timeout_ms frame now c in
        let (calm, last, runs) = message_lem frame now c in
        times_out-append first.0 _
        ∙ ap₂ ◌||◌ calm (heartbeat_lem ss first.1 (runs ∙ h))
        ∙ ap (λ (l : ℕ). falls_silent timeout_ms l ss) last
    heartbeat_lem (beats now ∷ ss) c h =
        let first = on_heartbeat above below known enable_debug_controls timeout_ms now c in
        elim (Bool-cases (ltb timeout_ms (now - (session_of c).last_inbound_at))) [
          | inl silent ↦ rw (silent_lem now c h silent, silent) refl
          | inr heard ↦
              let calm = heard_lem now c h heard in
              times_out-append first.0 _
              ∙ ap₂ ◌||◌ calm.no_timeout (heartbeat_lem ss first.1 (calm.runs ∙ h))
              ∙ ap (λ (l : ℕ). falls_silent timeout_ms l ss) calm.last
              ∙ ap (λ (b : Bool). b || falls_silent timeout_ms (session_of c).last_inbound_at ss)
                  (sym heard)
        ]
    heartbeat_lem (closed ∷ ss) c h =
        stopped_lem ss (on_close above below known enable_debug_controls timeout_ms c).1 refl
