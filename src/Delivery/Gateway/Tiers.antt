-- ===== src/Delivery/Gateway/Tiers.antt =====
-- gateway.ts: the tier that the client is told is the tier of the session.
use exaint.Base.{
  ℕ, ◌-◌, ap₂, subst, ◌≡◌, refl, sym, ◌∙◌, ap, String, Bool, true, Option, none, some, List, [],
  ◌∷◌, ◌++◌, ltb, arith, Bool-cases, inl, inr,
}
use exaint.Base.Keys.{string_eq}
use exaint.Base.Map
use exaint.Protocol.{Tier, full, degraded, minimal, Interval, candles}
use exaint.Delivery.Session.{
  ConnectionSession, SymbolSubscription, effective_tier, subscribe, unsubscribe, has_channel,
}
use exaint.Delivery.Tier.{
  TierController, TierChangeReason, hysteresis, override, missing_reports, apply_report,
  apply_silence, set_override, same_tier, update_of,
}
use exaint.Delivery.RateLimiter.{RateLimitVerdict, allow, limit, close_socket}
use exaint.Delivery.Frames.{
  ClientFrame, ping, network_report, tier_override, subscribe_to, unsubscribe_from, change_interval,
  Reply, pong, subscribed, refused, closes, reports, overrides, subscriptions_changed,
  handle_client_frame, apply_frame, change_of,
}
use exaint.Delivery.Gateway.{
  hello, tier_changed, rejected, replied, GatewayEffect, sends, closes_with, refreshes_gauges,
  GatewaySignal, message, beats, closed, Connection, session_of, send, close, announce, obey,
  obey_all, judge_frame, on_message, on_heartbeat, heartbeat_timeout_code, handle, handle_all,
  new_connection, accept, hello_frame,
}

same_tier-eq : (a b : Tier) → same_tier a b ≡ true → a ≡ b
same_tier-eq full full h = refl
same_tier-eq degraded degraded h = refl
same_tier-eq minimal minimal h = refl
same_tier-eq full degraded h = cc
same_tier-eq full minimal h = cc
same_tier-eq degraded full h = cc
same_tier-eq degraded minimal h = cc
same_tier-eq minimal full h = cc
same_tier-eq minimal degraded h = cc

module _ {M : Type 0} where
  -- The tier that a client takes from what it is sent.
  abbrev pub hear : Option Tier → GatewayEffect M → Option Tier
  hear t (sends (hello id now tier)) = some tier
  hear t (sends (tier_changed auto wish effective reason cadence)) = some effective
  hear t (sends (rejected reason)) = t
  hear t (sends (replied reply)) = t
  hear t (closes_with code) = t
  hear t refreshes_gauges = t

  unfoldable pub hear_all : Option Tier → List (GatewayEffect M) → Option Tier
  hear_all t [] = t
  hear_all t (e ∷ es) = hear_all (hear t e) es

  hear_all-append :
      (t : Option Tier) (es fs : List (GatewayEffect M))
      → hear_all t (es ++ fs) ≡ hear_all (hear_all t es) fs
  unfolding hear_all
  hear_all-append t [] fs = refl
  hear_all-append t (e ∷ es) fs = hear_all-append (hear t e) es fs

  -- On an open socket the client has the session's tier.
  abbrev Knows : Option Tier → Connection M → Type 0
  Knows t c = c.socket_open ≡ true → t ≡ some (effective_tier (session_of c))

  abbrev Told : Option Tier → List (GatewayEffect M) × Connection M → Type 0
  Told t r = Knows (hear_all t r.0) r.1

  announce-Knows :
      (reason : TierChangeReason) (t : Option Tier) (c : Connection M) (tiers : TierController M)
      → Knows t c
      → let r = announce (update_of (effective_tier (session_of c)) reason tiers, tiers) c in
        Knows (hear_all t r.0) r.1
  unfolding announce update_of hear_all
  announce-Knows reason t c tiers h =
      elim (Bool-cases (same_tier (effective_tier tiers.session) (effective_tier (session_of c)))) [
        | inl same ↦ rw same (λ on. h on ∙ ap some (sym (same_tier-eq _ _ same)))
        | inr new ↦ rw new (λ on. rw on refl)
      ]

  -- The tier of a session is moved by nothing but the controller.
  abbrev SameTier : ConnectionSession M → ConnectionSession M → Type 0
  SameTier s s' = (s'.auto_tier ≡ s.auto_tier) × (s'.tier_override ≡ s.tier_override)

  same_effective :
      (s s' : ConnectionSession M) → SameTier s s' → effective_tier s ≡ effective_tier s'
  same_effective s s' h =
      ap₂ (λ (o : Option Tier) (a : Tier). elim o as (λ _. Tier) [ some t ↦ t | none ↦ a ])
        (sym h.1) (sym h.0)

  change-SameTier :
      (symbol : String) (interval : Interval) (o : Option SymbolSubscription)
      (s : ConnectionSession M)
      → SameTier s (change_of symbol interval o s).1
  change-SameTier symbol interval none s = (refl, refl)
  change-SameTier symbol interval (some existing) s =
      elim (Bool-cases (has_channel candles existing.channels)) [
        | inl there ↦ rw there (refl, refl)
        | inr absent ↦ rw absent (refl, refl)
      ]

  send-hear :
      (reply : Reply M) (t : Option Tier) (c : Connection M)
      → hear_all t (send (replied reply) c).0 ≡ t
  unfolding hear_all
  send-hear reply t c = elim (Bool-cases c.socket_open) [
    | inl on ↦ rw on refl
    | inr off ↦ rw off refl
  ]

  module _ (above below : M → ℕ → Bool) (known : String → Bool) (enable_debug_controls : Bool)
      (timeout_ms : ℕ) where
    apply_frame-SameTier :
        (f : ClientFrame M) (s : ConnectionSession M)
        → SameTier s (apply_frame known enable_debug_controls f s).1
    unfolding apply_frame unsubscribe subscribe
    apply_frame-SameTier (ping id) s = (refl, refl)
    apply_frame-SameTier (network_report rtt jitter) s = (refl, refl)
    apply_frame-SameTier (tier_override tier) s = elim (Bool-cases enable_debug_controls) [
      | inl on ↦ rw on (refl, refl)
      | inr off ↦ rw off (refl, refl)
    ]
    apply_frame-SameTier (subscribe_to symbol channels interval) s = grind arith
    apply_frame-SameTier (unsubscribe_from symbol) s =
        elim (Bool-cases (Map.has symbol s.subscriptions)) [
          | inl there ↦ rw there (refl, refl)
          | inr absent ↦ rw absent (refl, refl)
        ]
    apply_frame-SameTier (change_interval symbol interval) s =
        change-SameTier symbol interval (Map.get symbol s.subscriptions) s

    handle-SameTier :
        (frame : Option (ClientFrame M)) (verdict : RateLimitVerdict) (now : ℕ)
        (s : ConnectionSession M)
        → SameTier s (handle_client_frame known enable_debug_controls frame verdict now s).1
    unfolding handle_client_frame
    handle-SameTier none verdict now s = (refl, refl)
    handle-SameTier (some f) limit now s = (refl, refl)
    handle-SameTier (some f) close_socket now s = (refl, refl)
    handle-SameTier (some f) allow now s =
        apply_frame-SameTier f (record s { last_inbound_at = now })

    obey-Knows :
        (now : ℕ) (reply : Reply M) (t : Option Tier) (c : Connection M)
        → Knows t c
        → let r = obey above below known enable_debug_controls timeout_ms now reply c in
          Knows (hear_all t r.0) r.1
    unfolding obey hear_all apply_report set_override
    obey-Knows now (pong id) t c h = λ on. send-hear (pong id) t c ∙ h on
    obey-Knows now (subscribed symbol channels interval) t c h =
        λ on. send-hear (subscribed symbol channels interval) t c ∙ h on
    obey-Knows now (refused reason) t c h = λ on. send-hear (refused reason) t c ∙ h on
    obey-Knows now closes t c h = λ on. cc
    obey-Knows now (reports rtt jitter) t c h =
        announce-Knows hysteresis t c (apply_report above below rtt jitter now c.tiers).1 h
    obey-Knows now (overrides tier) t c h =
        announce-Knows override t c (set_override tier c.tiers).1 h
    obey-Knows now subscriptions_changed t c h = h

    obey_all-Knows :
        (now : ℕ) (replies : List (Reply M)) (t : Option Tier) (c : Connection M)
        → Knows t c
        → let r = obey_all above below known enable_debug_controls timeout_ms now replies c in
          Knows (hear_all t r.0) r.1
    unfolding obey_all hear_all
    obey_all-Knows now [] t c h = h
    obey_all-Knows now (reply ∷ rest) t c h =
        let first = obey above below known enable_debug_controls timeout_ms now reply c in
        rw (hear_all-append t first.0 _)
          (obey_all-Knows now rest (hear_all t first.0) first.1 (obey-Knows now reply t c h))

    on_message-Knows :
        (frame : Option (ClientFrame M)) (now : ℕ) (t : Option Tier) (c : Connection M)
        → Knows t c
        → let r = on_message above below known enable_debug_controls timeout_ms frame now c in
          Knows (hear_all t r.0) r.1
    unfolding on_message
    on_message-Knows frame now t c h =
        let judged =
          judge_frame above below known enable_debug_controls timeout_ms frame now c.limiter in
        let r = handle_client_frame known enable_debug_controls frame judged.0 now (session_of c) in
        obey_all-Knows now r.0 t
          (record c { tiers = record c.tiers { session = r.1 }; limiter = judged.1 })
          (λ on.
            h on
            ∙ ap some (
                same_effective (session_of c) r.1
                  (handle-SameTier frame judged.0 now (session_of c))))

    on_heartbeat-Knows :
        (now : ℕ) (t : Option Tier) (c : Connection M)
        → Knows t c
        → let r = on_heartbeat above below known enable_debug_controls timeout_ms now c in
          Knows (hear_all t r.0) r.1
    unfolding on_heartbeat hear_all apply_silence
    on_heartbeat-Knows now t c h =
        let beat = on_heartbeat above below known enable_debug_controls timeout_ms now c in
        elim (Bool-cases c.heartbeat_runs) [
          | inr stopped ↦ let e : beat ≡ ([], c) = ground arith in subst (Told t) (sym e) h
          | inl runs ↦ elim (Bool-cases (ltb timeout_ms (now - (session_of c).last_inbound_at))) [
            | inl silent ↦
                let e : beat ≡ close heartbeat_timeout_code c = ground arith in
                subst (Told t) (sym e) (λ on. cc)
            | inr heard ↦
                let e : beat ≡ announce (apply_silence now c.tiers) c = ground arith in
                subst (Told t) (sym e)
                  (announce-Knows missing_reports t c (apply_silence now c.tiers).1 h)
          ]
        ]

    handle-Knows :
        (s : GatewaySignal M) (t : Option Tier) (c : Connection M)
        → Knows t c
        → let r = handle above below known enable_debug_controls timeout_ms s c in
          Knows (hear_all t r.0) r.1
    unfolding handle hear_all
    handle-Knows (message frame now) t c h = on_message-Knows frame now t c h
    handle-Knows (beats now) t c h = on_heartbeat-Knows now t c h
    handle-Knows closed t c h = λ on. cc

    handle_all-Knows :
        (ss : List (GatewaySignal M)) (t : Option Tier) (c : Connection M)
        → Knows t c
        → let r = handle_all above below known enable_debug_controls timeout_ms ss c in
          Knows (hear_all t r.0) r.1
    unfolding handle_all hear_all
    handle_all-Knows [] t c h = h
    handle_all-Knows (s ∷ ss) t c h =
        let first = handle above below known enable_debug_controls timeout_ms s c in
        rw (hear_all-append t first.0 _)
          (handle_all-Knows ss (hear_all t first.0) first.1 (handle-Knows s t c h))

module _ {M : Type 0} (above below : M → ℕ → Bool) (known : String → Bool)
    (enable_debug_controls : Bool) (timeout_ms : ℕ) (nought : M) (frames strikes subscriptions : ℕ)
    (connection_id subject : String) (now : ℕ) where
  -- All that a connection is sent from its start, and what it comes to.
  abbrev pub lifetime : List (GatewaySignal M) → List (GatewayEffect M) × Connection M
  lifetime ss =
      let c = new_connection nought frames strikes subscriptions connection_id subject now in
      let greeting = (accept nought frames strikes subscriptions connection_id subject now).0 in
      let r = handle_all above below known enable_debug_controls timeout_ms ss c in
      (greeting ++ r.0, r.1)

  -- Whatever frames come in, whenever the heartbeat fires and whatever the limiter and the tier
  -- controller make of it: while the socket is open, the tier that the client was told last, by the
  -- hello or by a change of tier, is the tier that the session delivers at.
  pub told_tier_lem :
      (ss : List (GatewaySignal M))
      → (lifetime ss).1.socket_open ≡ true
      → hear_all none (lifetime ss).0 ≡ some (effective_tier (session_of (lifetime ss).1))
  unfolding hear_all hello_frame
  told_tier_lem ss on =
      let c = new_connection nought frames strikes subscriptions connection_id subject now in
      handle_all-Knows above below known enable_debug_controls timeout_ms ss
        (some (effective_tier (session_of c))) c (λ _. refl) on
