-- ===== src/Delivery/Frames/Cap.antt =====
-- frame-handler.ts: the cap on subscriptions, over any sequence of frames.
use exaint.Base.{
  ◌∙◌, ℕ, ◌+◌, ◌≤◌, ◌≡◌, refl, String, Bool, ◌&&◌, Option, none, some, List, [], ◌∷◌, if◌then◌else◌,
  length, leb, arith, Bool-cases, Option-cases, inl, inr,
}
use exaint.Base.Keys.{string_eq}
use exaint.Base.Map
use exaint.Base.Map.{Map, has-get, has-get-some}
use exaint.Protocol.{Interval, Channel, candles}
use exaint.Delivery.RateLimiter.{RateLimitVerdict, allow, limit, close_socket}
use exaint.Delivery.Session.{
  has_channel, ConnectionSession, SymbolSubscription, subscribe, unsubscribe, set_interval,
}
use exaint.Delivery.Frames.{
  ClientFrame, ping, network_report, tier_override, subscribe_to, unsubscribe_from, change_interval,
  apply_frame, handle_client_frame, is_new, change_of, wanted_interval,
}

length-set :
    (k : String) (v : SymbolSubscription) (m : Map String SymbolSubscription)
    → length (Map.set k v m) ≡ (if Map.has k m then length m else length m + 1)
unfolding Map.set Map.has
length-set k v [] = omega arith
length-set k v ((j, w) ∷ m) = ground (arith, length-set k v m)

length-delete :
    (k : String) (m : Map String SymbolSubscription) → length (Map.delete k m) ≤ length m
unfolding Map.delete
length-delete k [] = omega arith
length-delete k ((j, w) ∷ m) = ground (arith, length-delete k m)

-- A frame, with the decoder's and the limiter's verdicts and the time.
pub record Inbound (M : Type 0) : Type 0 where
  pub frame : Option (ClientFrame M)
  pub verdict : RateLimitVerdict
  pub now : ℕ

module _ {M : Type 0} (known : String → Bool) (enable_debug_controls : Bool) where
  subscribe_size :
      (symbol : String) (channels : List Channel) (interval : Option Interval)
      (s : ConnectionSession M)
      → let s' = subscribe symbol channels interval s in
        (s'.max_subscriptions ≡ s.max_subscriptions)
        × (length s'.subscriptions ≡ (
            if Map.has symbol s.subscriptions
            then length s.subscriptions
            else length s.subscriptions + 1))
  unfolding subscribe
  subscribe_size symbol channels interval s = elim (Option-cases (Map.get symbol s.subscriptions)) [
    | inl absent ↦ rw (absent, subscribe) (refl, length-set symbol _ s.subscriptions)
    | inr (existing, e) ↦ rw (e, subscribe) (refl, length-set symbol _ s.subscriptions)
  ]

  -- What a handler keeps: the cap, and that the subscriptions stay under it.
  abbrev Kept : ConnectionSession M → ConnectionSession M → Type 0
  Kept s s' =
      (s'.max_subscriptions ≡ s.max_subscriptions)
      × (length s.subscriptions ≤ s.max_subscriptions
          → length s'.subscriptions ≤ s'.max_subscriptions)

  change-Kept :
      (symbol : String) (interval : Interval) (o : Option SymbolSubscription)
      (s : ConnectionSession M)
      → Map.get symbol s.subscriptions ≡ o
      → Kept s (change_of symbol interval o s).1
  change-Kept symbol interval none s e = (refl, λ h. h)
  change-Kept symbol interval (some existing) s e =
      elim (Bool-cases (has_channel candles existing.channels)) [
        | inr none_ ↦ rw none_ (refl, λ h. h)
        | inl some_ ↦ rw some_ (
          refl,
          λ h. ground (
            arith,
            length-set symbol (set_interval (some interval) existing) s.subscriptions,
            has-get symbol s.subscriptions,
          ),
        )
      ]

  apply_frame-Kept :
      (f : ClientFrame M) (s : ConnectionSession M)
      → Kept s (apply_frame known enable_debug_controls f s).1
  unfolding apply_frame unsubscribe
  apply_frame-Kept (ping id) s = (refl, λ h. h)
  apply_frame-Kept (network_report rtt jitter) s = (refl, λ h. h)
  apply_frame-Kept (tier_override tier) s = elim (Bool-cases enable_debug_controls) [
    | inl on ↦ rw on (refl, λ h. h)
    | inr off ↦ rw off (refl, λ h. h)
  ]
  apply_frame-Kept (subscribe_to symbol channels interval) s = elim (Bool-cases (known symbol)) [
    | inr unknown ↦ rw unknown (refl, λ h. h)
    | inl listed ↦
        elim (Bool-cases (is_new symbol s && leb s.max_subscriptions (length s.subscriptions))) [
          | inl full ↦ rw (listed, full) (refl, λ h. h)
          | inr room ↦
              let (same, size) =
                subscribe_size symbol channels (wanted_interval channels interval) s in
              rw (listed, room) (same, λ h. ground arith)
        ]
  ]
  apply_frame-Kept (unsubscribe_from symbol) s =
      elim (Bool-cases (Map.has symbol s.subscriptions)) [
        | inl there ↦ rw there (refl, λ h. omega (arith, length-delete symbol s.subscriptions))
        | inr absent ↦ rw absent (refl, λ h. omega (arith, length-delete symbol s.subscriptions))
      ]
  apply_frame-Kept (change_interval symbol interval) s =
      change-Kept symbol interval (Map.get symbol s.subscriptions) s refl

  unfoldable pub after_frames : List (Inbound M) → ConnectionSession M → ConnectionSession M
  after_frames [] s = s
  after_frames (f ∷ fs) s =
      after_frames fs (handle_client_frame known enable_debug_controls f.frame f.verdict f.now s).1

  handle-Kept :
      (frame : Option (ClientFrame M)) (verdict : RateLimitVerdict) (now : ℕ)
      (s : ConnectionSession M)
      → Kept s (handle_client_frame known enable_debug_controls frame verdict now s).1
  unfolding handle_client_frame
  handle-Kept none verdict now s = (refl, λ h. h)
  handle-Kept (some f) limit now s = (refl, λ h. h)
  handle-Kept (some f) close_socket now s = (refl, λ h. h)
  handle-Kept (some f) allow now s = apply_frame-Kept f (record s { last_inbound_at = now })

  -- Over any frames of a client, accepted, refused or limited, the cap of a session stays what it is
  -- and a session that is within it stays within it.
  pub after_frames_lem :
      (fs : List (Inbound M)) (s : ConnectionSession M)
      → length s.subscriptions ≤ s.max_subscriptions
      → let s' = after_frames fs s in
        (s'.max_subscriptions ≡ s.max_subscriptions)
        × (length s'.subscriptions ≤ s.max_subscriptions)
  unfolding after_frames
  after_frames_lem [] s h = (refl, h)
  after_frames_lem (f ∷ fs) s h =
      let s₁ = (handle_client_frame known enable_debug_controls f.frame f.verdict f.now s).1 in
      let (same, kept) = handle-Kept f.frame f.verdict f.now s in
      let (same', under) = after_frames_lem fs s₁ (kept h) in (same' ∙ same, omega arith)
