-- ===== src/Delivery/Gateway/Tests.antt =====
-- A slow client that reports, is moved to a lower tier, and then falls silent.
use exaint.Base.{refl, ℕ, ◌≡◌, true, false, String, Bool, none, some, List, [], ◌∷◌, ltb}
use exaint.Delivery.Session.{new_session, effective_tier}
use exaint.Delivery.Tier.{apply_report, apply_silence, is_bad, is_good, update_of}
use exaint.Delivery.RateLimiter.{check, spend, strike, take}
use exaint.Delivery.Frames.{network_report, handle_client_frame, apply_frame}
use exaint.Delivery.Gateway.{
  GatewaySignal, message, beats, Connection, session_of, announce, obey, obey_all, on_message,
  on_heartbeat, handle, handle_all, new_connection,
}
use exaint.Delivery.Gateway.Tiers.{hear_all, lifetime, told_tier_lem}
use exaint.Delivery.Gateway.Heartbeat.{times_out, falls_silent, heartbeat_lem}

abbrev over : ℕ → ℕ → Bool
over a b = ltb b a

abbrev listed : String → Bool
listed symbol = true

abbrev reports_of_a_slow_link : List (GatewaySignal ℕ)
reports_of_a_slow_link =
    message (some (network_report 900 5)) 1000
    ∷ message (some (network_report 900 5)) 6000
    ∷ message (some (network_report 900 5)) 11000
    ∷ beats 15000
    ∷ []

still_open :
    (lifetime over ltb listed false 45000 0 20 3 5 "c" "anon-local" 0
      reports_of_a_slow_link).1.socket_open
    ≡ true
unfolding handle_all handle on_message on_heartbeat obey_all obey announce handle_client_frame
    apply_frame check spend strike take apply_report apply_silence is_bad is_good update_of
    new_session
still_open = refl

told_tier_lem_example :
    let r =
      lifetime over ltb listed false 45000 0 20 3 5 "c" "anon-local" 0 reports_of_a_slow_link in
    hear_all none r.0 ≡ some (effective_tier (session_of r.1))
told_tier_lem_example =
    told_tier_lem over ltb listed false 45000 0 20 3 5 "c" "anon-local" 0 reports_of_a_slow_link
      still_open

abbrev then_silent : List (GatewaySignal ℕ)
then_silent = message (some (network_report 900 5)) 1000 ∷ beats 46000 ∷ beats 51000 ∷ []

abbrev fresh : Connection ℕ
fresh = new_connection 0 20 3 5 "c" "anon-local" 0

heartbeat_lem_example :
    times_out (handle_all over ltb listed false 45000 then_silent fresh).0
    ≡ falls_silent 45000 (session_of fresh).last_inbound_at then_silent
heartbeat_lem_example = heartbeat_lem over ltb listed false 45000 then_silent fresh refl
