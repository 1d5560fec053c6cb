-- ===== src/Web/Socket.antt =====
-- apps/web/features/market/socket: backoff.ts, desired-state.ts, latency-tracker.ts and
-- socket-measurement.ts, the parts of the socket client. Times are whole milliseconds.
pub mod Backoff
pub mod Client
pub mod Tests
use exaint.Base.{
  ℕ, zero, suc, ◌+◌, ◌-◌, ◌*◌, ◌/◌, min, String, Bool, true, false, Option, none, some, List, [],
  ◌∷◌, ◌++◌, ltb, leb, ◌==◌, if◌then◌else◌, length, drop, get_elem?, or_else, map,
}
use exaint.Base.Keys.{string_eq, nat_eq}
use exaint.Base.Map
use exaint.Base.Map.{Map}
use exaint.Protocol.{Tier, Channel, Interval}

-- backoff.ts.
abbrev pub backoff_steps_ms : List ℕ
backoff_steps_ms = 250 ∷ 500 ∷ 1000 ∷ 2000 ∷ 4000 ∷ 8000 ∷ []

abbrev pub backoff_max_ms : ℕ
backoff_max_ms = 10000

abbrev pub stable_connection_ms : ℕ
stable_connection_ms = 10000

abbrev pub error_after_attempts : ℕ
error_after_attempts = 9

-- The delay before jitter.
unfoldable pub backoff_base : ℕ → ℕ
backoff_base attempt = or_else (get_elem? backoff_steps_ms attempt) backoff_max_ms

abbrev pub random_unit : ℕ
random_unit = 9007199254740992

-- `random` is a draw of Math.random in parts of 2^53; 0.8 + 0.4 * random, exact where the code has
-- doubles, and rounded as Math.round does.
unfoldable pub backoff_delay_ms : ℕ → ℕ → ℕ
backoff_delay_ms attempt random =
    (backoff_base attempt * (8 * random_unit + 4 * random) + 5 * random_unit) / (10 * random_unit)

-- latency-tracker.ts; the averages are in the client's numbers, `M`.
pub record LatencyTracker (M : Type 0) : Type 0 where
  pub rtt_ms : M
  pub jitter_ms : M
  pub previous_rtt_ms : Option ℕ
  pub samples_since_report : ℕ
  pub initialised : Bool

abbrev pub distance : ℕ → ℕ → ℕ
distance a b = a - b + (b - a)

-- The numbers of the client: zero, a whole number, the average of a new value with the old one at
-- EWMA_ALPHA, and one decimal place.
module _ {M : Type 0} (nought : M) (of_ms : ℕ → M) (ewma : ℕ → M → M) (rounded : M → M) where
  unfoldable pub new_latency : LatencyTracker M
  new_latency = record {
    rtt_ms = nought;
    jitter_ms = nought;
    previous_rtt_ms = none;
    samples_since_report = 0;
    initialised = false;
  }

  abbrev pub jitter_after : Option ℕ → ℕ → M → M
  jitter_after none rtt jitter = jitter
  jitter_after (some previous) rtt jitter = ewma (distance rtt previous) jitter

  -- Durations of whole milliseconds are finite and not negative.
  unfoldable pub record_rtt : ℕ → LatencyTracker M → LatencyTracker M
  record_rtt rtt l = record {
    rtt_ms = if l.initialised then ewma rtt l.rtt_ms else of_ms rtt;
    jitter_ms = jitter_after l.previous_rtt_ms rtt l.jitter_ms;
    previous_rtt_ms = some rtt;
    samples_since_report = l.samples_since_report + 1;
    initialised = true;
  }

  -- The report, of the two averages and the number of samples.
  unfoldable pub take_report : LatencyTracker M → Option (M × M × ℕ) × LatencyTracker M
  take_report l = if l.samples_since_report == 0 then (none, l) else (
    some (rounded l.rtt_ms, rounded l.jitter_ms, l.samples_since_report),
    record l { samples_since_report = 0 },
  )

-- What the client sends.
pub data SentFrame (M : Type 0) : Type 0 where
  ping : ℕ → SentFrame M
  network_report : M × M × ℕ → SentFrame M
  subscribe_to : String → List Channel → Option Interval → SentFrame M
  unsubscribe_from : String → SentFrame M
  set_interval : String → Interval → SentFrame M
  tier_override : Option Tier → SentFrame M

-- desired-state.ts.
pub record DesiredSubscription : Type 0 where
  pub symbol : String
  pub channels : List Channel
  pub interval : Option Interval

pub record SocketDesiredState : Type 0 where
  pub subscriptions : Map String DesiredSubscription
  pub override_tier : Option Tier
  pub has_explicit_override : Bool

abbrev pub no_wishes : SocketDesiredState
no_wishes = record { subscriptions = []; override_tier = none; has_explicit_override = false }

module _ {M : Type 0} where
  abbrev pub subscribe_frame : DesiredSubscription → SentFrame M
  subscribe_frame s = subscribe_to s.symbol s.channels s.interval

  -- Each wish changes the state and gives the frame to send.
  unfoldable pub wish_subscribe :
      String
      → List Channel
      → Option Interval
      → SocketDesiredState
      → List (SentFrame M) × SocketDesiredState
  wish_subscribe symbol channels interval d =
      let wanted : DesiredSubscription = record {
        symbol = symbol;
        channels = channels;
        interval = interval;
      } in
      (
        subscribe_to symbol channels interval ∷ [],
        record d { subscriptions = Map.set symbol wanted d.subscriptions },
      )

  unfoldable pub wish_unsubscribe :
      String → SocketDesiredState → List (SentFrame M) × SocketDesiredState
  wish_unsubscribe symbol d =
      (unsubscribe_from symbol ∷ [], record d { subscriptions = Map.delete symbol d.subscriptions })

  unfoldable pub wish_interval :
      String → Interval → SocketDesiredState → List (SentFrame M) × SocketDesiredState
  wish_interval symbol interval d = elim (Map.get symbol d.subscriptions) [
    | none ↦ ([], d)
    | some existing ↦ (
      set_interval symbol interval ∷ [],
      record d {
        subscriptions =
            Map.set symbol (record existing { interval = some interval }) d.subscriptions;
      },
    )
  ]

  unfoldable pub wish_tier :
      Option Tier → SocketDesiredState → List (SentFrame M) × SocketDesiredState
  wish_tier tier d =
      (tier_override tier ∷ [], record d { override_tier = tier; has_explicit_override = true })

  unfoldable pub reapply : SocketDesiredState → List (SentFrame M)
  reapply d =
      map subscribe_frame (Map.values d.subscriptions)
      ++ (if d.has_explicit_override then tier_override d.override_tier ∷ [] else [])

-- socket-measurement.ts; an id of a ping is its number.
pub record SocketMeasurement (M : Type 0) : Type 0 where
  pub latency : LatencyTracker M
  pub pending_pings : Map ℕ ℕ
  pub ping_sequence : ℕ
  pub timers_run : Bool

abbrev pub at_most_16 : Map ℕ ℕ → Map ℕ ℕ
at_most_16 m = if ltb 16 (length m) then drop 1 m else m

-- `sendPing`, where the socket takes the frame (`sends`) or not.
unfoldable pub send_ping :
    {M : Type 0} → Bool → ℕ → SocketMeasurement M → List (SentFrame M) × SocketMeasurement M
send_ping false now m = ([], m)
send_ping true now m =
    let id = m.ping_sequence + 1 in
    (
      ping id ∷ [],
      record m { ping_sequence = id; pending_pings = at_most_16 (Map.set id now m.pending_pings) },
    )
