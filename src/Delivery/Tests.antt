-- ===== src/Delivery/Tests.antt =====
-- One subscription over two ticks, and one link over three reports. Round-trip times are whole here.
use exaint.Base.{
  ℕ, ◌≡◌, ◌≤◌, ◌<◌, ◌+◌, ◌*◌, Bool, refl, none, some, List, [], ◌∷◌, ◌++◌, ltb, true, false, String,
  length, arith,
}
use exaint.Base.Int.{pos}
use exaint.Protocol.{s1, degraded, minimal, buy, candles}
use exaint.Market.Events.{DomainTrade, SymbolTickResult}
use exaint.Market.Candles.{open_candle}
use exaint.Delivery.Session.{SymbolSubscription, new_subscription, new_session, has_channel}
use exaint.Delivery.Tier.{TierController, new_controller}
use exaint.Delivery.Scheduler.{encode_finals}
use exaint.Delivery.Scheduler.ExactlyOnce.{
  Turn, turns, finals_received, closed_candles, turns-finals,
}
use exaint.Delivery.RateLimiter.{allow}
use exaint.Delivery.Frames.{subscribe_to}
use exaint.Delivery.Frames.Cap.{after_frames, after_frames_lem}
use exaint.Delivery.Tier.Hysteresis.{Report, tally, tally_lem, rank}

abbrev trade : ℕ → DomainTrade
trade timestamp = record {
  symbol = "BTC";
  trade_id = 1;
  timestamp = timestamp;
  side = buy;
  price = pos 50;
  quantity = pos 2;
}

abbrev result : ℕ → SymbolTickResult
result timestamp = record {
  symbol = "BTC";
  timestamp = timestamp;
  trades = [];
  delta = none;
  finalised_candles = open_candle "BTC" s1 timestamp (trade timestamp) ∷ [];
  active_candles = [];
}

abbrev subscription : SymbolSubscription
subscription = new_subscription "BTC" (candles ∷ []) (some s1)

abbrev ticks : List Turn
ticks =
    record { result = result 1000; now = 2000; tier = degraded; drop_trades = false }
    ∷ record { result = result 2000; now = 3000; tier = minimal; drop_trades = false }
    ∷ []

channel : has_channel candles subscription.channels ≡ true
unfolding has_channel
channel = refl

turns-finals_example :
    let (frames, s') = turns ticks subscription in
    finals_received frames ++ encode_finals s'.pending_final_candles
    ≡ encode_finals (subscription.pending_final_candles ++ closed_candles s1 ticks)
turns-finals_example = turns-finals subscription s1 ticks refl channel

abbrev above : ℕ → ℕ → Bool
above a limit = ltb limit a

abbrev slow : Report ℕ
slow = record { rtt = 400; jitter = 10; now = 5000 }

abbrev controller : TierController ℕ
unfolding new_session
controller = new_controller (new_session 0 "c1" "anon" 5 0)

tally_lem_example :
    let t = tally above ltb (slow ∷ slow ∷ slow ∷ []) controller in
    (3 * t.downs ≤ t.bads)
    × (5 * t.ups ≤ t.goods)
    × (t.controller.session.consecutive_bad_reports < 3)
    × (t.controller.session.consecutive_good_reports < 5)
    × (rank t.controller.session.auto_tier + t.downs ≡ rank controller.session.auto_tier + t.ups)
unfolding controller
tally_lem_example = tally_lem above ltb (slow ∷ slow ∷ slow ∷ []) controller refl refl

abbrev known : String → Bool
known symbol = true

after_frames_lem_example :
    let s' =
      after_frames known false
        (record {
          frame = some (subscribe_to "BTC" (candles ∷ []) (some s1));
          verdict = allow;
          now = 10;
        }
          ∷ [])
        (controller.session) in
    (s'.max_subscriptions ≡ controller.session.max_subscriptions)
    × (length s'.subscriptions ≤ controller.session.max_subscriptions)
unfolding controller
after_frames_lem_example =
    after_frames_lem known false
      (record {
        frame = some (subscribe_to "BTC" (candles ∷ []) (some s1));
        verdict = allow;
        now = 10;
      }
        ∷ [])
      controller.session (omega arith)
