-- ===== src/Delivery/Session.antt =====
-- apps/api/src/websocket/connection-session.ts. `M` stands for the numbers that round-trip times and
-- jitters are: the session only stores them. The rate limiter is not part of this state.
use exaint.Base.{
  ℕ, String, Bool, true, false, Option, none, some, List, [], ◌∷◌, leb, if◌then◌else◌, length,
}
use exaint.Base.Keys.{string_eq}
use exaint.Base.Map
use exaint.Base.Map.{Map}
use exaint.Protocol.{Interval, s1, s5, m1, Tier, Channel, book, trades, candles, initial_tier}
use exaint.Market.Events.{DomainTrade, DomainCandle}

abbrev pub same_interval : Interval → Interval → Bool
same_interval s1 s1 = true
same_interval s5 s5 = true
same_interval m1 m1 = true
same_interval _ _ = false

abbrev pub same_channel : Channel → Channel → Bool
same_channel book book = true
same_channel trades trades = true
same_channel candles candles = true
same_channel _ _ = false

-- `channels.has`, on the array that the set is made from.
unfoldable pub has_channel : Channel → List Channel → Bool
has_channel c [] = false
has_channel c (d ∷ ds) = if same_channel d c then true else has_channel c ds

pub record SymbolSubscription : Type 0 where
  pub symbol : String
  pub channels : List Channel
  pub subscribed_interval : Option Interval
  pub last_candle_sent_at : ℕ
  pub pending_final_candles : List DomainCandle
  pub latest_active_candle : Option DomainCandle
  pub last_trade_batch_sent_at : ℕ
  pub pending_trades : List DomainTrade

abbrev pub new_subscription : String → List Channel → Option Interval → SymbolSubscription
new_subscription symbol channels interval = record {
  symbol = symbol;
  channels = channels;
  subscribed_interval = interval;
  last_candle_sent_at = 0;
  pending_final_candles = [];
  latest_active_candle = none;
  last_trade_batch_sent_at = 0;
  pending_trades = [];
}

abbrev pub same_subscribed : Option Interval → Option Interval → Bool
same_subscribed none none = true
same_subscribed (some i) (some j) = same_interval i j
same_subscribed _ _ = false

unfoldable pub set_interval : Option Interval → SymbolSubscription → SymbolSubscription
set_interval interval s = if same_subscribed interval s.subscribed_interval then s else record s {
  subscribed_interval = interval;
  pending_final_candles = [];
  latest_active_candle = none;
}

pub record ConnectionSession (M : Type 0) : Type 0 where
  pub connection_id : String
  pub subject : String
  pub connected_at : ℕ
  pub max_subscriptions : ℕ
  pub auto_tier : Tier
  pub tier_override : Option Tier
  pub rtt_ms : M
  pub jitter_ms : M
  pub consecutive_good_reports : ℕ
  pub consecutive_bad_reports : ℕ
  pub last_network_report_at : Option ℕ
  pub last_inbound_at : ℕ
  pub subscriptions : Map String SymbolSubscription

-- `nought` is the number 0.
unfoldable pub new_session : {M : Type 0} → M → String → String → ℕ → ℕ → ConnectionSession M
new_session nought connection_id subject max_subscriptions now = record {
  connection_id = connection_id;
  subject = subject;
  connected_at = now;
  max_subscriptions = max_subscriptions;
  auto_tier = initial_tier;
  tier_override = none;
  rtt_ms = nought;
  jitter_ms = nought;
  consecutive_good_reports = 0;
  consecutive_bad_reports = 0;
  last_network_report_at = none;
  last_inbound_at = now;
  subscriptions = [];
}

module _ {M : Type 0} where
  abbrev pub effective_tier : ConnectionSession M → Tier
  effective_tier s = elim s.tier_override [ some t ↦ t | none ↦ s.auto_tier ]

  abbrev pub at_subscription_cap : ConnectionSession M → Bool
  at_subscription_cap s = leb s.max_subscriptions (length s.subscriptions)

  abbrev pub subscription : String → ConnectionSession M → Option SymbolSubscription
  subscription symbol s = Map.get symbol s.subscriptions

  -- A symbol subscribed again keeps its pending candles only where the interval stays.
  unfoldable pub subscribe :
      String → List Channel → Option Interval → ConnectionSession M → ConnectionSession M
  unfolding set_interval
  subscribe symbol channels interval s = elim (Map.get symbol s.subscriptions) [
    | none ↦ record s {
      subscriptions = Map.set symbol (new_subscription symbol channels interval) s.subscriptions;
    }
    | some existing ↦
        let wanted : Option Interval = if has_channel candles channels then interval else none in
        record s {
          subscriptions =
              Map.set symbol (set_interval wanted (record existing { channels = channels }))
                s.subscriptions;
        }
  ]

  unfoldable pub unsubscribe : String → ConnectionSession M → Bool × ConnectionSession M
  unsubscribe symbol s = (
    Map.has symbol s.subscriptions,
    record s { subscriptions = Map.delete symbol s.subscriptions },
  )
