-- ===== src/Protocol.antt =====
-- packages/protocol/src/market.ts and websocket.ts: the enumerations and the protocol's constants.
pub mod Decimal
use exaint.Base.{ℕ}

pub data Interval : Type 0 where
  s1 s5 m1 : Interval

pub data Tier : Type 0 where
  full degraded minimal : Tier

pub data Channel : Type 0 where
  book trades candles : Channel

pub data Side : Type 0 where
  buy sell : Side

unfoldable pub interval_ms : Interval → ℕ
interval_ms s1 = 1000
interval_ms s5 = 5000
interval_ms m1 = 60000

pub record Cadence : Type 0 where
  pub candles_update_ms : ℕ
  pub trades_batch_ms : ℕ

unfoldable pub tier_cadence_ms : Tier → Cadence
tier_cadence_ms full = record { candles_update_ms = 100; trades_batch_ms = 200 }
tier_cadence_ms degraded = record { candles_update_ms = 500; trades_batch_ms = 500 }
tier_cadence_ms minimal = record { candles_update_ms = 2000; trades_batch_ms = 2000 }

abbrev pub initial_tier : Tier
initial_tier = Tier.degraded

-- `CANDLE_HISTORY_LIMIT_MAX` of rest.ts.
abbrev pub candle_history_limit_max : ℕ
candle_history_limit_max = 300
