-- ===== src/Delivery/Scheduler.antt =====
-- apps/api/src/websocket/delivery-scheduler.ts, and the server's frames that carry market data.
pub mod ExactlyOnce
use exaint.Base.{
  ℕ, ◌+◌, ◌-◌, ◌*◌, Bool, true, false, not, ◌&&◌, ◌||◌, Option, none, some, List, [], ◌∷◌, ◌++◌,
  map, String, ltb, leb, if◌then◌else◌, keep_if,
}
use exaint.Protocol.{Interval, Tier, Channel, trades, candles, tier_cadence_ms}
use exaint.App.Wire.{Candle, Trade, BookDelta, encode_candle, encode_trade}
use exaint.Market.Events.{DomainCandle, DomainTrade, SymbolTickResult}
use exaint.Delivery.Session.{SymbolSubscription, has_channel, same_interval}

abbrev pub backpressure_soft_bytes : ℕ
backpressure_soft_bytes = 256 * 1024

abbrev pub backpressure_hard_bytes : ℕ
backpressure_hard_bytes = 1024 * 1024

pub data ErrorCode : Type 0 where
  backpressure_close : ErrorCode

pub data ServerFrame : Type 0 where
  candles_update : String → Interval → List Candle → ServerFrame
  trades_batch : String → List Trade → ServerFrame
  book_delta : BookDelta → ServerFrame
  error_frame : ErrorCode → ServerFrame

abbrev pub non_empty {ℓ} : {A : Type ℓ} → List A → Bool
non_empty [] = false
non_empty (x ∷ xs) = true

abbrev pub is_some {ℓ} : {A : Type ℓ} → Option A → Bool
is_some none = false
is_some (some a) = true

abbrev pub of_interval : Interval → DomainCandle → Bool
of_interval interval candle = same_interval candle.interval interval

-- The loop over the active candles: the last one of the interval, or what was there.
unfoldable pub newest_active :
    Interval → List DomainCandle → Option DomainCandle → Option DomainCandle
newest_active interval [] latest = latest
newest_active interval (c ∷ cs) latest =
    newest_active interval cs (if of_interval interval c then some c else latest)

abbrev pub enqueue_trades : SymbolTickResult → SymbolSubscription → SymbolSubscription
enqueue_trades result s =
    if has_channel trades s.channels && non_empty result.trades
    then record s { pending_trades = s.pending_trades ++ result.trades }
    else s

abbrev pub enqueue_candles :
    Option Interval → SymbolTickResult → SymbolSubscription → SymbolSubscription
enqueue_candles none result s = s
enqueue_candles (some interval) result s =
    if not (has_channel candles s.channels) then s else record s {
      pending_final_candles =
          s.pending_final_candles ++ keep_if (of_interval interval) result.finalised_candles;
      latest_active_candle = newest_active interval result.active_candles s.latest_active_candle;
    }

unfoldable pub enqueue : SymbolTickResult → SymbolSubscription → SymbolSubscription
enqueue result s = enqueue_candles s.subscribed_interval result (enqueue_trades result s)

abbrev pub encode_active : Option DomainCandle → List Candle
encode_active none = []
encode_active (some candle) = encode_candle candle false ∷ []

abbrev pub encode_finals : List DomainCandle → List Candle
encode_finals cs = map (λ c. encode_candle c true) cs

unfoldable pub flush_candles :
    ℕ → Tier → Option Interval → SymbolSubscription → List ServerFrame × SymbolSubscription
flush_candles now tier none s = ([], s)
flush_candles now tier (some interval) s =
    if (non_empty s.pending_final_candles || is_some s.latest_active_candle)
      && leb (tier_cadence_ms tier).candles_update_ms (now - s.last_candle_sent_at)
    then (
      candles_update s.symbol interval
            (encode_finals s.pending_final_candles ++ encode_active s.latest_active_candle)
          ∷ [],
      record s {
        pending_final_candles = [];
        latest_active_candle = none;
        last_candle_sent_at = now;
      },
    )
    else ([], s)

unfoldable pub flush_trades :
    ℕ → Tier → Bool → SymbolSubscription → List ServerFrame × SymbolSubscription
flush_trades now tier drop_trades s =
    if not (non_empty s.pending_trades)
    then ([], s)
    else if drop_trades
    then ([], record s { pending_trades = [] })
    else if leb (tier_cadence_ms tier).trades_batch_ms (now - s.last_trade_batch_sent_at)
    then (
      trades_batch s.symbol (map encode_trade s.pending_trades) ∷ [],
      record s { pending_trades = []; last_trade_batch_sent_at = now },
    )
    else ([], s)

unfoldable pub flush_due :
    ℕ → Tier → Bool → SymbolSubscription → List ServerFrame × SymbolSubscription
unfolding flush_candles flush_trades
flush_due now tier drop_trades s =
    let (frames, s') = flush_candles now tier s.subscribed_interval s in
    let (more, s'') = flush_trades now tier drop_trades s' in (frames ++ more, s'')
