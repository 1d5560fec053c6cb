-- ===== src/Web/CandleData.antt =====
-- apps/web/features/market/chart/candle-data.ts. Within one merge the scope is fixed, so that the key
-- of a candle (symbol, interval and start time, parted by NULs) is its start time.
pub mod Newest
pub mod Tests
use exaint.Base.{
  ℕ, String, Bool, true, false, not, ◌&&◌, ◌||◌, Option, none, some, List, [], ◌∷◌, ◌++◌, ltb, ◌==◌,
  if◌then◌else◌,
}
use exaint.Base.Keys.{nat_eq}
use exaint.Base.Map
use exaint.Base.Map.{Map}
use exaint.Base.Sort.{sort}
use exaint.Protocol.Decimal.{parsed_identifier}
use exaint.App.Wire.{Candle}
use text.Mathlib.Text.{◌==◌ as same_text}

unfoldable pub is_newer : Candle → Candle → Bool
is_newer candidate current =
    let candidate_id = parsed_identifier candidate.last_trade_id in
    let current_id = parsed_identifier current.last_trade_id in
    ltb current_id candidate_id
    || ((candidate_id == current_id) && (candidate.final && not current.final))

abbrev pub is_candle_newer : Candle → Option Candle → Bool
is_candle_newer candidate none = true
is_candle_newer candidate (some current) = is_newer candidate current

-- The loop over history and live candles.
unfoldable pub merge_into : String → List Candle → Map ℕ Candle → Map ℕ Candle
merge_into symbol [] merged = merged
merge_into symbol (candle ∷ rest) merged =
    let next =
      if not (same_text candle.symbol symbol)
      then merged
      else if is_candle_newer candle (Map.get candle.start_time merged)
      then Map.set candle.start_time candle merged
      else merged in
    merge_into symbol rest next

unfoldable pub merge_candles : String → List Candle → List Candle → List Candle
merge_candles symbol history live =
    sort (λ (left right : Candle). ltb left.start_time right.start_time)
      (Map.values (merge_into symbol (history ++ live) []))
