-- ===== src/Web/Chart/Adapter.antt =====
-- candlestick-chart-adapter.ts: the state of class CandlestickChartAdapter and the calls it makes on
-- the chart library, oldest first. A candle is kept under its start time, of which the code takes the
-- second. A candle stands for its bar: start times are whole seconds and prices finite numbers, since
-- otherwise the conversion throws. The library and the browser's observers are not modelled.
use exaint.Base.{
  ℕ, Bool, true, false, not, Option, none, some, List, [], ◌∷◌, ◌++◌, ltb, if◌then◌else◌, max,
  or_else,
}
use exaint.Base.Keys.{nat_eq}
use exaint.Base.Map
use exaint.Base.Map.{Map}
use exaint.App.Wire.{Candle}

-- `ChartBackend`: an update says whether it is of an earlier bar than the latest.
pub data BackendCall : Type 0 where
  set_bars : List Candle → BackendCall
  update_bar : Candle → Bool → BackendCall
  resizes : ℕ → ℕ → BackendCall
  closes : BackendCall

-- `latest_start_time` is `none` where the code has -1.
pub record ChartAdapter : Type 0 where
  pub candles_by_second : Map ℕ Candle
  pub latest_start_time : Option ℕ
  pub pending_resize : Option (ℕ × ℕ)
  pub resize_frame : Option ℕ
  pub disposed : Bool
  pub calls : List BackendCall

abbrev pub new_adapter : ChartAdapter
new_adapter = record {
  candles_by_second = [];
  latest_start_time = none;
  pending_resize = none;
  resize_frame = none;
  disposed = false;
  calls = [];
}

abbrev pub call : BackendCall → ChartAdapter → ChartAdapter
call c a = record a { calls = a.calls ++ c ∷ [] }

abbrev pub later_of : Option ℕ → ℕ → Option ℕ
later_of none t = some t
later_of (some latest) t = some (max latest t)

-- The body of the loop of `setData`, and of `update`.
abbrev pub keep_candle : Candle → ChartAdapter → ChartAdapter
keep_candle candle a = record a {
  candles_by_second = Map.set candle.start_time candle a.candles_by_second;
  latest_start_time = later_of a.latest_start_time candle.start_time;
}

unfoldable pub keep_candles : List Candle → ChartAdapter → ChartAdapter
keep_candles [] a = a
keep_candles (candle ∷ rest) a = keep_candles rest (keep_candle candle a)

unfoldable pub set_data : List Candle → ChartAdapter → ChartAdapter
set_data candles a =
    if a.disposed
    then a
    else call (set_bars candles)
        (keep_candles candles (record a { candles_by_second = []; latest_start_time = none }))

abbrev pub is_before : ℕ → Option ℕ → Bool
is_before t none = false
is_before t (some latest) = ltb t latest

unfoldable pub update : Candle → ChartAdapter → ChartAdapter
update candle a =
    if a.disposed
    then a
    else call (update_bar candle (is_before candle.start_time a.latest_start_time))
        (keep_candle candle a)

unfoldable pub resize : ℕ → ℕ → ChartAdapter → ChartAdapter
resize width height a = if a.disposed then a else call (resizes width height) a

unfoldable pub dispose : ChartAdapter → ChartAdapter
dispose a =
    if a.disposed
    then a
    else call closes (record a {
      candles_by_second = [];
      pending_resize = none;
      resize_frame = none;
      disposed = true;
    })

-- `#queueResize`; `frame` is the handle that the browser answers with.
unfoldable pub queue_resize : ℕ → ℕ → ℕ → ChartAdapter → ChartAdapter
queue_resize frame width height a = if a.disposed then a else record a {
  pending_resize = some (width, height);
  resize_frame = some (or_else a.resize_frame frame);
}

-- The callback of the animation frame.
unfoldable pub resize_fires : ChartAdapter → ChartAdapter
resize_fires a =
    let a' = record a { resize_frame = none; pending_resize = none } in
    elim a.pending_resize [ none ↦ a' | some (width, height) ↦ call (resizes width height) a' ]

-- The candle under the crosshair, `none` where nothing is to be shown or no one listens.
unfoldable pub hovered : Bool → Option ℕ → ChartAdapter → Option Candle
hovered listens second a =
    if a.disposed
    then none
    else if not listens
    then none
    else elim second [ none ↦ none | some t ↦ Map.get t a.candles_by_second ]
