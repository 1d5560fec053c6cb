-- ===== src/Web/Chart/History/Stage.antt =====
-- candlestick-chart-adapter.ts: the chart sessions that the effects of the controller work on.
use exaint.Base.{ℕ, Bool, none, some, List, [], ◌∷◌}
use exaint.Base.Keys.{nat_eq}
use exaint.Base.Map
use exaint.Base.Map.{Map, get-set}
use exaint.Web.Chart.Adapter.{ChartAdapter, new_adapter, keep_candles, set_data, update}
use exaint.Web.Chart.Adapter
use exaint.Web.Chart.History.{
  CandleScope, CandlesUpdateFrame, Answer, CandleHistoryController, ChartEffect, aborts, fetches,
  creates, disposes, sets_data, updates, set_rendering_paused, begin_select, finish_select,
  on_candles, dispose,
}

-- The chart sessions by number.
abbrev pub Stage : Type 0
Stage = Map ℕ ChartAdapter

unfoldable pub apply_to : ℕ → (ChartAdapter → ChartAdapter) → Stage → Stage
apply_to i f stage = elim (Map.get i stage) [ none ↦ stage | some a ↦ Map.set i (f a) stage ]

unfoldable pub perform : ChartEffect → Stage → Stage
perform (aborts g) stage = stage
perform (fetches g scope) stage = stage
perform (creates i scope) stage = Map.set i new_adapter stage
perform (disposes i) stage = apply_to i Adapter.dispose stage
perform (sets_data i candles) stage = apply_to i (set_data candles) stage
perform (updates i candle) stage = apply_to i (update candle) stage

unfoldable pub perform_all : List ChartEffect → Stage → Stage
unfolding perform
perform_all [] stage = stage
perform_all (e ∷ es) stage = perform_all es (perform e stage)

-- What happens to the controller. An answer may come for any generation and scope.
pub data Signal : Type 0 where
  selects : CandleScope → Signal
  answers : ℕ → CandleScope → Answer → Signal
  comes : CandlesUpdateFrame → Signal
  pauses : Bool → Signal
  leaves : Signal

unfoldable pub handle :
    Signal → CandleHistoryController → List ChartEffect × CandleHistoryController
handle (selects scope) c = begin_select scope c
handle (answers g scope answer) c =
    let (_, effects, c') = finish_select g scope answer c in (effects, c')
handle (comes frame) c = on_candles frame c
handle (pauses paused) c = set_rendering_paused paused c
handle leaves c = dispose c

unfoldable pub run : List Signal → CandleHistoryController → Stage → CandleHistoryController × Stage
run [] c stage = (c, stage)
run (s ∷ ss) c stage = let (effects, c') = handle s c in run ss c' (perform_all effects stage)
