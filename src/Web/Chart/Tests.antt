-- ===== src/Web/Chart/Tests.antt =====
-- A selection whose answer comes after a live candle, with the tab hidden for a while.
use exaint.Base.{refl, ℕ, ◌≡◌, ◌==◌, true, false, some, List, [], ◌∷◌, ◌++◌}
use exaint.Base.Keys.{nat_eq, string_eq}
use exaint.Base.Map
use exaint.Base.Sort.{sort}
use exaint.Protocol.{s5}
use exaint.Protocol.Decimal.{parsed_identifier, parse_identifier}
use exaint.Web.CandleData.{merge_candles, merge_into, is_newer}
use exaint.Web.CandleData.Newest.{rank_of, highest}
use exaint.Web.CandleData.Tests.{revision}
use exaint.Web.Chart.History.{
  CandleScope, CandlesUpdateFrame, CandleHistoryResponse, arrived, applied, new_history,
  begin_select, finish_select, on_candles, set_rendering_paused, replace_session, show_updates,
  any_foreign, is_foreign,
}
use exaint.Web.Chart.History.Stage.{Signal, selects, answers, handle, run, perform_all}
use exaint.Web.Chart.History.Stage
use exaint.Web.Chart.Adapter.{ChartAdapter}
use exaint.Web.Chart.History.InTurn.{FollowsRules}
use exaint.Web.Chart.History.Shown.{is_open, shown_at, shown_lem}
use exaint.Web.Chart.History.Latest.{Passing, pass_all, arriving, selection_lem}
use exaint.Web.Chart.History.Latest

abbrev scope : CandleScope
scope = record { symbol = "BTC"; interval = s5; tick_size = b'1' ∷ [] }

abbrev frame : CandlesUpdateFrame
frame = record { symbol = "BTC"; interval = s5; candles = revision (b'7' ∷ []) true ∷ [] }

abbrev response : CandleHistoryResponse
response = record {
  symbol = "BTC";
  interval = s5;
  server_time = 5000;
  candles = revision (b'5' ∷ []) false ∷ [];
}

abbrev signals : List Signal
signals =
    selects scope
    ∷ Stage.comes frame
    ∷ answers 1 scope (arrived response)
    ∷ Stage.pauses true
    ∷ Stage.comes frame
    ∷ Stage.pauses false
    ∷ []

has_session : (run signals new_history []).0.active_session ≡ some 0
unfolding run handle begin_select finish_select on_candles set_rendering_paused replace_session
    show_updates any_foreign merge_candles merge_into is_newer Map.get Map.set Map.values sort
    parsed_identifier parse_identifier
has_session = refl

is_drawing : (run signals new_history []).0.rendering_paused ≡ false
unfolding run handle begin_select finish_select on_candles set_rendering_paused replace_session
    show_updates any_foreign merge_candles merge_into is_newer Map.get Map.set Map.values sort
    parsed_identifier parse_identifier
is_drawing = refl

shown_lem_example :
    ((j : ℕ) → is_open j (run signals new_history []).1 ≡ (0 == j))
    × ((k : ℕ)
        → shown_at 0 k (run signals new_history []).1
          ≡ Map.get k (run signals new_history []).0.active_candles)
    × ((j : ℕ) (a : ChartAdapter)
        → Map.get j (run signals new_history []).1 ≡ some a
        → FollowsRules a.calls [])
shown_lem_example = shown_lem signals 0 has_session is_drawing

own_answer : is_foreign scope response ≡ false
unfolding any_foreign
own_answer = refl

abbrev before : List Passing
before = Latest.comes frame ∷ Latest.pauses true ∷ []

abbrev after : List Passing
after = Latest.comes frame ∷ Latest.pauses false ∷ []

selection_lem_example :
    let waiting = pass_all before (begin_select scope new_history).1 in
    let done =
      finish_select
        (begin_select scope new_history).1.generation
        scope
        (arrived response)
        waiting in
    (done.0 ≡ applied)
    × (rank_of (Map.get 1000 (pass_all after done.2).active_candles)
        ≡ highest "BTC" 1000 (response.candles ++ arriving scope before ++ arriving scope after))
selection_lem_example = selection_lem scope response before after new_history 1000 own_answer
