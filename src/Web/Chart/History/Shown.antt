-- ===== src/Web/Chart/History/Shown.antt =====
-- candle-history-controller.ts over candlestick-chart-adapter.ts: the adapters follow the controller.
use exaint.Base.{
  ℕ, suc, ◌≡◌, refl, sym, ◌∙◌, ap, subst, Bool, false, not, ◌||◌, Option, none, some, List, [], ◌∷◌,
  ◌==◌, arith, Bool-cases, Option-cases, inl, inr, eq_of_some,
}
use exaint.Base.Keys.{nat_eq}
use exaint.Base.Map
use exaint.Base.Map.{Map, get-set}
use exaint.App.Wire.{Candle}
use exaint.Web.CandleData.{merge_candles}
use exaint.Web.Chart.Adapter.{ChartAdapter}
use exaint.Web.Chart.History.{
  CandleScope, CandlesUpdateFrame, Answer, arrived, failed, CandleHistoryController, drop_pending,
  fetches, same_scope, begin_select, is_foreign, finish_select, replace_session, show_live,
  take_candles, on_candles, new_history,
}
use exaint.Web.Chart.History.Ranks.{empty-IsStore}
use exaint.Web.Chart.History.Stage.{
  Stage, perform_all, Signal, selects, answers, comes, pauses, leaves, handle, run,
}
use exaint.Web.Chart.History.Told.{told_bars, told_to_close}
use exaint.Web.Chart.History.Orderly.{handle-Orderly}
use exaint.Web.Chart.History.InTurn.{FollowsRules}
use exaint.Web.Chart.History.Charts.{AllInTurn, empty-AllInTurn, perform_all-AllInTurn}
use exaint.Web.Chart.History.Mirrors.{Mirrors, show_updates-Mirrors, perform_all-aborting}
use exaint.Web.Chart.History.Sessions.{
  dispose-Mirrors, replace_session-Mirrors, Follows, set_rendering_paused-Mirrors,
}

begin_select-Mirrors :
    (scope : CandleScope) (c : CandleHistoryController) (stage : Stage)
    → Mirrors c stage
    → Follows stage (begin_select scope c)
unfolding begin_select
begin_select-Mirrors scope c stage m =
    let c' = (begin_select scope c).1 in
    subst (Mirrors c')
      (sym (perform_all-aborting c.abort (fetches (suc c.generation) scope ∷ []) stage))
      (unfold perform_all in
        record {
          live = m.live;
          fresh = m.fresh;
          drawn = m.drawn;
          idle = m.idle;
          rendered = m.rendered;
          stored = m.stored;
        })

drop_pending-Mirrors :
    (c : CandleHistoryController) (stage : Stage) → Mirrors c stage → Mirrors (drop_pending c) stage
drop_pending-Mirrors c stage m = record {
  live = m.live;
  fresh = m.fresh;
  drawn = m.drawn;
  idle = m.idle;
  rendered = m.rendered;
  stored = m.stored;
}

finish_select-Mirrors :
    (g : ℕ) (scope : CandleScope) (answer : Answer) (c : CandleHistoryController) (stage : Stage)
    → Mirrors c stage
    → Follows stage (handle (answers g scope answer) c)
unfolding handle finish_select perform_all
finish_select-Mirrors g scope (failed is_abort) c stage m =
    elim (Bool-cases (not (g == c.generation) || is_abort)) [
      | inl late ↦
          let e : handle (answers g scope (failed is_abort)) c ≡ ([], c) = ground arith in
          subst (Follows stage) (sym e) m
      | inr now ↦
          let e : handle (answers g scope (failed is_abort)) c ≡ ([], drop_pending c) =
            ground arith in
          subst (Follows stage) (sym e) (drop_pending-Mirrors c stage m)
    ]
finish_select-Mirrors g scope (arrived response) c stage m = elim (Bool-cases (g == c.generation)) [
  | inr late ↦
      let e : handle (answers g scope (arrived response)) c ≡ ([], c) = ground arith in
      subst (Follows stage) (sym e) m
  | inl now ↦ elim (Bool-cases (is_foreign scope response)) [
    | inl foreign ↦
        let e : handle (answers g scope (arrived response)) c ≡ ([], drop_pending c) =
          rw (now, foreign) refl in
        subst (Follows stage) (sym e) (drop_pending-Mirrors c stage m)
    | inr own ↦
        let merged = merge_candles scope.symbol response.candles c.buffered in
        let e : handle (answers g scope (arrived response)) c ≡ replace_session scope merged c =
          rw (now, own) refl in
        subst (Follows stage) (sym e) (replace_session-Mirrors scope c stage merged m)
  ]
]

on_candles-Mirrors :
    (frame : CandlesUpdateFrame) (c : CandleHistoryController) (stage : Stage)
    → Mirrors c stage
    → Follows stage (on_candles frame c)
unfolding on_candles
on_candles-Mirrors frame c stage m = go c.pending_scope c.active_scope
  where
    live :
        (target : CandleScope) (o : Option ℕ)
        → c.active_session ≡ o
        → Follows stage (show_live target frame o c)
    live target none on = unfold perform_all in m
    live target (some i) on =
        show_updates-Mirrors i (merge_candles target.symbol [] frame.candles) c stage m on

    go : (pending active : Option CandleScope) → Follows stage (take_candles frame pending active c)
    go (some target) active = elim (Bool-cases (same_scope target frame)) [
      | inr other ↦ rw other (unfold perform_all in m)
      | inl same ↦ rw same (
          unfold perform_all in
          record {
            live = m.live;
            fresh = m.fresh;
            drawn = m.drawn;
            idle = m.idle;
            rendered = m.rendered;
            stored = m.stored;
          })
    ]
    go none none = unfold perform_all in m
    go none (some target) = elim (Bool-cases (same_scope target frame)) [
      | inr other ↦ rw other (unfold perform_all in m)
      | inl same ↦ rw same (live target c.active_session refl)
    ]

handle-Mirrors :
    (s : Signal) (c : CandleHistoryController) (stage : Stage)
    → Mirrors c stage
    → Follows stage (handle s c)
unfolding handle
handle-Mirrors (selects scope) c stage m = begin_select-Mirrors scope c stage m
handle-Mirrors (answers g scope answer) c stage m = finish_select-Mirrors g scope answer c stage m
handle-Mirrors (comes frame) c stage m = on_candles-Mirrors frame c stage m
handle-Mirrors (pauses paused) c stage m = set_rendering_paused-Mirrors paused c stage m
handle-Mirrors leaves c stage m = dispose-Mirrors c stage m

run-Mirrors :
    (ss : List Signal) (c : CandleHistoryController) (stage : Stage)
    → Mirrors c stage
    → Mirrors (run ss c stage).0 (run ss c stage).1
unfolding run
run-Mirrors [] c stage m = m
run-Mirrors (s ∷ ss) c stage m =
    run-Mirrors ss (handle s c).1 (perform_all (handle s c).0 stage) (handle-Mirrors s c stage m)

start-Mirrors : Mirrors new_history []
unfolding Map.get
start-Mirrors = record {
  live = λ i a h o. cc;
  fresh = λ i le. refl;
  drawn = λ i e. cc;
  idle = λ e. refl;
  rendered = λ e. refl;
  stored = empty-IsStore;
}

run-AllInTurn :
    (ss : List Signal) (c : CandleHistoryController) (stage : Stage)
    → Mirrors c stage
    → AllInTurn stage
    → AllInTurn (run ss c stage).1
unfolding run
run-AllInTurn [] c stage m all = all
run-AllInTurn (s ∷ ss) c stage m all =
    run-AllInTurn ss (handle s c).1 (perform_all (handle s c).0 stage) (handle-Mirrors s c stage m)
      (perform_all-AllInTurn (handle s c).0 stage (handle-Orderly s c m.stored) all)

-- The library was told to make the chart, and not to close it.
abbrev pub is_open : ℕ → Stage → Bool
is_open j stage = elim (Map.get j stage) [ none ↦ false | some a ↦ not (told_to_close a.calls) ]

-- The bar of a chart at a start time, by the calls on the library.
abbrev pub shown_at : ℕ → ℕ → Stage → Option Candle
shown_at i k stage = elim (Map.get i stage) [
  | none ↦ none
  | some a ↦ Map.get k (told_bars a.calls [])
]

is_open-some :
    (j : ℕ) (stage : Stage) (a : ChartAdapter)
    → AllInTurn stage
    → Map.get j stage ≡ some a
    → is_open j stage ≡ not a.disposed
is_open-some j stage a all h = rw (is_open, h) (ap not (all j a h).told.closed)

shown_at-some :
    (i k : ℕ) (stage : Stage) (a : ChartAdapter)
    → AllInTurn stage
    → Map.get i stage ≡ some a
    → shown_at i k stage ≡ Map.get k a.candles_by_second
shown_at-some i k stage a all h = rw (shown_at, h) (ap (Map.get k) (all i a h).told.bars)

only_one :
    (c : CandleHistoryController) (stage : Stage) (i j : ℕ)
    → Mirrors c stage
    → AllInTurn stage
    → c.active_session ≡ some i
    → is_open j stage ≡ (i == j)
only_one c stage i j m all on = elim (Bool-cases (i == j)) [
  | inl hit ↦
      let same_index : i ≡ j = (nat_eq.beq_iff i j).0 hit in
      let (a, here, still_open, _) = m.drawn j (on ∙ ap some same_index) in
      is_open-some j stage a all here ∙ ap not still_open ∙ sym hit
  | inr miss ↦ elim (Option-cases (Map.get j stage)) [
    | inl none_there ↦ rw (is_open, none_there) (sym miss)
    | inr (b, there) ↦ elim (Bool-cases b.disposed) [
      | inl gone ↦ is_open-some j stage b all there ∙ ap not gone ∙ sym miss
      | inr still_open ↦
          let same_index : i ≡ j = eq_of_some (sym on ∙ m.live j b there still_open) in
          absurd (cc (sym miss ∙ (nat_eq.beq_iff i j).1 same_index))
    ]
  ]
]

-- Whatever happens to a new controller, in any order (selections, answers to any of them, late ones
-- and failures, candles, pauses, its end): where it has a session and its rendering is not paused,
-- the chart library was told to close every chart but that session's, and what it was told to draw
-- on this one is at every start time the candle that the controller holds there. On every chart there
-- ever was, the candles that were set at once rise in time, an update is marked as one of the past
-- exactly where a later candle was drawn, and no call follows the closing.
pub shown_lem :
    (ss : List Signal) (i : ℕ)
    → (run ss new_history []).0.active_session ≡ some i
    → (run ss new_history []).0.rendering_paused ≡ false
    → ((j : ℕ) → is_open j (run ss new_history []).1 ≡ (i == j))
      × ((k : ℕ)
          → shown_at i k (run ss new_history []).1
            ≡ Map.get k (run ss new_history []).0.active_candles)
      × ((j : ℕ) (a : ChartAdapter)
          → Map.get j (run ss new_history []).1 ≡ some a
          → FollowsRules a.calls [])
shown_lem ss i on moving =
    let (c, stage) = run ss new_history [] in
    let m = run-Mirrors ss new_history [] start-Mirrors in
    let all = run-AllInTurn ss new_history [] start-Mirrors empty-AllInTurn in
    let (a, here, _, same) = m.drawn i on in
    (
      λ j. only_one c stage i j m all on,
      λ k. shown_at-some i k stage a all here ∙ same (m.rendered moving) k,
      λ j b at. (all j b at).rules,
    )
