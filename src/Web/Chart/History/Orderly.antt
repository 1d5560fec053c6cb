-- ===== src/Web/Chart/History/Orderly.antt =====
-- candle-history-controller.ts: the candles it hands to a chart at once are in the order of time.
use exaint.Base.{
  ℕ, ◌≡◌, refl, sym, ◌∙◌, ap, subst, String, Bool, true, false, not, ◌||◌, Option, none, some, List,
  [], ◌∷◌, ◌++◌, ◌==◌, if◌then◌else◌, arith, Bool-cases, inl, inr, map, ltb, All, All-append,
}
use exaint.Base.Keys.{nat_eq, nat_order}
use exaint.Base.Map
use exaint.Base.Map.{Map}
use exaint.Base.Sort.{sort, insert}
use exaint.Base.Sorted.{Ascending, sort-Ascending, keys-Distinct}
use exaint.App.Wire.{Candle}
use exaint.Web.CandleData.{merge_candles, merge_into}
use exaint.Web.Chart.History.{
  CandleScope, CandlesUpdateFrame, Answer, failed, arrived, CandleHistoryController, ChartEffect,
  aborts, fetches, creates, disposes, sets_data, updates, by_start, aborting, disposing, differ,
  render, set_rendering_paused, begin_select, finish_select, replace_session, is_foreign, written,
  show_updates, show_live, same_scope, take_candles, on_candles, dispose,
}
use exaint.Web.Chart.History.Ranks.{IsStore, keyed, merge_into-IsStore, empty-IsStore}
use exaint.Web.Chart.History.Stage.{Signal, selects, answers, comes, pauses, leaves, handle}

-- Each candle starts after the one before it.
abbrev pub Rises : List Candle → Type 0
Rises cs = Ascending (map (λ (c : Candle). c.start_time) cs)

abbrev pub Orderly : ChartEffect → Type 0
Orderly (aborts g) = Unit
Orderly (fetches g scope) = Unit
Orderly (creates i scope) = Unit
Orderly (disposes i) = Unit
Orderly (sets_data i cs) = Rises cs
Orderly (updates i c) = Unit

starts-insert :
    (c : Candle) (cs : List Candle)
    → map (λ (d : Candle). d.start_time) (insert by_start c cs)
      ≡ insert ltb c.start_time (map (λ (d : Candle). d.start_time) cs)
unfolding insert
starts-insert c [] = refl
starts-insert c (d ∷ cs) = elim (Bool-cases (ltb d.start_time c.start_time)) [
  | inl past ↦ rw past (ap (λ (ks : List ℕ). d.start_time ∷ ks) (starts-insert c cs))
  | inr stop ↦ rw stop refl
]

starts-sort :
    (cs : List Candle)
    → map (λ (d : Candle). d.start_time) (sort by_start cs)
      ≡ sort ltb (map (λ (d : Candle). d.start_time) cs)
unfolding sort
starts-sort [] = refl
starts-sort (c ∷ cs) =
    starts-insert c (sort by_start cs) ∙ ap (insert ltb c.start_time) (starts-sort cs)

keys-keyed : (cs : List Candle) → Map.keys (keyed cs) ≡ map (λ (d : Candle). d.start_time) cs
unfolding Map.keys
keys-keyed [] = refl
keys-keyed (c ∷ cs) = ap (λ (ks : List ℕ). c.start_time ∷ ks) (keys-keyed cs)

sorted-Rises : (m : Map ℕ Candle) → IsStore m → Rises (sort by_start (Map.values m))
sorted-Rises m h =
    let at : Map.keys m ≡ map (λ (d : Candle). d.start_time) (Map.values m) =
      ap Map.keys (sym h.0) ∙ keys-keyed (Map.values m) in
    subst Ascending (ap (sort ltb) at ∙ sym (starts-sort (Map.values m)))
      (sort-Ascending (Map.keys m) (keys-Distinct m h.1))

merged-Rises :
    (symbol : String) (history live : List Candle) → Rises (merge_candles symbol history live)
unfolding merge_candles
merged-Rises symbol history live =
    sorted-Rises (merge_into symbol (history ++ live) [])
      (merge_into-IsStore symbol (history ++ live) [] empty-IsStore)

aborting-Orderly : (o : Option ℕ) → All Orderly (aborting o)
aborting-Orderly none = tt
aborting-Orderly (some g) = (tt, tt)

disposing-Orderly : (o : Option ℕ) → All Orderly (disposing o)
disposing-Orderly none = tt
disposing-Orderly (some i) = (tt, tt)

render-Orderly :
    (o : Option ℕ) (c : CandleHistoryController)
    → IsStore c.active_candles
    → All Orderly (render o c).0
render-Orderly none c h = tt
render-Orderly (some i) c h = (sorted-Rises c.active_candles h, tt)

set_rendering_paused-Orderly :
    (paused : Bool) (c : CandleHistoryController)
    → IsStore c.active_candles
    → All Orderly (set_rendering_paused paused c).0
unfolding set_rendering_paused
set_rendering_paused-Orderly paused c h =
    elim (Bool-cases (not (differ paused c.rendering_paused))) [
      | inl same ↦ rw same tt
      | inr new ↦ elim (Bool-cases (paused || not c.needs_full_render)) [
        | inl nothing ↦ rw (new, nothing) tt
        | inr full ↦
            rw (new, full)
              (render-Orderly c.active_session (record c { rendering_paused = paused }) h)
      ]
    ]

drawing-Orderly :
    (paused : Bool) (i : ℕ) (cs : List Candle)
    → Rises cs
    → All Orderly (if paused then [] else sets_data i cs ∷ [])
drawing-Orderly true i cs h = tt
drawing-Orderly false i cs h = (h, tt)

replace_session-Orderly :
    (scope : CandleScope) (merged : List Candle) (c : CandleHistoryController)
    → Rises merged
    → All Orderly (replace_session scope merged c).0
unfolding replace_session
replace_session-Orderly scope merged c h = (
  tt,
  All-append Orderly (disposing c.active_session) _ (disposing-Orderly c.active_session)
      (drawing-Orderly c.rendering_paused c.next_session merged h),
)

finish_select-Orderly :
    (g : ℕ) (scope : CandleScope) (answer : Answer) (c : CandleHistoryController)
    → All Orderly (finish_select g scope answer c).1
unfolding finish_select
finish_select-Orderly g scope (failed is_abort) c =
    elim (Bool-cases (not (g == c.generation) || is_abort)) [
      | inl late ↦ rw late tt
      | inr now ↦ rw now tt
    ]
finish_select-Orderly g scope (arrived response) c = elim (Bool-cases (not (g == c.generation))) [
  | inl late ↦ rw late tt
  | inr now ↦ elim (Bool-cases (is_foreign scope response)) [
    | inl foreign ↦ rw (now, foreign) tt
    | inr own ↦
        let merged = merge_candles scope.symbol response.candles c.buffered in
        rw (now, own)
          (replace_session-Orderly scope merged c
            (merged-Rises scope.symbol response.candles c.buffered))
  ]
]

show_updates-Orderly :
    (i : ℕ) (cs : List Candle) (c : CandleHistoryController) → All Orderly (show_updates i cs c).0
unfolding show_updates
show_updates-Orderly i [] c = tt
show_updates-Orderly i (d ∷ cs) c =
    ground (arith, show_updates-Orderly i cs c, show_updates-Orderly i cs (written d c))

on_candles-Orderly :
    (frame : CandlesUpdateFrame) (c : CandleHistoryController) → All Orderly (on_candles frame c).0
unfolding on_candles
on_candles-Orderly frame c = go c.pending_scope c.active_scope
  where
    live : (target : CandleScope) (o : Option ℕ) → All Orderly (show_live target frame o c).0
    live target none = tt
    live target (some i) = show_updates-Orderly i (merge_candles target.symbol [] frame.candles) c

    go : (pending active : Option CandleScope) → All Orderly (take_candles frame pending active c).0
    go (some target) active = elim (Bool-cases (not (same_scope target frame))) [
      | inl other ↦ rw other tt
      | inr same ↦ rw same tt
    ]
    go none none = tt
    go none (some target) = elim (Bool-cases (not (same_scope target frame))) [
      | inl other ↦ rw other tt
      | inr same ↦ rw same (live target c.active_session)
    ]

-- Whatever the controller is told, what it does to its charts is in order.
pub handle-Orderly :
    (s : Signal) (c : CandleHistoryController)
    → IsStore c.active_candles
    → All Orderly (handle s c).0
unfolding handle begin_select dispose
handle-Orderly (selects scope) c h =
    All-append Orderly (aborting c.abort) _ (aborting-Orderly c.abort) (tt, tt)
handle-Orderly (answers g scope answer) c h = finish_select-Orderly g scope answer c
handle-Orderly (comes frame) c h = on_candles-Orderly frame c
handle-Orderly (pauses paused) c h = set_rendering_paused-Orderly paused c h
handle-Orderly leaves c h =
    All-append Orderly (aborting c.abort) _ (aborting-Orderly c.abort)
      (disposing-Orderly c.active_session)
