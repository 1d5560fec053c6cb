-- ===== src/Web/Chart/History/Latest.antt =====
-- candle-history-controller.ts: which revision of a bucket a selection ends with.
use exaint.Base.{
  ℕ, ◌==◌, ◌≡◌, refl, sym, ◌∙◌, ap, Bool, true, false, none, some, List, [], ◌∷◌, ◌++◌,
  if◌then◌else◌, max, arith, append_assoc, append-nil, Bool-cases, Option-cases, inl, inr, All,
}
use exaint.Base.Keys.{nat_eq}
use exaint.Base.Map
use exaint.Base.Map.{Map}
use exaint.App.Wire.{Candle}
use exaint.Web.CandleData.{is_candle_newer, merge_candles}
use exaint.Web.CandleData.Newest.{rank_of, highest, add_one}
use exaint.Web.Chart.History.{
  CandleScope, CandlesUpdateFrame, CandleHistoryResponse, arrived, applied, CandleHistoryController,
  same_scope, set_rendering_paused, begin_select, is_foreign, finish_select, replace_session,
  written, show_updates, on_candles,
}
use exaint.Web.Chart.History.Ranks.{
  IsOf, highest-append, merge_candles-AllOf, highest-merge_candles, rank-write_all,
}

-- What comes between the steps of a selection.
pub data Passing : Type 0 where
  comes : CandlesUpdateFrame → Passing
  pauses : Bool → Passing

abbrev pub pass : Passing → CandleHistoryController → CandleHistoryController
pass (comes frame) c = (on_candles frame c).1
pass (pauses paused) c = (set_rendering_paused paused c).1

unfoldable pub pass_all : List Passing → CandleHistoryController → CandleHistoryController
pass_all [] c = c
pass_all (p ∷ ps) c = pass_all ps (pass p c)

-- The candles that come for a scope.
unfoldable pub arriving : CandleScope → List Passing → List Candle
arriving scope [] = []
arriving scope (comes frame ∷ ps) =
    if same_scope scope frame then frame.candles ++ arriving scope ps else arriving scope ps
arriving scope (pauses paused ∷ ps) = arriving scope ps

module _ (scope : CandleScope) where
  record IsWaiting (g : ℕ) (b : List Candle) (c : CandleHistoryController) : Type 0 where
    at_generation : c.generation ≡ g
    for_scope : c.pending_scope ≡ some scope
    keeps : c.buffered ≡ b

  pass-IsWaiting :
      (p : Passing) (g : ℕ) (b : List Candle) (c : CandleHistoryController)
      → IsWaiting g b c
      → IsWaiting g (b ++ arriving scope (p ∷ [])) (pass p c)
  unfolding arriving on_candles set_rendering_paused
  pass-IsWaiting (comes frame) g b c w = ground (arith, append-nil b, append-nil frame.candles)
  pass-IsWaiting (pauses paused) g b c w =
      ground (arith, append-nil b, Option-cases c.active_session)

  record IsShown (session : ℕ) (c : CandleHistoryController) : Type 0 where
    pending : c.pending_scope ≡ none
    active : c.active_scope ≡ some scope
    drawn : c.active_session ≡ some session

  abbrev pub rank_at : ℕ → CandleHistoryController → ℕ
  rank_at k c = rank_of (Map.get k c.active_candles)

  show_updates_rank :
      (session k : ℕ) (cs : List Candle) (c : CandleHistoryController)
      → All (IsOf scope.symbol) cs
      → IsShown session c
      → IsShown session (show_updates session cs c).1
        × (rank_at k (show_updates session cs c).1 ≡ max (rank_at k c) (highest scope.symbol k cs))
  unfolding show_updates highest
  show_updates_rank session k [] c h s = (s, omega arith)
  show_updates_rank session k (d ∷ cs) c h s =
      let step =
        add_one scope.symbol k d (Map.get d.start_time c.active_candles) c.active_candles h.0
          refl in
      elim (Bool-cases (is_candle_newer d (Map.get d.start_time c.active_candles))) [
        | inl newer ↦
            let later =
              show_updates_rank session k cs (written d c) h.1
                (record { pending = s.pending; active = s.active; drawn = s.drawn }) in
            rw (newer, h.0) (later.0, later.1 ∙ omega (arith, rw newer at step))
        | inr older ↦
            let later = show_updates_rank session k cs c h.1 s in
            rw (older, h.0) (later.0, later.1 ∙ omega (arith, rw older at step))
      ]

  arriving-nil : arriving scope [] ≡ []
  unfolding arriving
  arriving-nil = refl

  arriving-cons :
      (p : Passing) (ps : List Passing)
      → arriving scope (p ∷ ps) ≡ arriving scope (p ∷ []) ++ arriving scope ps
  unfolding arriving
  arriving-cons (comes frame) ps = ground (arith, append-nil frame.candles)
  arriving-cons (pauses paused) ps = refl

  waits :
      (ps : List Passing) (g : ℕ) (b : List Candle) (c : CandleHistoryController)
      → IsWaiting g b c
      → IsWaiting g (b ++ arriving scope ps) (pass_all ps c)
  unfolding pass_all
  waits [] g b c w = rw (arriving-nil, append-nil b) w
  waits (p ∷ ps) g b c w =
      rw (arriving-cons p ps, ← append_assoc)
        (waits ps g (b ++ arriving scope (p ∷ [])) (pass p c) (pass-IsWaiting p g b c w))

  abbrev Adds : ℕ → List Candle → CandleHistoryController → CandleHistoryController → Type 0
  Adds k cs c c' = rank_at k c' ≡ max (rank_at k c) (highest scope.symbol k cs)

  on_candles-shown :
      (session : ℕ) (frame : CandlesUpdateFrame) (c : CandleHistoryController)
      → IsShown session c
      → same_scope scope frame ≡ true
      → on_candles frame c ≡ show_updates session (merge_candles scope.symbol [] frame.candles) c
  unfolding on_candles
  on_candles-shown session frame c s same = ground arith

  pass-IsShown :
      (session k : ℕ) (p : Passing) (c : CandleHistoryController)
      → IsShown session c
      → IsShown session (pass p c) × Adds k (arriving scope (p ∷ [])) c (pass p c)
  unfolding arriving set_rendering_paused highest
  pass-IsShown session k (pauses paused) c s = ground (arith, Option-cases c.active_session)
  pass-IsShown session k (comes frame) c s = elim (Bool-cases (same_scope scope frame)) [
    | inl same ↦
        let cs = merge_candles scope.symbol [] frame.candles in
        let (shown, adds) =
          show_updates_rank session k cs c (merge_candles-AllOf scope.symbol k [] frame.candles)
            s in
        let e = on_candles-shown session frame c s same in
        let all : Adds k cs c (on_candles frame c).1 = rw e adds in
        (
          rw (pass, e) shown,
          rw (same, append-nil frame.candles)
              (all
                ∙ ap (max (rank_at k c)) (highest-merge_candles scope.symbol k [] frame.candles)),
        )
    | inr other ↦ unfold on_candles in ground arith
  ]

  shows :
      (session k : ℕ) (ps : List Passing) (c : CandleHistoryController)
      → IsShown session c
      → Adds k (arriving scope ps) c (pass_all ps c)
  unfolding pass_all arriving highest
  shows session k [] c s = omega arith
  shows session k (p ∷ ps) c s =
      let (shown, adds) = pass-IsShown session k p c s in
      shows session k ps (pass p c) shown
      ∙ omega (
        arith,
        adds,
        ap (highest scope.symbol k) (arriving-cons p ps),
        highest-append scope.symbol k (arriving scope (p ∷ [])) (arriving scope ps),
      )

  finishes :
      (response : CandleHistoryResponse) (k g : ℕ) (b : List Candle) (c : CandleHistoryController)
      → IsWaiting g b c
      → is_foreign scope response ≡ false
      → let done = finish_select g scope (arrived response) c in
        (done.0 ≡ applied)
        × IsShown c.next_session done.2
        × (rank_at k done.2 ≡ highest scope.symbol k (response.candles ++ b))
  unfolding finish_select replace_session
  finishes response k g b c w own =
      let here : (g == c.generation) ≡ true =
        (nat_eq.beq_iff g c.generation).1 (sym w.at_generation) in
      rw (here, own)
        (
          refl,
          record { pending = refl; active = refl; drawn = refl },
          rank-write_all scope.symbol k response.candles c.buffered
              ∙ ap (λ (l : List Candle). highest scope.symbol k (response.candles ++ l)) w.keeps,
        )

  -- A selection whose answer is of its scope, from any state of the controller, with any candles and
  -- any pauses of the rendering before the answer and after it, is applied. What the controller then
  -- holds at a start time is ranked as the highest among the answer's candles and all that came for
  -- the scope.
  pub selection_lem :
      (response : CandleHistoryResponse) (before after : List Passing) (c : CandleHistoryController)
      (k : ℕ)
      → is_foreign scope response ≡ false
      → let waiting = pass_all before (begin_select scope c).1 in
        let done =
          finish_select (begin_select scope c).1.generation scope (arrived response) waiting in
        (done.0 ≡ applied)
        × (rank_at k (pass_all after done.2)
            ≡ highest scope.symbol k
                (response.candles ++ arriving scope before ++ arriving scope after))
  unfolding begin_select
  selection_lem response before after c k own =
      let chosen = (begin_select scope c).1 in
      let w =
        waits before chosen.generation [] chosen
          (record { at_generation = refl; for_scope = refl; keeps = refl }) in
      let (done, shown, rank) =
        finishes response k chosen.generation (arriving scope before) (pass_all before chosen) w
          own in
      (
        done,
        shows (pass_all before chosen).next_session k after _ shown
            ∙ omega (
              arith,
              rank,
              highest-append scope.symbol k (response.candles ++ arriving scope before)
                  (arriving scope after),
            ),
      )
