-- ===== src/Web/Chart/History/Sessions.antt =====
-- candle-history-controller.ts: sessions that replace one another, and pauses, keep the charts right.
use exaint.Base.{
  ℕ, suc, ◌≡◌, refl, sym, ◌∙◌, ap, subst, Bool, true, false, not, ◌||◌, Option, none, some, List,
  [], ◌∷◌, ◌==◌, if◌then◌else◌, arith, Bool-cases, inl, inr, eq_of_some, ◌≢◌,
}
use exaint.Base.Keys.{nat_eq}
use exaint.Base.Map
use exaint.Base.Map.{Map, get-set}
use exaint.Base.Sort.{sort}
use exaint.App.Wire.{Candle}
use exaint.Web.Chart.Adapter.{new_adapter, set_data}
use exaint.Web.Chart.History.{
  CandleScope, CandleHistoryController, ChartEffect, disposing, by_start, differ, drop_pending,
  sets_data, render, set_rendering_paused, replace_session, dispose,
}
use exaint.Web.Chart.History.Ranks.{write_all-IsStore, empty-IsStore, get-write_sorted}
use exaint.Web.Chart.History.Stage.{Stage, apply_to, perform_all}
use exaint.Web.Chart.History.Mirrors.{
  Draws, Mirrors, set_data_lem, change-Mirrors, perform_all-append, perform_all-aborting, clears,
}

pub dispose-Mirrors :
    (c : CandleHistoryController) (stage : Stage)
    → Mirrors c stage
    → Mirrors (dispose c).1 (perform_all (dispose c).0 stage)
unfolding dispose
dispose-Mirrors c stage m =
    let cleared =
      clears c stage c.active_session refl
        (λ i on. let (a, here, _, _) = m.drawn i on in (a, here)) in
    rw (perform_all-aborting c.abort (disposing c.active_session) stage) (record {
      live = λ j b h o.
          let (there, gone) = cleared.closed j b h o in absurd (gone (m.live j b there o));
      fresh = λ j le.
          let new : Map.get j stage ≡ none = m.fresh j le in
          cleared.kept j (λ on. let (a, here, _, _) = m.drawn j on in cc) ∙ new;
      drawn = λ j e. cc;
      idle = λ e. refl;
      rendered = λ e. refl;
      stored = empty-IsStore;
    })

-- The new session stands empty, the old one is disposed.
module _ (scope : CandleScope) (c : CandleHistoryController) (stage : Stage) where
  abbrev pub opened : CandleHistoryController
  opened = record (drop_pending c) {
    active_session = some c.next_session;
    next_session = suc c.next_session;
    active_scope = some scope;
    active_candles = [];
    needs_full_render = false;
  }

  abbrev pub new_stage : Stage
  new_stage = Map.set c.next_session new_adapter stage

  pub opened-Mirrors :
      Mirrors c stage → Mirrors opened (perform_all (disposing c.active_session) new_stage)
  opened-Mirrors m =
      let id = c.next_session in
      let unused : Map.get id stage ≡ none = m.fresh id (omega arith) in
      let fresh_id : c.active_session ≢ some id = λ on. let (a, here, _, _) = m.drawn id on in cc in
      let cleared = clears c new_stage c.active_session refl (λ i on.
        let (a, here, _, _) = m.drawn i on in
        (a, ground (arith, get-set id i new_adapter stage))) in
      record {
        live = λ j b h o.
            let (there, gone) = cleared.closed j b h o in
            elim (Bool-cases (id == j)) [
              | inl hit ↦ ap some ((nat_eq.beq_iff id j).0 hit)
              | inr miss ↦
                  absurd (gone (m.live j b (ground (arith, get-set id j new_adapter stage)) o))
            ];
        fresh = λ j le.
            let before : Map.get j stage ≡ none = m.fresh j (omega (arith, le)) in
            cleared.kept j (λ on. let (a, here, _, _) = m.drawn j on in cc)
            ∙ ground (arith, get-set id j new_adapter stage);
        drawn = λ j e.
            let same_index : id ≡ j = eq_of_some e in
            subst (Draws opened (perform_all (disposing c.active_session) new_stage)) same_index (
              new_adapter,
              cleared.kept id fresh_id ∙ ground (arith, get-set id id new_adapter stage),
              refl,
              λ full k. refl,
            );
        idle = λ e. cc;
        rendered = λ e. refl;
        stored = empty-IsStore;
      }

  abbrev pub replaced : List Candle → CandleHistoryController
  replaced merged = (replace_session scope merged c).1

  abbrev pub drawing : List Candle → List ChartEffect
  drawing merged = if c.rendering_paused then [] else sets_data c.next_session merged ∷ []

  -- The new session is given its candles, unless the rendering is paused.
  pub drawing-Mirrors :
      (merged : List Candle) (on_stage : Stage)
      → Mirrors c stage
      → Mirrors opened on_stage
      → (stage' : Stage) × Mirrors (replaced merged) stage'
        × (perform_all (drawing merged) on_stage ≡ stage')
  unfolding replace_session perform_all
  drawing-Mirrors merged on_stage m o = elim (Bool-cases c.rendering_paused) [
    | inl still ↦ (
      on_stage,
      record {
        live = o.live;
        fresh = o.fresh;
        drawn = λ j e.
            let (a, here, is_open, _) = o.drawn j e in
            (a, here, is_open, λ full. absurd (ground arith));
        idle = λ e. cc;
        rendered = λ e. cc;
        stored = write_all-IsStore merged [] empty-IsStore;
      },
      rw still refl,
    )
    | inr moving ↦ (
      apply_to c.next_session (set_data merged) on_stage,
      change-Mirrors opened (replaced merged) on_stage c.next_session (set_data merged) o refl refl
          refl (λ e. ground (arith, m.rendered moving)) (write_all-IsStore merged [] empty-IsStore)
          (λ a is_open same.
            let (written_in, still_open) = set_data_lem merged a is_open in
            (still_open, λ full k. ap (Map.get k) written_in)),
      rw moving refl,
    )
  ]

  pub replace_session-Mirrors :
      (merged : List Candle)
      → Mirrors c stage
      → Mirrors (replaced merged) (perform_all (replace_session scope merged c).0 stage)
  unfolding replace_session perform_all
  replace_session-Mirrors merged m =
      let retired = perform_all (disposing c.active_session) new_stage in
      let (stage', m', e) = drawing-Mirrors merged retired m (opened-Mirrors m) in
      subst (Mirrors (replaced merged))
        (sym (perform_all-append (disposing c.active_session) (drawing merged) new_stage ∙ e)) m'

abbrev pub Follows : Stage → List ChartEffect × CandleHistoryController → Type 0
Follows stage r = Mirrors r.1 (perform_all r.0 stage)

-- Only the flag changes, and it may.
pub flag-Mirrors :
    (paused : Bool) (c : CandleHistoryController) (stage : Stage)
    → Mirrors c stage
    → (paused ≡ false → c.needs_full_render ≡ false)
    → Mirrors (record c { rendering_paused = paused }) stage
flag-Mirrors paused c stage m ok = record {
  live = m.live;
  fresh = m.fresh;
  drawn = m.drawn;
  idle = m.idle;
  rendered = ok;
  stored = m.stored;
}

pub resume-Mirrors :
    (c : CandleHistoryController) (stage : Stage) (o : Option ℕ)
    → Mirrors c stage
    → c.active_session ≡ o
    → c.needs_full_render ≡ true
    → Follows stage (render o (record c { rendering_paused = false }))
unfolding perform_all
resume-Mirrors c stage none m on full = absurd (cc (m.idle on))
resume-Mirrors c stage (some i) m on full =
    let cs = sort by_start (Map.values c.active_candles) in
    change-Mirrors c (record c { rendering_paused = false; needs_full_render = false }) stage i
      (set_data cs) m on on refl (λ e. refl) m.stored
      (λ a is_open same.
        let (written_in, still_open) = set_data_lem cs a is_open in
        (
          still_open,
          λ _ k. ap (Map.get k) written_in ∙ get-write_sorted k c.active_candles m.stored,
        ))

pub set_rendering_paused-Mirrors :
    (paused : Bool) (c : CandleHistoryController) (stage : Stage)
    → Mirrors c stage
    → Follows stage (set_rendering_paused paused c)
unfolding set_rendering_paused perform_all
set_rendering_paused-Mirrors paused c stage m =
    let c' = record c { rendering_paused = paused } in
    elim (Bool-cases (differ paused c.rendering_paused)) [
      | inr same ↦
          let e : set_rendering_paused paused c ≡ ([], c) = ground arith in
          subst (Follows stage) (sym e) m
      | inl new ↦ elim (Bool-cases (paused || not c.needs_full_render)) [
        | inl nothing ↦
            let e : set_rendering_paused paused c ≡ ([], c') = ground arith in
            subst (Follows stage) (sym e) (flag-Mirrors paused c stage m (λ on. ground arith))
        | inr full ↦
            let e : set_rendering_paused paused c
                ≡ render c.active_session (record c { rendering_paused = false }) =
              ground arith in
            let needed : c.needs_full_render ≡ true = ground arith in
            subst (Follows stage) (sym e) (resume-Mirrors c stage c.active_session m refl needed)
      ]
    ]
