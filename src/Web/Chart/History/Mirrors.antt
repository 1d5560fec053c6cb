-- ===== src/Web/Chart/History/Mirrors.antt =====
-- candle-history-controller.ts: what holds between the controller and its charts, and the updates that keep it.
use exaint.Base.{
  ℕ, ◌≤◌, ◌≡◌, refl, sym, ◌∙◌, ap, subst, true, false, Option, none, some, List, [], ◌∷◌, ◌++◌,
  ◌==◌, if◌then◌else◌, arith, Bool-cases, inl, inr, eq_of_some, ◌≢◌,
}
use exaint.Base.Keys.{nat_eq}
use exaint.Base.Map
use exaint.Base.Map.{Map, get-set}
use exaint.App.Wire.{Candle}
use exaint.Web.CandleData.{is_candle_newer}
use exaint.Web.Chart.Adapter.{ChartAdapter, new_adapter, keep_candles, set_data, update}
use exaint.Web.Chart.Adapter
use exaint.Web.Chart.History.{
  CandleHistoryController, ChartEffect, aborting, disposing, updates, written, show_updates,
  write_all,
}
use exaint.Web.Chart.History.Ranks.{IsStore, set-IsStore}
use exaint.Web.Chart.History.Stage.{Stage, apply_to, perform, perform_all}

abbrev pub SameCandles : CandleHistoryController → ChartAdapter → Type 0
SameCandles c a = (k : ℕ) → Map.get k a.candles_by_second ≡ Map.get k c.active_candles

abbrev pub Draws : CandleHistoryController → Stage → ℕ → Type 0
Draws c stage i =
    (a : ChartAdapter) × (Map.get i stage ≡ some a)
    × (a.disposed ≡ false)
    × (c.needs_full_render ≡ false → SameCandles c a)

pub record Mirrors (c : CandleHistoryController) (stage : Stage) : Type 0 where
  pub live :
      (i : ℕ) (a : ChartAdapter)
      → Map.get i stage ≡ some a
      → a.disposed ≡ false
      → c.active_session ≡ some i
  pub fresh : (i : ℕ) → c.next_session ≤ i → Map.get i stage ≡ none
  pub drawn : (i : ℕ) → c.active_session ≡ some i → Draws c stage i
  pub idle : c.active_session ≡ none → c.needs_full_render ≡ false
  pub rendered : c.rendering_paused ≡ false → c.needs_full_render ≡ false
  pub stored : IsStore c.active_candles

pub get-apply_to :
    (i j : ℕ) (f : ChartAdapter → ChartAdapter) (stage : Stage) (a : ChartAdapter)
    → Map.get i stage ≡ some a
    → Map.get j (apply_to i f stage) ≡ (if i == j then some (f a) else Map.get j stage)
unfolding apply_to
get-apply_to i j f stage a h = rw (apply_to, h) (get-set i j (f a) stage)

pub get-apply_to_self :
    (i : ℕ) (f : ChartAdapter → ChartAdapter) (stage : Stage) (a : ChartAdapter)
    → Map.get i stage ≡ some a
    → Map.get i (apply_to i f stage) ≡ some (f a)
get-apply_to_self i f stage a h = ground (arith, get-apply_to i i f stage a)

pub get-apply_to_other :
    (i j : ℕ) (f : ChartAdapter → ChartAdapter) (stage : Stage) (a : ChartAdapter)
    → Map.get i stage ≡ some a
    → (i == j) ≡ false
    → Map.get j (apply_to i f stage) ≡ Map.get j stage
get-apply_to_other i j f stage a h miss = ground (arith, get-apply_to i j f stage a)

pub keep_candles_lem :
    (cs : List Candle) (a : ChartAdapter)
    → ((keep_candles cs a).candles_by_second ≡ write_all cs a.candles_by_second)
      × ((keep_candles cs a).disposed ≡ a.disposed)
unfolding keep_candles write_all
keep_candles_lem [] a = (refl, refl)
keep_candles_lem (c ∷ cs) a = keep_candles_lem cs (Adapter.keep_candle c a)

pub set_data_lem :
    (cs : List Candle) (a : ChartAdapter)
    → a.disposed ≡ false
    → ((set_data cs a).candles_by_second ≡ write_all cs []) × ((set_data cs a).disposed ≡ false)
unfolding set_data
set_data_lem cs a h =
    let (kept, same) =
      keep_candles_lem cs (record a { candles_by_second = []; latest_start_time = none }) in
    (ground arith, ground arith)

pub dispose_disposes : (a : ChartAdapter) → (Adapter.dispose a).disposed ≡ true
unfolding Adapter.dispose
dispose_disposes a = ground arith

-- The session's adapter changes to `f a`, which is open and shows the candles.
module _ (c c' : CandleHistoryController) (stage : Stage) (i : ℕ)
    (f : ChartAdapter → ChartAdapter) where
  pub change-Mirrors :
      Mirrors c stage
      → c.active_session ≡ some i
      → c'.active_session ≡ some i
      → c'.next_session ≡ c.next_session
      → (c'.rendering_paused ≡ false → c'.needs_full_render ≡ false)
      → IsStore c'.active_candles
      → ((a : ChartAdapter)
          → a.disposed ≡ false
          → (c.needs_full_render ≡ false → SameCandles c a)
          → ((f a).disposed ≡ false) × (c'.needs_full_render ≡ false → SameCandles c' (f a)))
      → Mirrors c' (apply_to i f stage)
  change-Mirrors m on on' next rendered stored shows =
      let (a, here, is_open, same) = m.drawn i on in
      let at = λ (j : ℕ). get-apply_to_other i j f stage a here in
      record {
        live = λ j b e o. elim (Bool-cases (i == j)) [
          | inl hit ↦ on' ∙ ap some ((nat_eq.beq_iff i j).0 hit)
          | inr miss ↦ on' ∙ sym on ∙ m.live j b (sym (at j miss) ∙ e) o
        ];
        fresh = λ j le. elim (Bool-cases (i == j)) [
          | inl hit ↦
              let same_index : i ≡ j = (nat_eq.beq_iff i j).0 hit in
              let gone : Map.get i stage ≡ none = m.fresh i (ground arith) in cc
          | inr miss ↦ at j miss ∙ m.fresh j (ground arith)
        ];
        drawn = λ j e.
            let same_index : i ≡ j = eq_of_some (sym on' ∙ e) in
            let (still_open, follows) = shows a is_open same in
            subst (Draws c' (apply_to i f stage)) same_index
              (f a, get-apply_to_self i f stage a here, still_open, follows);
        idle = λ e. cc;
        rendered = rendered;
        stored = stored;
      }

pub update-Mirrors :
    (i : ℕ) (d : Candle) (c : CandleHistoryController) (stage : Stage)
    → Mirrors c stage
    → c.active_session ≡ some i
    → c.rendering_paused ≡ false
    → Mirrors (written d c) (apply_to i (update d) stage)
unfolding update
update-Mirrors i d c stage m on moving =
    change-Mirrors c (written d c) stage i (update d) m on on refl
      (λ _. rw moving (m.rendered moving)) (set-IsStore d c.active_candles m.stored)
      (λ a is_open same. (
        ground arith,
        λ _ k. ground (
          arith,
          same (m.rendered moving) k,
          get-set d.start_time k d a.candles_by_second,
          get-set d.start_time k d c.active_candles,
        ),
      ))

pub paused-Mirrors :
    (d : Candle) (c : CandleHistoryController) (stage : Stage)
    → Mirrors c stage
    → c.rendering_paused ≡ true
    → (i : ℕ) → c.active_session ≡ some i
    → Mirrors (written d c) stage
paused-Mirrors d c stage m still i on = record {
  live = m.live;
  fresh = m.fresh;
  drawn = λ j e.
      let (a, here, is_open, _) = m.drawn j e in (a, here, is_open, λ full. absurd (ground arith));
  idle = λ e. cc;
  rendered = λ e. cc;
  stored = set-IsStore d c.active_candles m.stored;
}

-- One update, before the effects `es` of the others.
pub written-Mirrors :
    (i : ℕ) (d : Candle) (c : CandleHistoryController) (stage : Stage) (es : List ChartEffect)
    → Mirrors c stage
    → c.active_session ≡ some i
    → (stage' : Stage) × Mirrors (written d c) stage'
      × (perform_all (if c.rendering_paused then es else updates i d ∷ es) stage
          ≡ perform_all es stage')
unfolding perform_all
written-Mirrors i d c stage es m on = elim (Bool-cases c.rendering_paused) [
  | inl still ↦ (stage, paused-Mirrors d c stage m still i on, rw still refl)
  | inr moving ↦
      (apply_to i (update d) stage, update-Mirrors i d c stage m on moving, rw moving refl)
]

pub show_updates-Mirrors :
    (i : ℕ) (cs : List Candle) (c : CandleHistoryController) (stage : Stage)
    → Mirrors c stage
    → c.active_session ≡ some i
    → Mirrors (show_updates i cs c).1 (perform_all (show_updates i cs c).0 stage)
unfolding show_updates perform_all
show_updates-Mirrors i [] c stage m on = m
show_updates-Mirrors i (d ∷ cs) c stage m on =
    elim (Bool-cases (is_candle_newer d (Map.get d.start_time c.active_candles))) [
      | inr older ↦ rw older (show_updates-Mirrors i cs c stage m on)
      | inl newer ↦
          let rest = show_updates i cs (written d c) in
          let (stage', m', e) = written-Mirrors i d c stage rest.0 m on in
          rw newer
            (subst (Mirrors rest.1) (sym e) (show_updates-Mirrors i cs (written d c) stage' m' on))
    ]

pub perform_all-append :
    (es fs : List ChartEffect) (stage : Stage)
    → perform_all (es ++ fs) stage ≡ perform_all fs (perform_all es stage)
unfolding perform_all
perform_all-append [] fs stage = refl
perform_all-append (e ∷ es) fs stage = perform_all-append es fs (perform e stage)

pub perform_all-aborting :
    (o : Option ℕ) (es : List ChartEffect) (stage : Stage)
    → perform_all (aborting o ++ es) stage ≡ perform_all es stage
unfolding perform_all
perform_all-aborting none es stage = refl
perform_all-aborting (some g) es stage = refl

-- A session that is retired is not open any more; the others stay.
pub retire :
    (i j : ℕ) (stage : Stage) (a b : ChartAdapter)
    → Map.get i stage ≡ some a
    → Map.get j (apply_to i Adapter.dispose stage) ≡ some b
    → b.disposed ≡ false
    → ((i == j) ≡ false) × (Map.get j stage ≡ some b)
retire i j stage a b h e o =
    ground (arith, get-apply_to i j Adapter.dispose stage a, dispose_disposes a)

-- The stage once the old session is disposed, where a new one stands or none does.
pub record Cleared (c : CandleHistoryController) (stage stage' : Stage) : Type 0 where
  pub closed :
      (j : ℕ) (b : ChartAdapter)
      → Map.get j stage' ≡ some b
      → b.disposed ≡ false
      → (Map.get j stage ≡ some b) × (c.active_session ≢ some j)
  pub kept : (j : ℕ) → c.active_session ≢ some j → Map.get j stage' ≡ Map.get j stage

pub clears :
    (c : CandleHistoryController) (stage : Stage) (o : Option ℕ)
    → c.active_session ≡ o
    → ((i : ℕ) → o ≡ some i → (a : ChartAdapter) × (Map.get i stage ≡ some a))
    → Cleared c stage (perform_all (disposing o) stage)
unfolding perform_all
clears c stage none e there = record { closed = λ j b h o. (h, λ x. cc); kept = λ j n. refl }
clears c stage (some i) e there =
    let (a, here) = there i refl in
    record {
      closed = λ j b h o.
          let (other, still) = retire i j stage a b here h o in
          (
            still,
            λ x.
                let same_index : i ≡ j = eq_of_some (sym e ∙ x) in
                cc ((nat_eq.beq_iff i j).1 same_index),
          );
      kept = λ j n.
          get-apply_to_other i j Adapter.dispose stage a here (elim (Bool-cases (i == j)) [
            | inl hit ↦ absurd (n (e ∙ ap some ((nat_eq.beq_iff i j).0 hit)))
            | inr miss ↦ miss
          ]);
    }
