-- ===== src/Web/Chart/History/Charts.antt =====
-- candlestick-chart-adapter.ts: the effects of the controller keep every chart's calls in turn.
use exaint.Base.{
  ℕ, ◌≡◌, refl, sym, ◌∙◌, ap, subst, some, List, [], ◌∷◌, ◌==◌, arith, All, Bool-cases,
  Option-cases, inl, inr, eq_of_some,
}
use exaint.Base.Keys.{nat_eq}
use exaint.Base.Map
use exaint.Base.Map.{Map, get-set}
use exaint.Web.Chart.Adapter.{ChartAdapter, new_adapter, set_data, update}
use exaint.Web.Chart.Adapter
use exaint.Web.Chart.History.{ChartEffect, aborts, fetches, creates, disposes, sets_data, updates}
use exaint.Web.Chart.History.Stage.{Stage, apply_to, perform, perform_all}
use exaint.Web.Chart.History.Mirrors.{get-apply_to}
use exaint.Web.Chart.History.Orderly.{Orderly}
use exaint.Web.Chart.History.InTurn.{
  InTurn, new_adapter-InTurn, set_data-InTurn, update-InTurn, dispose-InTurn,
}

-- Every chart session on a stage.
abbrev pub AllInTurn : Stage → Type 0
AllInTurn stage = (i : ℕ) (a : ChartAdapter) → Map.get i stage ≡ some a → InTurn a

pub empty-AllInTurn : AllInTurn []
unfolding Map.get
empty-AllInTurn i a e = cc

apply_to-AllInTurn :
    (i : ℕ) (f : ChartAdapter → ChartAdapter) (stage : Stage)
    → ((a : ChartAdapter) → InTurn a → InTurn (f a))
    → AllInTurn stage
    → AllInTurn (apply_to i f stage)
unfolding apply_to
apply_to-AllInTurn i f stage keeps all j b e = elim (Option-cases (Map.get i stage)) [
  | inl missing ↦
      let same : apply_to i f stage ≡ stage = rw (apply_to, missing) refl in
      all j b (ap (Map.get j) (sym same) ∙ e)
  | inr (a, here) ↦ elim (Bool-cases (i == j)) [
    | inl hit ↦
        let at : some (f a) ≡ some b = (let g = get-apply_to i j f stage a here in ground arith) in
        subst InTurn (eq_of_some at) (keeps a (all i a here))
    | inr miss ↦ all j b (let g = get-apply_to i j f stage a here in ground arith)
  ]
]

perform-AllInTurn :
    (e : ChartEffect) (stage : Stage) → Orderly e → AllInTurn stage → AllInTurn (perform e stage)
unfolding perform
perform-AllInTurn (aborts g) stage o all = all
perform-AllInTurn (fetches g scope) stage o all = all
perform-AllInTurn (creates i scope) stage o all = λ j b e. elim (Bool-cases (i == j)) [
  | inl hit ↦
      let at : some new_adapter ≡ some b =
        (let g = get-set i j new_adapter stage in ground arith) in
      subst InTurn (eq_of_some at) new_adapter-InTurn
  | inr miss ↦ all j b (let g = get-set i j new_adapter stage in ground arith)
]
perform-AllInTurn (disposes i) stage o all =
    apply_to-AllInTurn i Adapter.dispose stage dispose-InTurn all
perform-AllInTurn (sets_data i cs) stage o all =
    apply_to-AllInTurn i (set_data cs) stage (λ a. set_data-InTurn cs a o) all
perform-AllInTurn (updates i c) stage o all =
    apply_to-AllInTurn i (update c) stage (update-InTurn c) all

pub perform_all-AllInTurn :
    (es : List ChartEffect) (stage : Stage)
    → All Orderly es
    → AllInTurn stage
    → AllInTurn (perform_all es stage)
unfolding perform_all
perform_all-AllInTurn [] stage o all = all
perform_all-AllInTurn (e ∷ es) stage o all =
    perform_all-AllInTurn es (perform e stage) o.1 (perform-AllInTurn e stage o.0 all)
