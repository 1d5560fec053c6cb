-- ===== src/Web/Chart/History/InTurn.antt =====
-- candlestick-chart-adapter.ts: the calls on the chart library come in an order that it can follow.
use exaint.Base.{
  ℕ, ◌≡◌, refl, sym, ◌∙◌, ap, subst, Bool, true, false, Option, none, some, List, [], ◌∷◌, ◌++◌,
  if◌then◌else◌, arith, Bool-cases, inl, inr, ltb,
}
use exaint.Base.Keys.{nat_eq}
use exaint.Base.Map
use exaint.Base.Map.{Map}
use exaint.App.Wire.{Candle}
use exaint.Web.Chart.Adapter.{
  BackendCall, set_bars, update_bar, resizes, closes, ChartAdapter, new_adapter, set_data, update,
  is_before, later_of, keep_candle, keep_candles,
}
use exaint.Web.Chart.Adapter
use exaint.Web.Chart.History.{write_all}
use exaint.Web.Chart.History.Orderly.{Rises}
use exaint.Web.Chart.History.Told.{
  told_bars, told_to_close, Told, keep_candles-calls, new_adapter-Told, set_data-Told, update-Told,
  dispose-Told,
}

-- Some bar starts after `t`.
unfoldable pub any_later : ℕ → Map ℕ Candle → Bool
any_later t [] = false
any_later t ((k, c) ∷ m) = if ltb t k then true else any_later t m

-- Bars that are set rise; an update is marked late exactly if a later bar was told of; nothing
-- follows the closing.
abbrev pub FollowsRules : List BackendCall → Map ℕ Candle → Type 0
FollowsRules [] bars = Unit
FollowsRules (set_bars candles ∷ cs) bars = Rises candles × FollowsRules cs (write_all candles [])
FollowsRules (update_bar candle late ∷ cs) bars =
    (late ≡ any_later candle.start_time bars)
    × FollowsRules cs (Map.set candle.start_time candle bars)
FollowsRules (resizes width height ∷ cs) bars = FollowsRules cs bars
FollowsRules (closes ∷ cs) bars = cs ≡ []

abbrev pub KnowsLatest : ChartAdapter → Type 0
KnowsLatest a = (t : ℕ) → any_later t a.candles_by_second ≡ is_before t a.latest_start_time

pub record InTurn (a : ChartAdapter) : Type 0 where
  pub told : Told a
  pub rules : FollowsRules a.calls []
  pub latest : a.disposed ≡ false → KnowsLatest a

any_later-set :
    (t k : ℕ) (c : Candle) (m : Map ℕ Candle)
    → any_later t (Map.set k c m) ≡ (if ltb t k then true else any_later t m)
unfolding any_later Map.set
any_later-set t k c [] = refl
any_later-set t k c ((j, d) ∷ m) = ground (arith, any_later-set t k c m)

is_before-later_of :
    (t k : ℕ) (l : Option ℕ)
    → is_before t (later_of l k) ≡ (if ltb t k then true else is_before t l)
is_before-later_of t k none = ground arith
is_before-later_of t k (some l) = ground arith

keep_candle-KnowsLatest :
    (c : Candle) (a : ChartAdapter) → KnowsLatest a → KnowsLatest (keep_candle c a)
keep_candle-KnowsLatest c a h t =
    any_later-set t c.start_time c a.candles_by_second
    ∙ ap (λ (b : Bool). if ltb t c.start_time then true else b) (h t)
    ∙ sym (is_before-later_of t c.start_time a.latest_start_time)

keep_candles-KnowsLatest :
    (cs : List Candle) (a : ChartAdapter) → KnowsLatest a → KnowsLatest (keep_candles cs a)
unfolding keep_candles
keep_candles-KnowsLatest [] a h = h
keep_candles-KnowsLatest (c ∷ cs) a h =
    keep_candles-KnowsLatest cs (keep_candle c a) (keep_candle-KnowsLatest c a h)

-- One more call after calls that did not close the chart.
FollowsRules-append :
    (cs ds : List BackendCall) (bars : Map ℕ Candle)
    → told_to_close cs ≡ false
    → FollowsRules cs bars
    → FollowsRules ds (told_bars cs bars)
    → FollowsRules (cs ++ ds) bars
unfolding told_bars told_to_close
FollowsRules-append [] ds bars n h g = g
FollowsRules-append (set_bars candles ∷ cs) ds bars n h g =
    (h.0, FollowsRules-append cs ds _ n h.1 g)
FollowsRules-append (update_bar candle late ∷ cs) ds bars n h g =
    (h.0, FollowsRules-append cs ds _ n h.1 g)
FollowsRules-append (resizes width height ∷ cs) ds bars n h g = FollowsRules-append cs ds bars n h g
FollowsRules-append (closes ∷ cs) ds bars n h g = cc

next_rule :
    (c : BackendCall) (a : ChartAdapter)
    → InTurn a
    → a.disposed ≡ false
    → FollowsRules (c ∷ []) a.candles_by_second
    → FollowsRules (a.calls ++ c ∷ []) []
next_rule c a t here h =
    FollowsRules-append a.calls (c ∷ []) [] (t.told.closed ∙ here) t.rules
      (subst (FollowsRules (c ∷ [])) (sym t.told.bars) h)

pub new_adapter-InTurn : InTurn new_adapter
unfolding any_later
new_adapter-InTurn = record { told = new_adapter-Told; rules = tt; latest = λ here t. refl }

pub set_data-InTurn :
    (cs : List Candle) (a : ChartAdapter) → Rises cs → InTurn a → InTurn (set_data cs a)
unfolding set_data any_later
set_data-InTurn cs a rise t = elim (Bool-cases a.disposed) [
  | inl gone ↦ let e : set_data cs a ≡ a = ground arith in subst InTurn (sym e) t
  | inr here ↦
      let empty = record a { candles_by_second = []; latest_start_time = none } in
      let drawn = Adapter.call (set_bars cs) (keep_candles cs empty) in
      let e : set_data cs a ≡ drawn = ground arith in
      subst InTurn (sym e) (record {
        told = subst Told e (set_data-Told cs a t.told);
        rules =
            subst (λ (ds : List BackendCall). FollowsRules (ds ++ set_bars cs ∷ []) [])
              (sym (keep_candles-calls cs empty)) (next_rule (set_bars cs) a t here (rise, tt));
        latest = λ still. keep_candles-KnowsLatest cs empty (λ later. refl);
      })
]

pub update-InTurn : (c : Candle) (a : ChartAdapter) → InTurn a → InTurn (update c a)
unfolding update
update-InTurn c a t = elim (Bool-cases a.disposed) [
  | inl gone ↦ let e : update c a ≡ a = ground arith in subst InTurn (sym e) t
  | inr here ↦
      let drawn = update_bar c (is_before c.start_time a.latest_start_time) in
      let b = Adapter.call drawn (keep_candle c a) in
      let e : update c a ≡ b = ground arith in
      subst InTurn (sym e) (record {
        told = subst Told e (update-Told c a t.told);
        rules = next_rule drawn a t here (sym (t.latest here c.start_time), tt);
        latest = λ still. keep_candle-KnowsLatest c a (t.latest here);
      })
]

pub dispose-InTurn : (a : ChartAdapter) → InTurn a → InTurn (Adapter.dispose a)
unfolding Adapter.dispose
dispose-InTurn a t = elim (Bool-cases a.disposed) [
  | inl gone ↦ let e : Adapter.dispose a ≡ a = ground arith in subst InTurn (sym e) t
  | inr here ↦
      let bare = record a {
        candles_by_second = [];
        pending_resize = none;
        resize_frame = none;
        disposed = true;
      } in
      let e : Adapter.dispose a ≡ Adapter.call closes bare = ground arith in
      subst InTurn (sym e) (record {
        told = subst Told e (dispose-Told a t.told);
        rules = next_rule closes a t here refl;
        latest = λ still. cc;
      })
]
