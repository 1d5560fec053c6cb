-- ===== src/Web/Chart/History/Told.antt =====
-- candlestick-chart-adapter.ts: what its calls tell the chart library, and that the adapter's own
-- memory agrees with it.
use exaint.Base.{
  ℕ, ◌≡◌, refl, sym, ◌∙◌, ap, subst, Bool, true, false, none, List, [], ◌∷◌, ◌++◌, if◌then◌else◌,
  arith, Bool-cases, inl, inr,
}
use exaint.Base.Keys.{nat_eq}
use exaint.Base.Map
use exaint.Base.Map.{Map, get-set}
use exaint.App.Wire.{Candle}
use exaint.Web.Chart.Adapter.{
  BackendCall, set_bars, update_bar, resizes, closes, ChartAdapter, new_adapter, set_data, update,
}
use exaint.Web.Chart.Adapter
use exaint.Web.Chart.History.{write_all}
use exaint.Web.Chart.History.Mirrors.{keep_candles_lem}

-- The bars that the library has been told of and not told to drop, oldest call first.
unfoldable pub told_bars : List BackendCall → Map ℕ Candle → Map ℕ Candle
told_bars [] bars = bars
told_bars (set_bars candles ∷ cs) bars = told_bars cs (write_all candles [])
told_bars (update_bar candle late ∷ cs) bars = told_bars cs (Map.set candle.start_time candle bars)
told_bars (resizes width height ∷ cs) bars = told_bars cs bars
told_bars (closes ∷ cs) bars = told_bars cs []

unfoldable pub told_to_close : List BackendCall → Bool
told_to_close [] = false
told_to_close (set_bars candles ∷ cs) = told_to_close cs
told_to_close (update_bar candle late ∷ cs) = told_to_close cs
told_to_close (resizes width height ∷ cs) = told_to_close cs
told_to_close (closes ∷ cs) = true

pub record Told (a : ChartAdapter) : Type 0 where
  pub bars : told_bars a.calls [] ≡ a.candles_by_second
  pub closed : told_to_close a.calls ≡ a.disposed

told_bars-append :
    (cs ds : List BackendCall) (bars : Map ℕ Candle)
    → told_bars (cs ++ ds) bars ≡ told_bars ds (told_bars cs bars)
unfolding told_bars
told_bars-append [] ds bars = refl
told_bars-append (set_bars candles ∷ cs) ds bars = told_bars-append cs ds _
told_bars-append (update_bar candle late ∷ cs) ds bars = told_bars-append cs ds _
told_bars-append (resizes width height ∷ cs) ds bars = told_bars-append cs ds bars
told_bars-append (closes ∷ cs) ds bars = told_bars-append cs ds []

told_to_close-append :
    (cs ds : List BackendCall)
    → told_to_close (cs ++ ds) ≡ (if told_to_close cs then true else told_to_close ds)
unfolding told_to_close
told_to_close-append [] ds = refl
told_to_close-append (set_bars candles ∷ cs) ds = told_to_close-append cs ds
told_to_close-append (update_bar candle late ∷ cs) ds = told_to_close-append cs ds
told_to_close-append (resizes width height ∷ cs) ds = told_to_close-append cs ds
told_to_close-append (closes ∷ cs) ds = refl

pub new_adapter-Told : Told new_adapter
unfolding told_bars told_to_close
new_adapter-Told = record { bars = refl; closed = refl }

pub keep_candles-calls :
    (cs : List Candle) (a : ChartAdapter) → (Adapter.keep_candles cs a).calls ≡ a.calls
unfolding Adapter.keep_candles
keep_candles-calls [] a = refl
keep_candles-calls (c ∷ cs) a = keep_candles-calls cs (Adapter.keep_candle c a)

-- A call that does not close the chart, made by an adapter that is not disposed.
called_Told :
    (c : BackendCall) (a b : ChartAdapter)
    → Told a
    → a.disposed ≡ false
    → told_to_close (c ∷ []) ≡ false
    → b.calls ≡ a.calls ++ c ∷ []
    → told_bars (c ∷ []) a.candles_by_second ≡ b.candles_by_second
    → b.disposed ≡ false
    → Told b
called_Told c a b t here stays calls bars still = record {
  bars =
      ap (λ (cs : List BackendCall). told_bars cs []) calls
      ∙ told_bars-append a.calls (c ∷ []) []
      ∙ ap (told_bars (c ∷ [])) t.bars
      ∙ bars;
  closed =
      ap told_to_close calls
      ∙ told_to_close-append a.calls (c ∷ [])
      ∙ rw (t.closed ∙ here) (stays ∙ sym still);
}

pub set_data-Told : (cs : List Candle) (a : ChartAdapter) → Told a → Told (set_data cs a)
unfolding set_data told_bars told_to_close
set_data-Told cs a t = elim (Bool-cases a.disposed) [
  | inl gone ↦ let e : set_data cs a ≡ a = ground arith in subst Told (sym e) t
  | inr here ↦
      let empty = record a { candles_by_second = []; latest_start_time = none } in
      let drawn = Adapter.call (set_bars cs) (Adapter.keep_candles cs empty) in
      let e : set_data cs a ≡ drawn = ground arith in
      let (kept, same) = keep_candles_lem cs empty in
      subst Told (sym e) (
        called_Told (set_bars cs) a drawn t here refl
          (ap (λ (ds : List BackendCall). ds ++ set_bars cs ∷ []) (keep_candles-calls cs empty))
          (sym kept) (same ∙ here))
]

pub update-Told : (c : Candle) (a : ChartAdapter) → Told a → Told (update c a)
unfolding update told_bars told_to_close
update-Told c a t = elim (Bool-cases a.disposed) [
  | inl gone ↦ let e : update c a ≡ a = ground arith in subst Told (sym e) t
  | inr here ↦
      let drawn = update_bar c (Adapter.is_before c.start_time a.latest_start_time) in
      let b = Adapter.call drawn (Adapter.keep_candle c a) in
      let e : update c a ≡ b = ground arith in
      subst Told (sym e) (called_Told drawn a b t here refl refl refl here)
]

pub dispose-Told : (a : ChartAdapter) → Told a → Told (Adapter.dispose a)
unfolding Adapter.dispose told_bars told_to_close
dispose-Told a t = elim (Bool-cases a.disposed) [
  | inl gone ↦ let e : Adapter.dispose a ≡ a = ground arith in subst Told (sym e) t
  | inr here ↦
      let bare = record a {
        candles_by_second = [];
        pending_resize = none;
        resize_frame = none;
        disposed = true;
      } in
      let e : Adapter.dispose a ≡ Adapter.call closes bare = ground arith in
      subst Told (sym e) (record {
        bars = told_bars-append a.calls (closes ∷ []) [];
        closed = told_to_close-append a.calls (closes ∷ []) ∙ rw (t.closed ∙ here) refl;
      })
]
