-- ===== src/Web/Chart/History.antt =====
-- candle-history-controller.ts: class CandleHistoryController. The promise of `select` is cut at its
-- wait: `begin_select` runs to the fetch, `finish_select` from its answer on. A chart session is
-- known by a number, and what is done to it is an effect.
pub mod Charts
pub mod InTurn
pub mod Latest
pub mod Mirrors
pub mod Orderly
pub mod Ranks
pub mod Sessions
pub mod Shown
pub mod Stage
pub mod Told
use exaint.Base.{
  ℕ, suc, String, Bool, true, false, not, ◌&&◌, ◌||◌, Option, none, some, List, [], ◌∷◌, ◌++◌, ltb,
  ◌==◌, if◌then◌else◌,
}
use exaint.Base.Keys.{nat_eq}
use exaint.Base.Map
use exaint.Base.Map.{Map}
use exaint.Base.Sort.{sort}
use exaint.Protocol.{Interval}
use exaint.Protocol.Decimal.{Text}
use exaint.Delivery.Session.{same_interval}
use exaint.App.Wire.{Candle}
use exaint.Web.CandleData.{is_candle_newer, merge_candles}
use text.Mathlib.Text.{◌==◌ as same_text}

pub record CandleScope : Type 0 where
  pub symbol : String
  pub interval : Interval
  pub tick_size : Text

pub record CandlesUpdateFrame : Type 0 where
  pub symbol : String
  pub interval : Interval
  pub candles : List Candle

pub record CandleHistoryResponse : Type 0 where
  pub symbol : String
  pub interval : Interval
  pub server_time : ℕ
  pub candles : List Candle

-- What the fetch comes to; a failure is known to be an abort or not.
pub data Answer : Type 0 where
  failed : Bool → Answer
  arrived : CandleHistoryResponse → Answer

pub data Selection : Type 0 where
  applied superseded throws : Selection

pub data ChartEffect : Type 0 where
  aborts : ℕ → ChartEffect
  fetches : ℕ → CandleScope → ChartEffect
  creates : ℕ → CandleScope → ChartEffect
  disposes : ℕ → ChartEffect
  sets_data : ℕ → List Candle → ChartEffect
  updates : ℕ → Candle → ChartEffect

-- `abort` is the generation whose fetch the controller may abort.
pub record CandleHistoryController : Type 0 where
  pub generation : ℕ
  pub abort : Option ℕ
  pub pending_scope : Option CandleScope
  pub buffered : List Candle
  pub active_scope : Option CandleScope
  pub active_session : Option ℕ
  pub next_session : ℕ
  pub active_candles : Map ℕ Candle
  pub rendering_paused : Bool
  pub needs_full_render : Bool

abbrev pub new_history : CandleHistoryController
new_history = record {
  generation = 0;
  abort = none;
  pending_scope = none;
  buffered = [];
  active_scope = none;
  active_session = none;
  next_session = 0;
  active_candles = [];
  rendering_paused = false;
  needs_full_render = false;
}

abbrev pub same_scope : CandleScope → CandlesUpdateFrame → Bool
same_scope left right =
    same_text left.symbol right.symbol && same_interval left.interval right.interval

-- Two Booleans differ.
abbrev pub differ : Bool → Bool → Bool
differ true b = not b
differ false b = b

abbrev pub aborting : Option ℕ → List ChartEffect
aborting none = []
aborting (some n) = aborts n ∷ []

abbrev pub disposing : Option ℕ → List ChartEffect
disposing none = []
disposing (some n) = disposes n ∷ []

abbrev pub by_start : Candle → Candle → Bool
by_start left right = ltb left.start_time right.start_time

-- The part of `setRenderingPaused` behind its guards.
abbrev pub render : Option ℕ → CandleHistoryController → List ChartEffect × CandleHistoryController
render none c = ([], c)
render (some session) c = (
  sets_data session (sort by_start (Map.values c.active_candles)) ∷ [],
  record c { needs_full_render = false },
)

unfoldable pub set_rendering_paused :
    Bool → CandleHistoryController → List ChartEffect × CandleHistoryController
set_rendering_paused paused c =
    if not (differ paused c.rendering_paused)
    then ([], c)
    else let c' = record c { rendering_paused = paused } in
      if paused || not c.needs_full_render then ([], c') else render c.active_session c'

unfoldable pub begin_select :
    CandleScope → CandleHistoryController → List ChartEffect × CandleHistoryController
begin_select scope c = (
  aborting c.abort ++ fetches (suc c.generation) scope ∷ [],
  record c {
    generation = suc c.generation;
    abort = some (suc c.generation);
    pending_scope = some scope;
    buffered = [];
  },
)

unfoldable pub any_foreign : String → List Candle → Bool
any_foreign symbol [] = false
any_foreign symbol (candle ∷ rest) = not (same_text candle.symbol symbol) || any_foreign symbol rest

abbrev pub is_foreign : CandleScope → CandleHistoryResponse → Bool
is_foreign scope response =
    not (same_text response.symbol scope.symbol)
    || not (same_interval response.interval scope.interval)
    || any_foreign scope.symbol response.candles

-- The loop that writes the candles into the map.
unfoldable pub write_all : List Candle → Map ℕ Candle → Map ℕ Candle
write_all [] m = m
write_all (candle ∷ rest) m = write_all rest (Map.set candle.start_time candle m)

abbrev pub drop_pending : CandleHistoryController → CandleHistoryController
drop_pending c = record c { pending_scope = none; buffered = []; abort = none }

-- The part of `select` behind its guards: the new session replaces the old one.
unfoldable pub replace_session :
    CandleScope → List Candle → CandleHistoryController → List ChartEffect × CandleHistoryController
unfolding write_all
replace_session scope merged c =
    let id = c.next_session in
    let drawing = if c.rendering_paused then [] else sets_data id merged ∷ [] in
    (
      creates id scope ∷ (disposing c.active_session ++ drawing),
      record (drop_pending c) {
        active_session = some id;
        next_session = suc id;
        active_scope = some scope;
        active_candles = write_all merged [];
        needs_full_render = if c.rendering_paused then true else c.needs_full_render;
      },
    )

unfoldable pub finish_select :
    ℕ
    → CandleScope
    → Answer
    → CandleHistoryController
    → Selection × List ChartEffect × CandleHistoryController
finish_select generation scope (failed is_abort) c =
    if not (generation == c.generation) || is_abort
    then (superseded, [], c)
    else (throws, [], drop_pending c)
finish_select generation scope (arrived response) c =
    if not (generation == c.generation)
    then (superseded, [], c)
    else if is_foreign scope response
    then (superseded, [], drop_pending c)
    else let merged = merge_candles scope.symbol response.candles c.buffered in
      let (effects, c') = replace_session scope merged c in (applied, effects, c')

abbrev pub written : Candle → CandleHistoryController → CandleHistoryController
written candle c = record c {
  active_candles = Map.set candle.start_time candle c.active_candles;
  needs_full_render = if c.rendering_paused then true else c.needs_full_render;
}

-- The loop of `onCandles` over the updates.
unfoldable pub show_updates :
    ℕ → List Candle → CandleHistoryController → List ChartEffect × CandleHistoryController
show_updates session [] c = ([], c)
show_updates session (candle ∷ rest) c =
    let skip = show_updates session rest c in
    let show = show_updates session rest (written candle c) in
    if not (is_candle_newer candle (Map.get candle.start_time c.active_candles))
    then skip
    else (if c.rendering_paused then show.0 else updates session candle ∷ show.0, show.1)

abbrev pub show_live :
    CandleScope
    → CandlesUpdateFrame
    → Option ℕ
    → CandleHistoryController
    → List ChartEffect × CandleHistoryController
show_live target frame none c = ([], c)
show_live target frame (some session) c =
    show_updates session (merge_candles target.symbol [] frame.candles) c

-- `onCandles`, with the pending scope and the active one.
abbrev pub take_candles :
    CandlesUpdateFrame
    → Option CandleScope
    → Option CandleScope
    → CandleHistoryController
    → List ChartEffect × CandleHistoryController
take_candles frame (some target) active c =
    if not (same_scope target frame)
    then ([], c)
    else ([], record c { buffered = c.buffered ++ frame.candles })
take_candles frame none none c = ([], c)
take_candles frame none (some target) c =
    if not (same_scope target frame) then ([], c) else show_live target frame c.active_session c

unfoldable pub on_candles :
    CandlesUpdateFrame → CandleHistoryController → List ChartEffect × CandleHistoryController
on_candles frame c = take_candles frame c.pending_scope c.active_scope c

unfoldable pub dispose : CandleHistoryController → List ChartEffect × CandleHistoryController
dispose c = (
  aborting c.abort ++ disposing c.active_session,
  record c {
    generation = suc c.generation;
    abort = none;
    pending_scope = none;
    buffered = [];
    active_candles = [];
    active_session = none;
    active_scope = none;
    needs_full_render = false;
  },
)

unfoldable pub has_candles : CandleHistoryController → Bool
has_candles c = elim c.active_candles [ [] ↦ false | _ ∷ _ ↦ true ]
