-- ===== src/Web/UiModel/Shown.antt =====
-- market-ui-model.ts: any calls of a model, and the snapshot after them.
use exaint.Base.{
  ℕ, suc, ◌≤◌, ◌≡◌, refl, sym, ◌∙◌, ap, subst, String, true, false, if◌then◌else◌, Option, none,
  List, [], ◌∷◌, ◌++◌, length, arith, Bool-cases, inl, inr,
}
use exaint.Base.Keys.{nat_eq, string_eq}
use exaint.Base.Map
use exaint.Base.Map.{Map, get-delete}
use exaint.Protocol.Decimal.{format_identifier}
use exaint.App.Wire.{Trade}
use exaint.Web.UiModel.{
  IdentifiedTrade, MarketUiModel, TopOrderBookLevels, new_ui_model, state_for, select_symbol,
  group_trades, note_groups, process_trades, snapshot,
}
use exaint.Web.UiModel.Groups.{own_trades, note_groups-Keeps, group_trades-own, group_trades-Unique}
use exaint.Web.UiModel.Latest.{newest, Keeps, created-Keeps}
use mathlib.Core.Option
use text.Mathlib.Text.{◌==◌ as same_text}

pub data UiCall : Type 0 where
  selects : String → UiCall
  processes : List Trade → UiCall

unfoldable pub after_calls : List UiCall → MarketUiModel → MarketUiModel
after_calls [] m = m
after_calls (selects symbol ∷ cs) m = after_calls cs (select_symbol symbol m)
after_calls (processes trades ∷ cs) m = after_calls cs (process_trades trades m)

-- The trades of a symbol, after those of `ts`, from the last time on that it stopped being the
-- selected one; `selected` is the one selected at first.
unfoldable pub heard : String → String → List UiCall → List IdentifiedTrade → List IdentifiedTrade
heard symbol selected [] ts = ts
heard symbol selected (selects next ∷ cs) ts =
    let kept = if same_text selected symbol then [] else ts in
    let stays = heard symbol selected cs ts in
    let moves = heard symbol next cs kept in if same_text next selected then stays else moves
heard symbol selected (processes trades ∷ cs) ts =
    heard symbol selected cs (ts ++ own_trades symbol trades)

newest-append :
    (ts us : List IdentifiedTrade) (o : Option IdentifiedTrade)
    → newest (ts ++ us) o ≡ newest us (newest ts o)
unfolding newest
newest-append [] us o = refl
newest-append (t ∷ ts) us o = newest-append ts us _

note_groups-selected :
    (g : Map String (List IdentifiedTrade)) (m : MarketUiModel)
    → (note_groups g m).selected_symbol ≡ m.selected_symbol
unfolding note_groups
note_groups-selected [] m = refl
note_groups-selected ((k, ts) ∷ g) m = note_groups-selected g _

process_trades-Keeps :
    (symbol : String) (trades : List Trade) (o : Option IdentifiedTrade) (m : MarketUiModel)
    → Keeps o (state_for symbol m)
    → Keeps (newest (own_trades symbol trades) o) (state_for symbol (process_trades trades m))
unfolding process_trades Map.get
process_trades-Keeps symbol trades o m h =
    subst
      (λ (ts : List IdentifiedTrade).
        Keeps (newest ts o) (state_for symbol (note_groups (group_trades trades []) m)))
      (group_trades-own symbol trades [])
      (note_groups-Keeps symbol (group_trades trades []) o m (group_trades-Unique trades [] tt) h)

-- The state of a symbol after another one is selected.
deleted-Keeps :
    (symbol next : String) (ts : List IdentifiedTrade) (m : MarketUiModel)
    → Keeps (newest ts none) (state_for symbol m)
    → Keeps (newest (if same_text m.selected_symbol symbol then [] else ts) none) (
        state_for symbol
          (record { selected_symbol = next; symbols = Map.delete m.selected_symbol m.symbols }))
unfolding newest
deleted-Keeps symbol next ts m h =
    let e = get-delete m.selected_symbol symbol m.symbols in
    elim (Bool-cases (same_text m.selected_symbol symbol)) [
      | inl left ↦
          let gone : Map.get symbol (Map.delete m.selected_symbol m.symbols) ≡ none =
            ground arith in
          rw (left, gone) created-Keeps
      | inr other ↦
          let same : Map.get symbol (Map.delete m.selected_symbol m.symbols)
              ≡ Map.get symbol m.symbols =
            ground arith in
          rw (other, same) h
    ]

stays_lem :
    (next : String) (m : MarketUiModel)
    → same_text next m.selected_symbol ≡ true
    → select_symbol next m ≡ m
unfolding select_symbol
stays_lem next m h = rw h refl

moves_lem :
    (next : String) (m : MarketUiModel)
    → same_text next m.selected_symbol ≡ false
    → select_symbol next m
      ≡ record { selected_symbol = next; symbols = Map.delete m.selected_symbol m.symbols }
unfolding select_symbol
moves_lem next m h = rw h refl

calls-Keeps :
    (symbol : String) (cs : List UiCall) (ts : List IdentifiedTrade) (m : MarketUiModel)
    → Keeps (newest ts none) (state_for symbol m)
    → Keeps
        (newest (heard symbol m.selected_symbol cs ts) none)
        (state_for symbol (after_calls cs m))
unfolding heard after_calls
calls-Keeps symbol [] ts m h = h
calls-Keeps symbol (selects next ∷ cs) ts m h =
    elim (Bool-cases (same_text next m.selected_symbol)) [
      | inl same ↦ rw same (
          subst
            (λ (n : MarketUiModel).
              Keeps (newest (heard symbol m.selected_symbol cs ts) none)
                (state_for symbol (after_calls cs n)))
            (sym (stays_lem next m same)) (calls-Keeps symbol cs ts m h))
      | inr moved ↦
          let m' : MarketUiModel = record {
            selected_symbol = next;
            symbols = Map.delete m.selected_symbol m.symbols;
          } in
          let kept = if same_text m.selected_symbol symbol then [] else ts in
          rw moved (
            subst
              (λ (n : MarketUiModel).
                Keeps (newest (heard symbol next cs kept) none)
                  (state_for symbol (after_calls cs n)))
              (sym (moves_lem next m moved))
              (calls-Keeps symbol cs kept m' (deleted-Keeps symbol next ts m h)))
    ]
calls-Keeps symbol (processes trades ∷ cs) ts m h =
    let more = ts ++ own_trades symbol trades in
    let m' = process_trades trades m in
    let kept : Keeps (newest more none) (state_for symbol m') =
      rw (newest-append ts (own_trades symbol trades) none)
        (process_trades-Keeps symbol trades (newest ts none) m h) in
    let stays : m'.selected_symbol ≡ m.selected_symbol =
      unfold process_trades in note_groups-selected (group_trades trades []) m in
    subst
      (λ (s : String).
        Keeps (newest (heard symbol s cs more) none) (state_for symbol (after_calls cs m')))
      stays (calls-Keeps symbol cs more m' kept)

length-values : (m : Map ℕ Trade) → length (Map.values m) ≡ length m
unfolding Map.values
length-values [] = refl
length-values (e ∷ m) = ap suc (length-values m)

-- After any calls of a new model, in the snapshot of the selected symbol the last trade's id and the
-- latest price are those of the first trade with the highest id among the trades that the model was
-- given of that symbol since it last stopped being selected, and there are none where there is no
-- such trade; the snapshot has at most 50 recent trades.
pub latest_lem :
    (cs : List UiCall) (selected : String) (book : TopOrderBookLevels)
    → (let m = after_calls cs (new_ui_model selected) in
        let last = newest (heard m.selected_symbol selected cs []) none in
        ((snapshot book m).last_trade_id
          ≡ Option.map (λ (t : IdentifiedTrade). format_identifier t.0) last)
        × ((snapshot book m).latest_price ≡ Option.map (λ (t : IdentifiedTrade). t.1.price) last)
        × (length (snapshot book m).recent_trades ≤ 50))
unfolding snapshot newest Map.get
latest_lem cs selected book =
    let m = after_calls cs (new_ui_model selected) in
    let k = calls-Keeps m.selected_symbol cs [] (new_ui_model selected) created-Keeps in
    let state = state_for m.selected_symbol m in
    (
      ap (Option.map format_identifier) k.knows.id ∙ Option.map-map format_identifier _ _,
      k.knows.price,
      omega (arith, length-values state.recent_trades, k.room),
    )
