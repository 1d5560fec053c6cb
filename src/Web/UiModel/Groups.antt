-- ===== src/Web/UiModel/Groups.antt =====
-- market-ui-model.ts: the groups of one call, by symbol.
use exaint.Base.{
  ◌≡◌, sym, ◌∙◌, ap, subst, String, true, false, if◌then◌else◌, Option, none, some, or_else, List,
  [], ◌∷◌, ◌++◌, arith, Bool-cases, inl, inr, append-nil, append_assoc,
}
use exaint.Base.Keys.{nat_eq, string_eq}
use exaint.Base.Map
use exaint.Base.Map.{Map, get-set, get-delete, has-set, set-Unique, Unique}
use exaint.Protocol.Decimal.{parsed_identifier}
use exaint.App.Wire.{Trade}
use exaint.Web.UiModel.{
  IdentifiedTrade, SymbolTradeState, MarketUiModel, created, state_for, group_trades, note_group,
  note_groups,
}
use text.Mathlib.Text.{◌==◌ as same_text}
use exaint.Web.UiModel.Latest.{newest, Keeps, note_group-Keeps}

module _ {ℓ} {V : Type ℓ} where
  get-set_hit :
      (k j : String) (v : V) (m : Map String V)
      → same_text k j ≡ true
      → Map.get j (Map.set k v m) ≡ some v
  get-set_hit k j v m h = let e = get-set k j v m in ground arith

  get-set_miss :
      (k j : String) (v : V) (m : Map String V)
      → same_text k j ≡ false
      → Map.get j (Map.set k v m) ≡ Map.get j m
  get-set_miss k j v m h = let e = get-set k j v m in ground arith

-- The trades of a group.
abbrev of_group : String → Map String (List IdentifiedTrade) → List IdentifiedTrade
of_group symbol groups = or_else (Map.get symbol groups) []

-- The trades of one symbol, with their ids.
unfoldable pub own_trades : String → List Trade → List IdentifiedTrade
own_trades symbol [] = []
own_trades symbol (trade ∷ rest) =
    if same_text trade.symbol symbol
    then (parsed_identifier trade.trade_id, trade) ∷ own_trades symbol rest
    else own_trades symbol rest

pub group_trades-own :
    (symbol : String) (ts : List Trade) (g : Map String (List IdentifiedTrade))
    → of_group symbol (group_trades ts g) ≡ of_group symbol g ++ own_trades symbol ts
unfolding group_trades own_trades
group_trades-own symbol [] g = sym (append-nil (of_group symbol g))
group_trades-own symbol (t ∷ ts) g =
    let x : IdentifiedTrade = (parsed_identifier t.trade_id, t) in
    let g' = Map.set t.symbol (of_group t.symbol g ++ x ∷ []) g in
    group_trades-own symbol ts g' ∙ elim (Bool-cases (same_text t.symbol symbol)) [
      | inl own ↦
          let p : t.symbol ≡ symbol = (string_eq.beq_iff t.symbol symbol).0 own in
          let grown : of_group symbol g' ≡ of_group symbol g ++ x ∷ [] =
            ap (λ (r : Option (List IdentifiedTrade)). or_else r [])
              (get-set_hit t.symbol symbol _ g own)
            ∙ ap (λ (q : String). of_group q g ++ x ∷ []) p in
          rw own (
            ap (λ (l : List IdentifiedTrade). l ++ own_trades symbol ts) grown
            ∙ append_assoc (of_group symbol g) (x ∷ []) (own_trades symbol ts))
      | inr other ↦
          let same : of_group symbol g' ≡ of_group symbol g =
            ap (λ (r : Option (List IdentifiedTrade)). or_else r [])
              (get-set_miss t.symbol symbol _ g other) in
          rw other (ap (λ (l : List IdentifiedTrade). l ++ own_trades symbol ts) same)
    ]

pub group_trades-Unique :
    (ts : List Trade) (g : Map String (List IdentifiedTrade))
    → Unique g
    → Unique (group_trades ts g)
unfolding group_trades
group_trades-Unique [] g u = u
group_trades-Unique (t ∷ ts) g u = group_trades-Unique ts _ (set-Unique t.symbol _ g u)

pub note_groups-Keeps :
    (symbol : String) (g : Map String (List IdentifiedTrade)) (o : Option IdentifiedTrade)
    (m : MarketUiModel)
    → Unique g
    → Keeps o (state_for symbol m)
    → Keeps (newest (of_group symbol g) o) (state_for symbol (note_groups g m))
unfolding note_groups Map.get newest
note_groups-Keeps symbol [] o m u h = h
note_groups-Keeps symbol ((k, ts) ∷ g) o m (u, us) h =
    let state = note_group ts (state_for k m) in
    let m' : MarketUiModel = record m { symbols = Map.set k state m.symbols } in
    let ih = λ (o' : Option IdentifiedTrade). note_groups-Keeps symbol g o' m' us in
    elim (Bool-cases (same_text k symbol)) [
      | inl own ↦
          let p : k ≡ symbol = (string_eq.beq_iff k symbol).0 own in
          let noted : state_for symbol m' ≡ note_group ts (state_for symbol m) =
            ap (λ (r : Option SymbolTradeState). or_else r created)
              (get-set_hit k symbol state m.symbols own)
            ∙ ap (λ (q : String). note_group ts (state_for q m)) p in
          let gone : Map.get symbol g ≡ none = subst (λ (q : String). Map.get q g ≡ none) p u in
          rw own (
            subst
              (λ (r : Option (List IdentifiedTrade)).
                Keeps (newest (or_else r []) (newest ts o)) (state_for symbol (note_groups g m')))
              gone
              (ih (newest ts o) (
                subst (Keeps (newest ts o)) (sym noted)
                  (note_group-Keeps ts o (state_for symbol m) h))))
      | inr other ↦
          let same : state_for symbol m' ≡ state_for symbol m =
            ap (λ (r : Option SymbolTradeState). or_else r created)
              (get-set_miss k symbol state m.symbols other) in
          rw other (ih o (subst (Keeps o) (sym same) h))
    ]
