-- ===== src/Web/UiModel/Latest.antt =====
-- market-ui-model.ts: the last trade of a symbol.
use exaint.Base.{
  ℕ, zero, suc, ◌≤◌, ◌≡◌, refl, sym, ◌∙◌, ap, subst, Bool, true, false, if◌then◌else◌, Option, none,
  some, List, [], ◌∷◌, ltb, ◌==◌, ==_iff, length, take, length-take, arith, Bool-cases, inl, inr,
}
use exaint.Base.Keys.{nat_eq, string_eq}
use exaint.Base.Map
use exaint.Base.Map.{Map, get-set, get-delete, has-set, set-Unique, Unique}
use exaint.Base.Sort.{sort, insert}
use exaint.App.Wire.{Trade}
use exaint.Web.UiModel.{
  IdentifiedTrade, SymbolTradeState, created, by_id, by_id_falling, is_latest, note_trade,
  note_trades, note_group,
}
use mathlib.Core.Option

abbrev is_over : ℕ → Option IdentifiedTrade → Bool
is_over k none = true
is_over k (some t) = ltb t.0 k

-- Of two trades the one with the higher id, and the earlier one of equal ids.
unfoldable pub newer : IdentifiedTrade → Option IdentifiedTrade → Option IdentifiedTrade
newer t o = if is_over t.0 o then some t else o

-- The first of the trades with the highest id, after `o`.
unfoldable pub newest : List IdentifiedTrade → Option IdentifiedTrade → Option IdentifiedTrade
newest [] o = o
newest (t ∷ ts) o = newest ts (newer t o)

-- What a state holds whose newest trade is `o`.
pub record Knows (o : Option IdentifiedTrade) (state : SymbolTradeState) : Type 0 where
  pub id : state.last_trade_id ≡ Option.map (λ (t : IdentifiedTrade). t.0) o
  pub price : state.latest_price ≡ Option.map (λ (t : IdentifiedTrade). t.1.price) o
  below : (k : ℕ) → Map.has k state.recent_trades ≡ true → is_over k o ≡ false

newer_swap :
    (t u : IdentifiedTrade) (o : Option IdentifiedTrade)
    → ltb u.0 t.0 ≡ true
    → newer u (newer t o) ≡ newer t (newer u o)
unfolding newer
newer_swap t u none h = ground arith
newer_swap t u (some v) h = ground arith

newest-insert :
    (t : IdentifiedTrade) (ts : List IdentifiedTrade) (o : Option IdentifiedTrade)
    → newest (insert by_id t ts) o ≡ newest ts (newer t o)
unfolding newest insert
newest-insert t [] o = refl
newest-insert t (u ∷ us) o = elim (Bool-cases (ltb u.0 t.0)) [
  | inl h ↦ rw h (newest-insert t us (newer u o) ∙ ap (newest us) (sym (newer_swap t u o h)))
  | inr h ↦ rw h refl
]

newest-sort :
    (ts : List IdentifiedTrade) (o : Option IdentifiedTrade)
    → newest (sort by_id ts) o ≡ newest ts o
unfolding newest sort
newest-sort [] o = refl
newest-sort (t ∷ ts) o = newest-insert t (sort by_id ts) o ∙ newest-sort ts (newer t o)

is_over-newer :
    (k : ℕ) (t : IdentifiedTrade) (o : Option IdentifiedTrade)
    → is_over k o ≡ false
    → is_over k (newer t o) ≡ false
unfolding newer
is_over-newer k t none h = cc
is_over-newer k t (some u) h = ground arith

is_over-own : (t : IdentifiedTrade) (o : Option IdentifiedTrade) → is_over t.0 (newer t o) ≡ false
unfolding newer
is_over-own t none = ground arith
is_over-own t (some u) = ground arith

is_latest-is_over :
    (k : ℕ) (o : Option IdentifiedTrade)
    → is_latest k (Option.map (λ (t : IdentifiedTrade). t.0) o) ≡ is_over k o
is_latest-is_over k none = refl
is_latest-is_over k (some t) = refl

note_trade-Knows :
    (t : IdentifiedTrade) (o : Option IdentifiedTrade) (state : SymbolTradeState)
    → Knows o state
    → Knows (newer t o) (note_trade t state)
unfolding note_trade newer
note_trade-Knows (k, trade) o state h =
    let over = ap (is_latest k) h.id ∙ is_latest-is_over k o in
    elim (Bool-cases (Map.has k state.recent_trades)) [
      | inl old ↦ rw (old, h.below k old) h
      | inr new ↦ rw new record {
        id = rw over (elim (Bool-cases (is_over k o)) [
          | inl higher ↦ rw higher refl
          | inr lower ↦ rw lower h.id
        ]);
        price = rw over (elim (Bool-cases (is_over k o)) [
          | inl higher ↦ rw higher refl
          | inr lower ↦ rw lower h.price
        ]);
        below = λ i has. elim (Bool-cases (k == i)) [
          | inl same ↦
              subst (λ (j : ℕ). is_over j (newer (k, trade) o) ≡ false) ((==_iff k i).0 same)
                (is_over-own (k, trade) o)
          | inr other ↦
              let before : Map.has i state.recent_trades ≡ true =
                (let e = has-set k i trade state.recent_trades in ground arith) in
              is_over-newer i (k, trade) o (h.below i before)
        ];
      }
    ]

note_trades-Knows :
    (ts : List IdentifiedTrade) (o : Option IdentifiedTrade) (state : SymbolTradeState)
    → Knows o state
    → Knows (newest ts o) (note_trades ts state)
unfolding note_trades newest
note_trades-Knows [] o state h = h
note_trades-Knows (t ∷ ts) o state h =
    note_trades-Knows ts (newer t o) (note_trade t state) (note_trade-Knows t o state h)

has-insert :
    (k : ℕ) (t : IdentifiedTrade) (ts : List IdentifiedTrade)
    → Map.has k (insert by_id_falling t ts) ≡ Map.has k (t ∷ ts)
unfolding insert Map.has
has-insert k t [] = refl
has-insert k t (u ∷ us) = ground (arith, has-insert k t us)

has-sort : (k : ℕ) (ts : List IdentifiedTrade) → Map.has k (sort by_id_falling ts) ≡ Map.has k ts
unfolding sort Map.has
has-sort k [] = refl
has-sort k (t ∷ ts) = has-insert k t (sort by_id_falling ts) ∙ ground (arith, has-sort k ts)

has-take : (n k : ℕ) (m : Map ℕ Trade) → Map.has k (take n m) ≡ true → Map.has k m ≡ true
unfolding Map.has
has-take zero k m h = cc
has-take (suc n) k [] h = h
has-take (suc n) k (t ∷ m) h = ground (arith, has-take n k m)

-- What a state holds between two calls.
pub record Keeps (o : Option IdentifiedTrade) (state : SymbolTradeState) : Type 0 where
  pub knows : Knows o state
  pub room : length state.recent_trades ≤ 50

pub created-Keeps : Keeps none created
created-Keeps = record {
  knows = record { id = refl; price = refl; below = λ k h. unfold Map.has in cc };
  room = omega arith;
}

pub note_group-Keeps :
    (ts : List IdentifiedTrade) (o : Option IdentifiedTrade) (state : SymbolTradeState)
    → Keeps o state
    → Keeps (newest ts o) (note_group ts state)
unfolding note_group
note_group-Keeps ts o state h =
    let noted = note_trades (sort by_id ts) state in
    let falling = sort by_id_falling noted.recent_trades in
    let k =
      subst (λ (u : Option IdentifiedTrade). Knows u noted) (newest-sort ts o)
        (note_trades-Knows (sort by_id ts) o state h.knows) in
    record {
      knows = record {
        id = k.id;
        price = k.price;
        below =
            λ i has. k.below i (sym (has-sort i noted.recent_trades) ∙ has-take 50 i falling has);
      };
      room = omega (arith, length-take 50 falling);
    }
