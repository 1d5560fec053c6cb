-- ===== src/Web/CandleData/Newest.antt =====
-- candle-data.ts: the revision of a bucket that a merge keeps.
use exaint.Base.{
  ℕ, ◌+◌, ◌*◌, ◌≡◌, refl, ◌∙◌, String, true, ◌&&◌, Option, none, some, List, [], ◌∷◌, ◌==◌,
  if◌then◌else◌, max, ltb, subst, arith, Bool-cases, inl, inr,
}
use exaint.Base.Keys.{nat_eq}
use exaint.Base.Map
use exaint.Base.Map.{Map, get-set}
use exaint.Protocol.Decimal.{parsed_identifier}
use exaint.App.Wire.{Candle}
use exaint.Web.CandleData.{is_newer, is_candle_newer, merge_into}
use text.Mathlib.Text.{◌==◌ as same_text}

-- The place of a revision: by its last trade, and final after open.
pub rank : Candle → ℕ
rank c = 2 * parsed_identifier c.last_trade_id + (if c.final then 1 else 0) + 1

-- 0 where there is no revision.
unfoldable pub rank_of : Option Candle → ℕ
rank_of none = 0
rank_of (some c) = rank c

-- The highest rank among the candles of the symbol that start at `k`.
unfoldable pub highest : String → ℕ → List Candle → ℕ
highest symbol k [] = 0
highest symbol k (c ∷ cs) =
    max (if same_text c.symbol symbol && (c.start_time == k) then rank c else 0)
      (highest symbol k cs)

is_newer-rank : (c d : Candle) → is_newer c d ≡ ltb (rank d) (rank c)
unfolding is_newer rank
is_newer-rank c d = elim (Bool-cases c.final) [
  | inl e ↦ elim (Bool-cases d.final) [
    | inl f ↦ rw (e, f) (ground arith)
    | inr f ↦ rw (e, f) (ground arith)
  ]
  | inr e ↦ elim (Bool-cases d.final) [
    | inl f ↦ rw (e, f) (ground arith)
    | inr f ↦ rw (e, f) (ground arith)
  ]
]

pub add_one :
    (symbol : String) (k : ℕ) (c : Candle) (o : Option Candle) (m : Map ℕ Candle)
    → same_text c.symbol symbol ≡ true
    → Map.get c.start_time m ≡ o
    → rank_of (Map.get k (if is_candle_newer c o then Map.set c.start_time c m else m))
      ≡ max (rank_of (Map.get k m)) (if c.start_time == k then rank c else 0)
unfolding rank_of
add_one symbol k c none m s e = ground (arith, get-set c.start_time k c m)
add_one symbol k c (some d) m s e = elim (Bool-cases (c.start_time == k)) [
  | inl same ↦
      let at : c.start_time ≡ k = (nat_eq.beq_iff c.start_time k).0 same in
      let there : Map.get k m ≡ some d = subst (λ j. Map.get j m ≡ some d) at e in
      elim (Bool-cases (is_newer c d)) [
        | inl newer ↦
            let hit : Map.get k (Map.set c.start_time c m) ≡ some c =
              ground (arith, get-set c.start_time k c m, same) in
            rw (newer, same, there, hit) (ground (arith, is_newer-rank c d))
        | inr older ↦ rw (older, same, there) (ground (arith, is_newer-rank c d))
      ]
  | inr other ↦
      let miss : Map.get k (Map.set c.start_time c m) ≡ Map.get k m =
        ground (arith, get-set c.start_time k c m, other) in
      elim (Bool-cases (is_newer c d)) [
        | inl newer ↦ rw (newer, other, miss) (omega arith)
        | inr older ↦ rw (older, other) (omega arith)
      ]
]

-- For each bucket, what is there after the loop is ranked as the highest revision of that bucket, of
-- those that were there and those that came, in whatever order they came.
pub merge_into_lem :
    (symbol : String) (k : ℕ) (cs : List Candle) (m : Map ℕ Candle)
    → rank_of (Map.get k (merge_into symbol cs m))
      ≡ max (rank_of (Map.get k m)) (highest symbol k cs)
unfolding merge_into highest
merge_into_lem symbol k [] m = omega arith
merge_into_lem symbol k (c ∷ cs) m = elim (Bool-cases (same_text c.symbol symbol)) [
  | inr other ↦ rw other (merge_into_lem symbol k cs m ∙ omega arith)
  | inl mine ↦ rw mine (
      merge_into_lem symbol k cs _
      ∙ omega (arith, add_one symbol k c (Map.get c.start_time m) m mine refl))
]
