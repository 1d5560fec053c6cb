-- ===== src/Market/Engine/Registry/Bounded.antt =====
-- market-repository.ts: how many candles an answer has.
use exaint.Base.{
  ℕ, ◌-◌, min, max, ◌≤◌, ◌≡◌, List, [], ◌∷◌, arith, length, length-append, length-map, length-drop,
  Option-cases, inl, inr, Bool, true, false, map, ◌==◌, Bool-cases,
}
use exaint.Base.Keys.{string_eq}
use exaint.App.Wire.{encode_candle}
use exaint.Market.Events.{DomainCandle}
use exaint.Market.Candles.{CandleAggregator, CandleRingBuffer, recent, to_array, history_of}
use exaint.Market.Engine.Registry.{candle_history_limit_max, candles_within}

length-recent-le : (limit : ℕ) (r : CandleRingBuffer) → length (recent limit r) ≤ limit
unfolding recent
length-recent-le limit r = elim (Bool-cases (limit == 0)) [
  | inl none_wanted ↦ rw none_wanted (omega arith)
  | inr some_wanted ↦
      rw some_wanted (omega (arith, length-drop (length (to_array r) - limit) (to_array r)))
]

length-map_encode :
    (final : Bool) (cs : List DomainCandle)
    → length (map (λ c. encode_candle c final) cs) ≡ length cs
length-map_encode final cs = length-map (λ c. encode_candle c final) cs

-- Any answer about the candles of a symbol has at most `limit` of them, the open one included, or
-- one where the limit is zero, and never more than the protocol's maximum.
pub candles_within-le :
    (limit : ℕ) (a : CandleAggregator)
    → length (candles_within limit a) ≤ max 1 (min limit candle_history_limit_max)
unfolding candles_within history_of
candles_within-le limit a = elim (Option-cases a.active) [
  | inl idle ↦
      let bounded = max 1 (min limit 300) in
      rw idle (
        rw (length-map_encode true (recent bounded a.history)) (length-recent-le bounded a.history))
  | inr (active, there) ↦
      let bounded = max 1 (min limit 300) in
      let held = recent (bounded - 1) a.history in
      rw there (
        omega (
          arith,
          length-append (map (λ c. encode_candle c true) held) (encode_candle active false ∷ []),
          length-map_encode true held,
          length-recent-le (bounded - 1) a.history,
        ))
]
