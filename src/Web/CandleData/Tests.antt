-- ===== src/Web/CandleData/Tests.antt =====
-- Two revisions of one bucket, the newer one first.
use exaint.Base.{ℕ, ◌≡◌, Bool, true, false, [], ◌∷◌, max}
use exaint.Base.Keys.{nat_eq}
use exaint.Base.Map
use exaint.Protocol.Decimal.{Text}
use exaint.App.Wire.{Candle}
use exaint.Web.CandleData.{merge_into}
use exaint.Web.CandleData.Newest.{rank_of, highest, merge_into_lem}

abbrev pub revision : Text → Bool → Candle
revision last_trade_id final = record {
  symbol = "BTC";
  start_time = 1000;
  open_price = b'1' ∷ [];
  high = b'1' ∷ [];
  low = b'1' ∷ [];
  close = b'1' ∷ [];
  volume = b'1' ∷ [];
  trade_count = 1;
  last_trade_id = last_trade_id;
  final = final;
}

merge_into_lem_example :
    rank_of (
      Map.get 1000
        (merge_into "BTC" (revision (b'7' ∷ []) true ∷ revision (b'5' ∷ []) false ∷ []) []))
    ≡ max
        (rank_of (Map.get {K = ℕ} {V = Candle} 1000 []))
        (highest "BTC" 1000 (revision (b'7' ∷ []) true ∷ revision (b'5' ∷ []) false ∷ []))
merge_into_lem_example =
    merge_into_lem "BTC" 1000 (revision (b'7' ∷ []) true ∷ revision (b'5' ∷ []) false ∷ []) []
