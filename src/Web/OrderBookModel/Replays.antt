-- ===== src/Web/OrderBookModel/Replays.antt =====
-- The client's mirror does with encoded levels what `replay` does with the levels.
use exaint.Base.{◌≡◌, refl, sym, ◌∙◌, ap, List, [], ◌∷◌, if◌then◌else◌, Bool-cases, inl, inr}
use exaint.Base.Int.{ℤ, pos, eqb_ℤ, eqb_ℤ_iff}
use exaint.Base.Keys.{int_eq}
use exaint.Protocol.Decimal.{parsed_quantity, format_quantity}
use exaint.Protocol.Decimal.RoundTrip.{parsed-format_price, parsed-format_quantity, parsed-zero}
use exaint.Market.Events.{DomainBookLevel}
use exaint.Market.OrderBook.{BookSide, bid, ask, store}
use exaint.Market.OrderBook.Replay.{replay}
use exaint.App.Wire.{encode_level, encode_levels}
use exaint.Web.OrderBookModel.{LocalOrderBook, side_of, with_side, set, set_all, apply_levels}

-- The sentinel included, a level's quantity comes back.
parsed-encode :
    (q : ℤ) → parsed_quantity (if eqb_ℤ q (pos 0) then b'0' ∷ [] else format_quantity q) ≡ q
parsed-encode q = elim (Bool-cases (eqb_ℤ q (pos 0))) [
  | inl z ↦ rw z (parsed-zero ∙ sym ((eqb_ℤ_iff q (pos 0)).0 z))
  | inr n ↦ rw n (parsed-format_quantity q)
]

set-encode :
    (s : BookSide) (l : DomainBookLevel) (b : LocalOrderBook)
    → set s (encode_level l) b ≡ with_side s (store l.0 l.1 (side_of s b)) b
unfolding set
set-encode s l b = rw (parsed-encode l.1, parsed-format_price l.0)

pub set_all-encode_bids :
    (ls : List DomainBookLevel) (b : LocalOrderBook)
    → set_all bid (encode_levels ls) b ≡ record b { bids = replay ls b.bids }
unfolding set_all encode_levels replay
set_all-encode_bids [] b = refl
set_all-encode_bids (l ∷ ls) b =
    ap (set_all bid (encode_levels ls)) (set-encode bid l b)
    ∙ (set_all-encode_bids ls (record b { bids = store l.0 l.1 b.bids }))

pub set_all-encode_asks :
    (ls : List DomainBookLevel) (b : LocalOrderBook)
    → set_all ask (encode_levels ls) b ≡ record b { asks = replay ls b.asks }
unfolding set_all encode_levels replay
set_all-encode_asks [] b = refl
set_all-encode_asks (l ∷ ls) b =
    ap (set_all ask (encode_levels ls)) (set-encode ask l b)
    ∙ (set_all-encode_asks ls (record b { asks = store l.0 l.1 b.asks }))

-- Levels that the server encodes, applied by the client, are the levels replayed.
pub apply_levels-encode :
    (bs as' : List DomainBookLevel) (b : LocalOrderBook)
    → apply_levels (encode_levels bs) (encode_levels as') b
      ≡ record { bids = replay bs b.bids; asks = replay as' b.asks }
unfolding apply_levels
apply_levels-encode bs as' b =
    rw (set_all-encode_bids bs b) (set_all-encode_asks as' (record b { bids = replay bs b.bids }))
