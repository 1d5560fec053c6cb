-- ===== src/Market/OrderBook/Invariant.antt =====
-- The book's invariant, relative to the book as it was at the last flush, and that every operation
-- keeps it.
use exaint.Base.{
  ◌≡◌, refl, subst, true, false, none, some, List, [], ◌∷◌, arith, if◌then◌else◌, Bool-cases, inl,
  inr, drop,
}
use exaint.Base.Int.{ℤ, pos, ltb_ℤ, ◌+ℤ◌, ◌≤ℤ◌, ◌<ℤ◌}
use exaint.Market.OrderBook.{
  OrderBook, BookSide, bid, ask, side_of, touched_of, with_side, with_touched, set_level,
  add_quantity, quantity_at, clear_levels, prices, trim, touch, store,
}
use exaint.Market.OrderBook.Tracking.{Tracks, Positive, store-Tracks}

pub record IsValid (base b : OrderBook) : Type 0 where
  pub bid_side : Tracks base.bids b.bids b.touched_bids
  pub ask_side : Tracks base.asks b.asks b.touched_asks
  pub bids_before : Positive base.bids
  pub asks_before : Positive base.asks
  pub same_sequence : b.sequence ≡ base.sequence
  pub same_symbol : b.symbol ≡ base.symbol
  pub same_depth : b.depth ≡ base.depth

-- What `set_level` does to the book where it does not throw.
abbrev pub write : BookSide → ℤ → ℤ → OrderBook → OrderBook
write s p q b =
    with_side s (store p q (side_of s b))
      (with_touched s (touch p (side_of s b) (touched_of s b)) b)

pub write-IsValid :
    {base b : OrderBook} (s : BookSide) (p q : ℤ)
    → pos 0 ≤ℤ q
    → IsValid base b
    → IsValid base (write s p q b)
write-IsValid bid p q h v = record {
  bid_side = store-Tracks p q h v.bid_side;
  ask_side = v.ask_side;
  bids_before = v.bids_before;
  asks_before = v.asks_before;
  same_sequence = v.same_sequence;
  same_symbol = v.same_symbol;
  same_depth = v.same_depth;
}
write-IsValid ask p q h v = record {
  bid_side = v.bid_side;
  ask_side = store-Tracks p q h v.ask_side;
  bids_before = v.bids_before;
  asks_before = v.asks_before;
  same_sequence = v.same_sequence;
  same_symbol = v.same_symbol;
  same_depth = v.same_depth;
}

pub set_level_lem :
    (s : BookSide) (p q : ℤ) (b : OrderBook) → pos 0 ≤ℤ q → set_level s p q b ≡ some (write s p q b)
unfolding set_level
set_level_lem s p q b h = let e : ltb_ℤ q (pos 0) ≡ false = ground arith in rw e

set_level_throws : (s : BookSide) (p q : ℤ) (b : OrderBook) → q <ℤ pos 0 → set_level s p q b ≡ none
unfolding set_level
set_level_throws s p q b h = let e : ltb_ℤ q (pos 0) ≡ true = ground arith in rw e

-- A call of `setLevel` that returns keeps the invariant.
pub set_level-IsValid :
    {base b b' : OrderBook} (s : BookSide) (p q : ℤ)
    → set_level s p q b ≡ some b'
    → IsValid base b
    → IsValid base b'
set_level-IsValid {base} {b} {b'} s p q e v = elim (Bool-cases (ltb_ℤ q (pos 0))) [
  | inl negative ↦ cc (set_level_throws s p q b (ground arith))
  | inr natural ↦
      subst (IsValid base) (ground (arith, set_level_lem s p q b))
        (write-IsValid s p q (ground arith) v)
]

-- `addQuantity` never throws: it clamps at zero.
pub add_quantity-IsValid :
    {base b : OrderBook} (s : BookSide) (p d : ℤ)
    → IsValid base b
    → (b' : OrderBook) × (add_quantity s p d b ≡ some b') × IsValid base b'
unfolding add_quantity
add_quantity-IsValid {base} {b} s p d v =
    let next = quantity_at s p b +ℤ d in
    let clamped : ℤ = if ltb_ℤ (pos 0) next then next else pos 0 in
    let h : pos 0 ≤ℤ clamped = ground arith in
    (write s p clamped b, set_level_lem s p clamped b h, write-IsValid s p clamped h v)

pub clear_levels-IsValid :
    {base b : OrderBook} (s : BookSide) (ps : List ℤ)
    → IsValid base b
    → (b' : OrderBook) × (clear_levels s ps b ≡ some b') × IsValid base b'
unfolding clear_levels
clear_levels-IsValid {b = b} s [] v = (b, refl, v)
clear_levels-IsValid {base} {b} s (p ∷ ps) v =
    let (b', e, v') =
      clear_levels-IsValid {b = write s p (pos 0) b} s ps
        (write-IsValid s p (pos 0) (omega arith) v) in
    (b', rw (set_level_lem s p (pos 0) b (omega arith), clear_levels) e, v')

-- On a valid book `trim` does not throw, and the book it leaves is valid for the same last flush.
pub trim-IsValid :
    {base b : OrderBook} → IsValid base b → (b' : OrderBook) × (trim b ≡ some b') × IsValid base b'
unfolding trim
trim-IsValid {base} {b} v =
    let (b₁, e₁, v₁) = clear_levels-IsValid bid (drop b.depth (prices bid b)) v in
    let (b₂, e₂, v₂) = clear_levels-IsValid ask (drop b₁.depth (prices ask b₁)) v₁ in
    (b₂, rw (e₁, trim) e₂, v₂)
