-- ===== src/Market/Simulator/Sound/Ladder.antt =====
-- generator.ts: the new quotes at the touch and the refilled ladder.
use exaint.Base.{ℕ, zero, suc, ◌+◌, ◌≡◌, true, arith, inl, inr, Bool-cases}
use exaint.Base.Int.{ℤ, pos, ◌<ℤ◌, ltb_ℤ, leb_ℤ, int_laws, +ℤ_parts, -ℤ_parts, ltb_ℤ-false}
use exaint.Base.Keys.{int_eq}
use exaint.Base.Map.{Map}
use exaint.Market.Config.{SymbolConfig}
use exaint.Market.FixedPoint.{min_big_int, max_big_int}
use exaint.Market.OrderBook.{OrderBook, BookSide, bid, ask, best}
use exaint.Market.OrderBook.Invariant.{write}
use exaint.Market.OrderBook.Ladder.{best_lem}
use exaint.Market.Steps.{Post, Post_mono, Post-bind}
use exaint.Market.Simulator.{Scene}
use exaint.Market.Simulator.Quotes.{
  bid_target, ask_target, requote_bid, requote_ask, requote, grid_price, fill_slot, replenish_from,
  replenish_side, replenish,
}
use exaint.Market.Simulator.Sound.{Has, Sound, Room, WellConfigured, write-SoundParts}
use exaint.Market.Simulator.Sound.Quotes.{quote-Post, fill_slot-Post, write-Has}

-- What the targets of a tick satisfy.
abbrev pub Desired : SymbolConfig → ℤ × ℤ → Type 0
Desired config d = (pos 0 <ℤ d.0) × (pos config.level_spacing <ℤ d.1)

-- The side is not empty.
abbrev pub Occupied : Map ℤ ℤ → Type 0
Occupied m = (p : ℤ) × Has p m

module _ {config : SymbolConfig} (good : WellConfigured config) {base : OrderBook} where
  bid_target-Room :
      (desired : ℤ) (w : Scene)
      → pos 0 <ℤ desired
      → Sound config base w
      → Room config bid (bid_target config desired (best ask w.book)) w.book
  unfolding min_big_int
  bid_target-Room desired w h v = elim (best_lem ask w.book v.valid.ask_side.unique) [
    | inl (e, empty) ↦ rw e (h, λ q there. absurd (cc (empty q)))
    | inr (a, e, there, least) ↦
        let spaced = good.spaced in
        let step = -ℤ_parts a (pos config.level_spacing) in
        rw e (
          ground (arith, step, v.uncrossed.high a there),
          λ q k. let below = ltb_ℤ-false q a (least q k) in ground (arith, step),
        )
  ]

  ask_target-Room :
      (desired : ℤ) (w : Scene)
      → pos config.level_spacing <ℤ desired
      → Sound config base w
      → Room config ask (ask_target config desired (best bid w.book)) w.book
  unfolding max_big_int
  ask_target-Room desired w h v = elim (best_lem bid w.book v.valid.bid_side.unique) [
    | inl (e, empty) ↦ rw e (h, λ q there. absurd (cc (empty q)))
    | inr (b, e, there, most) ↦
        let spaced = good.spaced in
        let step = +ℤ_parts b (pos config.level_spacing) in
        rw e (
          ground (arith, step),
          λ q k. let above = ltb_ℤ-false b q (most q k) in ground (arith, step),
        )
  ]

  requote_bid-Post :
      (fuel : ℕ) (desired : ℤ) (w : Scene)
      → pos 0 <ℤ desired
      → Sound config base w
      → Post
          (requote_bid config fuel desired w)
          (λ _ w'. Sound config base w' × Occupied w'.book.bids)
  requote_bid-Post fuel desired w h v =
      let target = bid_target config desired (best ask w.book) in
      let room = bid_target-Room desired w h v in
      let positive : ltb_ℤ (pos 0) target ≡ true = ground (arith, room.0) in
      rw (positive, Post)
        (quote-Post good fuel bid target w _ (λ there. (v, (target, there)))
          (λ q state some_q. (
            write-SoundParts bid target q w (omega (arith, some_q)) (inr room) v,
            (target, write-Has bid target q w.book some_q),
          )))

  requote_ask-Post :
      (fuel : ℕ) (desired : ℤ) (w : Scene)
      → pos config.level_spacing <ℤ desired
      → Occupied w.book.bids
      → Sound config base w
      → Post
          (requote_ask config fuel desired w)
          (λ _ w'. Sound config base w' × Occupied w'.book.bids × Occupied w'.book.asks)
  requote_ask-Post fuel desired w h bids v =
      let target = ask_target config desired (best bid w.book) in
      let room = ask_target-Room desired w h v in
      quote-Post good fuel ask target w _ (λ there. (v, bids, (target, there)))
        (λ q state some_q. (
          write-SoundParts ask target q w (omega (arith, some_q)) (inr room) v,
          bids,
          (target, write-Has ask target q w.book some_q),
        ))

  pub requote-Post :
      (fuel : ℕ) (d : ℤ × ℤ) (w : Scene)
      → Desired config d
      → Sound config base w
      → Post
          (requote config fuel d.0 d.1 w)
          (λ _ w'. Sound config base w' × Occupied w'.book.bids × Occupied w'.book.asks)
  unfolding requote
  requote-Post fuel d w h v =
      Post-bind (requote_bid config fuel d.0) (λ _. requote_ask config fuel d.1) w _ _
        (requote_bid-Post fuel d.0 w h.0 v) (λ _ w' r. requote_ask-Post fuel d.1 w' h.1 r.1 r.0)

  -- The slots beyond the touch all have room, as long as the other side stays as it is.
  replenish_from-Post :
      (fuel : ℕ) (s : BookSide) (touch : ℤ) (G : OrderBook → Type 0)
      → ((b : OrderBook) (offset : ℕ)
          → pos 0 <ℤ grid_price config s touch offset
          → G b
          → Room config s (grid_price config s touch offset) b)
      → ((p q : ℤ) (b : OrderBook) → G b → G (write s p q b))
      → (n offset : ℕ) (w : Scene) → G w.book
      → Sound config base w
      → Post
          (replenish_from config fuel s touch n offset w)
          (λ _ w'. Sound config base w' × G w'.book)
  unfolding replenish_from
  replenish_from-Post fuel s touch G room stays zero offset w g v = (v, g)
  replenish_from-Post fuel s touch G room stays (suc n) offset w g v =
      let price = grid_price config s touch offset in
      elim (Bool-cases (leb_ℤ price (pos 0))) [
        | inl out ↦ rw (out, Post) (v, g)
        | inr inside ↦
            let here = room w.book offset (ground arith) g in
            rw (inside, Post)
              (Post-bind (fill_slot config fuel s price offset)
                (λ _. replenish_from config fuel s touch n (offset + 1)) w
                (λ _ w'. Sound config base w' × G w'.book) _
                (fill_slot-Post good fuel s price offset w _ (v, g)
                  (λ q state natural.
                    (write-SoundParts s price q w natural (inr here) v, stays price q w.book g)))
                (λ _ w' r. replenish_from-Post fuel s touch G room stays n (offset + 1) w' r.1 r.0))
      ]

  -- The asks do not change while bids are filled in, and stay above the touch.
  replenish_bids-Post :
      (fuel : ℕ) (desired : ℤ) (w : Scene)
      → Occupied w.book.bids
      → Occupied w.book.asks
      → Sound config base w
      → Post
          (replenish_side config fuel bid desired w)
          (λ _ w'. Sound config base w' × Occupied w'.book.asks)
  replenish_bids-Post fuel desired w (p, hp) asks v =
      elim (best_lem bid w.book v.valid.bid_side.unique) [
        | inl (e, empty) ↦ absurd (cc (empty p))
        | inr (b, e, there, most) ↦
            rw (e, Post)
              (Post_mono (replenish_from config fuel bid b w.book.depth 0 w) _ _
                (λ _ w' r. (r.0, r.1.1))
                (replenish_from-Post fuel bid b
                  (λ book. ((q : ℤ) → Has q book.asks → b <ℤ q) × Occupied book.asks)
                  (λ book offset h g. (h, λ q k. omega (int_laws, g.0 q k))) (λ p q book g. g)
                  w.book.depth 0 w ((λ q k. v.uncrossed.apart b q there k), asks) v))
      ]

  replenish_asks-Post :
      (fuel : ℕ) (desired : ℤ) (w : Scene)
      → Occupied w.book.asks
      → Sound config base w
      → Post (replenish_side config fuel ask desired w) (λ _ w'. Sound config base w')
  replenish_asks-Post fuel desired w (q, hq) v =
      elim (best_lem ask w.book v.valid.ask_side.unique) [
        | inl (e, empty) ↦ absurd (cc (empty q))
        | inr (a, e, there, least) ↦
            rw (e, Post)
              (Post_mono (replenish_from config fuel ask a w.book.depth 0 w) _ _ (λ _ w' r. r.0)
                (replenish_from-Post fuel ask a (λ book. (p : ℤ) → Has p book.bids → p <ℤ a)
                  (λ book offset h g.
                    (omega (int_laws, v.uncrossed.high a there), λ p k. omega (int_laws, g p k)))
                  (λ p q book g. g) w.book.depth 0 w (λ p k. v.uncrossed.apart p a k there) v))
      ]

  pub replenish-Post :
      (fuel : ℕ) (d : ℤ × ℤ) (w : Scene)
      → Occupied w.book.bids
      → Occupied w.book.asks
      → Sound config base w
      → Post (replenish config fuel d.0 d.1 w) (λ _ w'. Sound config base w')
  unfolding replenish
  replenish-Post fuel d w bids asks v =
      Post-bind (replenish_side config fuel bid d.0) (λ _. replenish_side config fuel ask d.1) w _ _
        (replenish_bids-Post fuel d.0 w bids asks v)
        (λ _ w' r. replenish_asks-Post fuel d.1 w' r.1 r.0)
