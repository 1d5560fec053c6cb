-- ===== src/Market/Simulator/Quotes.antt =====
-- generator.ts: quotes. Churn, new quotes at the touch, and the ladder refilled.
use exaint.Base.{
  ℕ, zero, suc, ◌+◌, ◌-◌, ◌*◌, ◌/◌, not, Option, none, some, ltb, ◌==◌, if◌then◌else◌, or_else,
  length, get_elem?,
}
use exaint.Base.Int.{ℤ, pos, ◌+ℤ◌, ◌-ℤ◌, ◌*ℤ◌, ltb_ℤ, leb_ℤ, eqb_ℤ, div_ℤ}
use exaint.Market.FixedPoint.{min_big_int, max_big_int}
use exaint.Market.OrderBook.{BookSide, bid, ask, prices, best, quantity_at, trim}
use exaint.Market.Steps.{Done, gets, skip, ◌>>=◌, ◌>>◌}
use exaint.Market.Prng.{next_float, next_boolean, next_big_int_between, next_int_between}
use exaint.Market.Config.{SymbolConfig}
use exaint.Market.Simulator.{
  Scenic, draw, with_book, write_level, change_level, random_level_quantity,
}

abbrev pub trim_book : Scenic Done
trim_book w = with_book (trim w.book) w

module _ (config : SymbolConfig) where
  -- Targets are held on their side of the other side's best price.
  abbrev pub bid_target : ℤ → Option ℤ → ℤ
  bid_target desired none = desired
  bid_target desired (some best_ask) = min_big_int desired (best_ask -ℤ pos config.level_spacing)

  abbrev pub ask_target : ℤ → Option ℤ → ℤ
  ask_target desired none = desired
  ask_target desired (some best_bid) = max_big_int desired (best_bid +ℤ pos config.level_spacing)

  abbrev pub grid_price : BookSide → ℤ → ℕ → ℤ
  grid_price bid touch offset = touch -ℤ pos (config.level_spacing * offset)
  grid_price ask touch offset = touch +ℤ pos (config.level_spacing * offset)

module _ (config : SymbolConfig) (fuel : ℕ) where
  -- One event of `#churn`, at a price of the side or nowhere.
  abbrev pub churn_at : BookSide → Option ℤ → Scenic Done
  churn_at side none = skip
  churn_at side (some price) = draw next_float >>= λ roll.
      if ltb roll 5404319552844595
      then (random_level_quantity config fuel >>= λ quantity.
          change_level side price (div_ℤ quantity 4))
      else (draw (next_big_int_between fuel (pos 0) (pos 75)) >>= λ kept_percent.
          gets (λ w. quantity_at side price w.book) >>= λ quantity.
          write_level side price (div_ℤ (quantity *ℤ kept_percent) 100))

  abbrev pub churn_event : Scenic Done
  churn_event = draw next_boolean >>= λ coin.
      let side = if coin then bid else ask in
      gets (λ w. prices side w.book) >>= λ ps.
      if length ps == 0
      then skip
      else draw (next_int_between fuel 0 (length ps - 1)) >>= λ i. churn_at side (get_elem? ps i)

  unfoldable pub churn_events : ℕ → Scenic Done
  churn_events zero = skip
  churn_events (suc n) = churn_event >> churn_events n

  abbrev pub churn : Scenic Done
  churn = churn_events config.churn_events

  abbrev pub quote : BookSide → ℤ → Scenic Done
  quote side target = gets (λ w. quantity_at side target w.book) >>= λ quantity.
      if eqb_ℤ quantity (pos 0)
      then (random_level_quantity config fuel >>= λ fresh. write_level side target fresh)
      else skip

  abbrev pub requote_bid : ℤ → Scenic Done
  requote_bid desired = gets (λ w. best ask w.book) >>= λ best_ask.
      let target = bid_target config desired best_ask in
      if ltb_ℤ (pos 0) target then quote bid target else skip

  abbrev pub requote_ask : ℤ → Scenic Done
  requote_ask desired =
      gets (λ w. best bid w.book) >>= λ best_bid. quote ask (ask_target config desired best_bid)

  unfoldable pub requote : ℤ → ℤ → Scenic Done
  requote desired_bid desired_ask = requote_bid desired_bid >> requote_ask desired_ask

  abbrev pub fill_slot : BookSide → ℤ → ℕ → Scenic Done
  fill_slot side price offset = gets (λ w. quantity_at side price w.book) >>= λ quantity.
      if not (eqb_ℤ quantity (pos 0))
      then skip
      else random_level_quantity config fuel >>= λ fresh.
          write_level side price (fresh *ℤ (pos 1 +ℤ pos (offset / 8)))

  -- The loop of `#replenish` on one side: `n` slots, from `offset` on.
  unfoldable pub replenish_from : BookSide → ℤ → ℕ → ℕ → Scenic Done
  replenish_from side touch zero offset = skip
  replenish_from side touch (suc n) offset =
      let price = grid_price config side touch offset in
      if leb_ℤ price (pos 0)
      then skip
      else fill_slot side price offset >> replenish_from side touch n (offset + 1)

  abbrev pub replenish_side : BookSide → ℤ → Scenic Done
  replenish_side side desired = gets (λ w. best side w.book) >>= λ touch.
      gets (λ w. w.book.depth) >>= λ depth. replenish_from side (or_else touch desired) depth 0

  unfoldable pub replenish : ℤ → ℤ → Scenic Done
  unfolding replenish_from
  replenish desired_bid desired_ask =
      replenish_side bid desired_bid >> replenish_side ask desired_ask
