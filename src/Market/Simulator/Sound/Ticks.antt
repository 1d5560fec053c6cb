-- ===== src/Market/Simulator/Sound/Ticks.antt =====
-- generator.ts: the opening ladder and every tick leave a sound book, and throw nothing.
use exaint.Base.{
  ℕ, ◌*◌, ◌/◌, ◌≤◌, ◌<◌, ◌≡◌, refl, ap, ◌∙◌, none, some, List, [], ◌∷◌, arith, inl, drop, ltb,
}
use exaint.Base.Int.{ℤ, pos, ◌≤ℤ◌, ◌+ℤ◌, *ℤ_pos, nonneg_of, int_laws}
use native.Mathlib.Nat.{mod-lt, mod-add-div', mul-le-mul_left}
use exaint.Market.Config.{SymbolConfig}
use exaint.Market.FixedPoint.{clamp_big_int, floor_to_tick}
use exaint.Market.FixedPoint.Bounds.{floor_to_tick-pos}
use exaint.Market.OrderBook.{
  OrderBook, BookSide, bid, ask, prices, clear_levels, trim, clear_pending_changes,
}
use exaint.Market.OrderBook.Tracking.{Tracks-start}
use exaint.Market.OrderBook.Invariant.{IsValid, write, set_level_lem}
use exaint.Market.Steps.{Done, Post, Post_mono, Post-bind, skip, ◌>>◌}
use exaint.Protocol.{buy, sell}
use exaint.Market.Prng.{next_float, next_bell_between, next_big_int_between}
use exaint.Market.Prng.Bounds.{next_bell_between-Post, next_big_int_between-Post}
use exaint.Market.Simulator.{Scene, Scenic, draw, set_sim, floor, ceiling, or_throw, targets}
use exaint.Market.Simulator.Flow.{fill, next_noise_side, update_regime}
use exaint.Market.Simulator.Quotes.{requote, replenish, trim_book}
use exaint.Market.Simulator.Ticks.{
  seed_book, tick, move_fair_value, maybe_cascade, maybe_noise, trade_round,
}
use exaint.Market.Simulator.Sound.{Sound, WellConfigured, write-SoundParts}
use exaint.Market.Simulator.Sound.Steps.{Keeps, bind-Keeps, if-Keeps, draw-Keeps, next_float-Keeps}
use exaint.Market.Simulator.Sound.Flow.{
  fill-Keeps, execute_cascade-Keeps, update_regime-Keeps, next_noise_side-Keeps, clamped-Sound,
  fair-Sound,
}
use exaint.Market.Simulator.Sound.Quotes.{churn_events-Keeps}
use exaint.Market.Simulator.Sound.Ladder.{Desired, requote-Post, replenish-Post}

module _ {config : SymbolConfig} {base : OrderBook} where
  clear_levels-Sound :
      (s : BookSide) (ps : List ℤ) (w : Scene)
      → Sound config base w
      → (b' : OrderBook) × (clear_levels s ps w.book ≡ some b')
        × Sound config base (record w { book = b' })
  unfolding clear_levels
  clear_levels-Sound s [] w v = (w.book, refl, v)
  clear_levels-Sound s (p ∷ ps) w v =
      let (b', e, v') =
        clear_levels-Sound s ps (record w { book = write s p (pos 0) w.book })
          (write-SoundParts s p (pos 0) w (omega arith) (inl refl) v) in
      (b', rw (set_level_lem s p (pos 0) w.book (omega arith), clear_levels) e, v')

  trim_book-Keeps : Keeps config base trim_book
  unfolding trim
  trim_book-Keeps w v =
      let (b₁, e₁, v₁) = clear_levels-Sound bid (drop w.book.depth (prices bid w.book)) w v in
      let w₁ : Scene = record w { book = b₁ } in
      let (b₂, e₂, v₂) = clear_levels-Sound ask (drop b₁.depth (prices ask b₁)) w₁ v₁ in
      rw (e₁, e₂, Post) v₂

  targets-Post :
      (good : WellConfigured config) (w : Scene)
      → Sound config base w
      → Post (targets config w) (λ d w'. Desired config d × Sound config base w')
  unfolding targets
  targets-Post good w v =
      let spacing = config.level_spacing in
      let spaced = good.spaced in
      let spread : 1 ≤ config.spread_spacings = omega (arith, good.spread) in
      let (n, e) = nonneg_of w.sim.fair_value (omega (arith, v.above_floor)) in
      let anchor = ap (λ f. floor_to_tick f spacing) e ∙ floor_to_tick-pos n spacing spaced in
      let high : pos (config.base_price / 4) ≤ℤ pos n = rw e at v.above_floor in
      let positive : 0 < n / spacing * spacing =
        omega (arith, good.priced, mod-lt n spaced, mod-add-div' n spacing, high) in
      let wide = mul-le-mul_left spacing spread in
      rw (anchor, Post)
        ((omega arith, rw (*ℤ_pos spacing config.spread_spacings) (omega int_laws)), v)

  move_fair_value-Keeps : (fuel : ℕ) → Keeps config base (move_fair_value config fuel)
  move_fair_value-Keeps fuel =
      bind-Keeps (draw (next_bell_between fuel (pos config.volatility))) _
        (draw-Keeps (next_bell_between fuel (pos config.volatility)) (λ state.
          Post_mono (next_bell_between fuel (pos config.volatility) state) _ (λ _ _. Done)
            (λ _ _ _. tt) (next_bell_between-Post fuel config.volatility state)))
        (λ random_step w v.
          let moved = w.sim.fair_value +ℤ random_step +ℤ w.sim.trend_velocity in
          Post-bind (or_throw (clamp_big_int moved (floor config) (ceiling config)))
            (λ fair. set_sim (λ sim. record sim { fair_value = fair })) w _
            (λ _ w'. Sound config base w') (clamped-Sound moved w v)
            (λ fair w' h. fair-Sound fair w' h.0 h.1))

  maybe_cascade-Keeps :
      (fuel timestamp : ℕ) → Keeps config base (maybe_cascade config fuel timestamp)
  maybe_cascade-Keeps fuel timestamp =
      if-Keeps (ltb 0 config.volatility) _ _
        (bind-Keeps (draw next_float) _ next_float-Keeps (λ roll.
          if-Keeps (ltb roll 162129586585338) _ skip (execute_cascade-Keeps fuel timestamp)
            (λ w v. v)))
        (λ w v. v)

  maybe_noise-Keeps :
      (good : WellConfigured config) (fuel timestamp : ℕ)
      → Keeps config base (maybe_noise config fuel timestamp)
  maybe_noise-Keeps good fuel timestamp =
      let low = pos config.min_trade_quantity in
      let high = pos config.max_trade_quantity in
      let d = next_big_int_between fuel low high in
      bind-Keeps (draw next_float) _ next_float-Keeps (λ roll.
        if-Keeps (ltb roll config.trade_probability) _ skip
          (bind-Keeps next_noise_side _ next_noise_side-Keeps (λ side.
            bind-Keeps (draw d) _
              (draw-Keeps d (λ state.
                Post_mono (d state) _ (λ _ _. Done) (λ _ _ _. tt)
                  (next_big_int_between-Post fuel low high state
                    (omega (arith, good.trade_range)))))
              (λ quantity. fill-Keeps side (some quantity) none timestamp)))
          (λ w v. v))

  trade_round-Keeps :
      (good : WellConfigured config) (fuel timestamp : ℕ) (d : ℤ × ℤ)
      → Keeps config base (trade_round config fuel timestamp d)
  trade_round-Keeps good fuel timestamp d =
      let first = fill config buy none (some d.1) timestamp in
      let second = fill config sell none (some d.0) timestamp in
      let third = maybe_cascade config fuel timestamp in
      let fourth = maybe_noise config fuel timestamp in
      bind-Keeps (first >> second >> third >> fourth) _
        (bind-Keeps (first >> second >> third) _
          (bind-Keeps (first >> second) _
            (bind-Keeps first _ (fill-Keeps buy none (some d.1) timestamp)
              (λ _. fill-Keeps sell none (some d.0) timestamp))
            (λ _. maybe_cascade-Keeps fuel timestamp))
          (λ _. maybe_noise-Keeps good fuel timestamp))
        (λ _. churn_events-Keeps good fuel config.churn_events)

  -- New quotes, the ladder refilled and the book trimmed, after steps that keep the book sound.
  ladder-Keeps :
      (good : WellConfigured config) (fuel : ℕ) (d : ℤ × ℤ) (m : Scenic Done)
      → Desired config d
      → Keeps config base m
      → Keeps config base
          (m >> requote config fuel d.0 d.1 >> replenish config fuel d.0 d.1 >> trim_book)
  ladder-Keeps good fuel d m h hm =
      let quotes = requote config fuel d.0 d.1 in
      let levels = replenish config fuel d.0 d.1 in
      bind-Keeps (m >> quotes >> levels) _
        (λ w v.
          Post-bind (m >> quotes) (λ _. levels) w _ _
            (Post-bind m (λ _. quotes) w (λ _ w'. Sound config base w') _ (hm w v)
              (λ _ w' v'. requote-Post good fuel d w' h v'))
            (λ _ w' r. replenish-Post good fuel d w' r.1 r.2 r.0))
        (λ _. trim_book-Keeps)

  -- From a sound state a tick throws nothing, and leaves a sound state.
  pub tick-Keeps :
      (good : WellConfigured config) (fuel timestamp : ℕ)
      → Keeps config base (tick config fuel timestamp)
  unfolding tick
  tick-Keeps good fuel timestamp w v =
      let opening = update_regime config fuel >> move_fair_value config fuel in
      Post-bind (opening >> targets config) _ w (λ d w'. Desired config d × Sound config base w') _
        (Post-bind opening (λ _. targets config) w (λ _ w'. Sound config base w') _
          (bind-Keeps (update_regime config fuel) _ (update_regime-Keeps fuel)
            (λ _. move_fair_value-Keeps fuel) w v)
          (λ _ w' v'. targets-Post good w' v'))
        (λ d w' r.
          ladder-Keeps good fuel d (trade_round config fuel timestamp d) r.0
            (trade_round-Keeps good fuel timestamp d) w' r.1)

-- Right after the pending changes are cleared the book is its own last flush.
pub cleared-IsValid :
    {base b : OrderBook} → IsValid base b → let b' = clear_pending_changes b in IsValid b' b'
unfolding clear_pending_changes
cleared-IsValid {base} {b} v = record {
  bid_side = Tracks-start b.bids v.bid_side.unique v.bid_side.positive;
  ask_side = Tracks-start b.asks v.ask_side.unique v.ask_side.positive;
  bids_before = v.bid_side.positive;
  asks_before = v.ask_side.positive;
  same_sequence = refl;
  same_symbol = refl;
  same_depth = refl;
}

-- The opening ladder, on a sound state such as an empty book.
pub seed_book-Sound :
    {config : SymbolConfig} {base : OrderBook} (good : WellConfigured config) (fuel : ℕ) (w : Scene)
    → Sound config base w
    → Post (seed_book config fuel w) (λ _ w'. Sound config w'.book w')
unfolding seed_book clear_pending_changes
seed_book-Sound {config} {base} good fuel w v =
    Post-bind (targets config) _ w (λ d w'. Desired config d × Sound config base w') _
      (targets-Post good w v)
      (λ d w₁ r.
        Post-bind (requote config fuel d.0 d.1 >> replenish config fuel d.0 d.1 >> trim_book) _ w₁
          (λ _ w'. Sound config base w') _ (ladder-Keeps good fuel d skip r.0 (λ w v. v) w₁ r.1)
          (λ _ w₂ v₂. record {
            valid = cleared-IsValid v₂.valid;
            uncrossed = record {
              apart = v₂.uncrossed.apart;
              low = v₂.uncrossed.low;
              high = v₂.uncrossed.high;
            };
            prints = v₂.prints;
            above_floor = v₂.above_floor;
          }))
