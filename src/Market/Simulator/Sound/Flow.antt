-- ===== src/Market/Simulator/Sound/Flow.antt =====
-- generator.ts: fills, cascades and regimes keep the book sound.
use exaint.Base.{
  ℕ, ◌≤◌, ◌≡◌, refl, false, Option, none, some, List, [], ◌∷◌, arith, All-append, inl, inr,
  Bool-cases, if◌then◌else◌, ltb, leb, ◌==◌, take, length, min,
}
use exaint.Base.Int.{ℤ, pos, neg, ◌≤ℤ◌, ◌<ℤ◌, ◌+ℤ◌, ◌-ℤ◌, ltb_ℤ, leb_ℤ}
use exaint.Base.Keys.{int_eq}
use exaint.Base.Map
use exaint.Base.Map.{has-get}
use exaint.Protocol.{Side}
use exaint.Market.Config.{SymbolConfig, order_flow_persistence}
use exaint.Market.FixedPoint.Bounds.{clamp_big_int_lem}
use exaint.Market.FixedPoint.{min_big_int, clamp_big_int}
use exaint.Market.OrderBook.{
  OrderBook, BookSide, bid, ask, side_of, quantity_at, add_quantity, prices, best,
}
use exaint.Market.OrderBook.Invariant.{set_level_lem}
use exaint.Market.Steps.{Done, Post, Post_mono, Post-bind, gets, skip, pure, ◌>>=◌, ◌>>◌}
use exaint.Market.Prng.{next_float, next_int_between}
use exaint.Market.Prng.Bounds.{next_int_between-Post}
use exaint.Market.Simulator.{
  Scene, Scenic, draw, set_sim, write_level, change_level, opposite, flip, remember, floor, ceiling,
  or_throw,
}
use exaint.Market.Simulator.Flow.{
  print_trade, fill_levels, fill, sweep_levels, taken_of, left_of, used_up, past_limit,
  cascade_side, follow_touch, execute_cascade, enter_regime, choose_regime, update_regime,
  next_noise_side, noise_side_after,
}
use exaint.Market.Simulator.Sound.{Has, Sound, Room, IsPrint, Has-Room, write-SoundParts}
use exaint.Market.Simulator.Sound.Steps.{
  Keeps, bind-Keeps, if-Keeps, draw-Keeps, next_float-Keeps, write_level-Post,
}

-- A level with a quantity is a level of the side.
pub quantity-Has :
    (s : BookSide) (p : ℤ) (b : OrderBook) → pos 0 <ℤ quantity_at s p b → Has p (side_of s b)
unfolding quantity_at
quantity-Has s p b h = elim (Bool-cases (Map.has p (side_of s b))) [
  | inl there ↦ there
  | inr gone ↦ absurd (ground (arith, has-get p (side_of s b) gone))
]

-- What a level that is there is bigger than.
Room-positive :
    (config : SymbolConfig) (s : BookSide) (p : ℤ) (b : OrderBook) → Room config s p b → pos 0 <ℤ p
Room-positive config bid p b r = r.0
Room-positive config ask p b r = omega (arith, r.0)

taken-positive :
    (remaining : Option ℤ) (available : ℤ)
    → used_up remaining ≡ false
    → pos 0 <ℤ available
    → pos 0 <ℤ taken_of remaining available
unfolding min_big_int
taken-positive remaining available h k = ground arith

module _ {config : SymbolConfig} {base : OrderBook} where
  -- A trade at a level that was there: the level is changed, then the trade is printed.
  print-Sound :
      (side : Side) (price quantity : ℤ) (timestamp : ℕ) (w : Scene)
      → pos 0 <ℤ quantity
      → pos 0 <ℤ price
      → Sound config base w
      → Post (print_trade config side price quantity timestamp w) (λ _ w'. Sound config base w')
  print-Sound side price quantity timestamp w hq hp v = record {
    valid = v.valid;
    uncrossed = v.uncrossed;
    prints = All-append IsPrint w.sink _ v.prints ((hq, hp), tt);
    above_floor = v.above_floor;
  }

  pub change_level-Sound :
      (s : BookSide) (p d : ℤ) (w : Scene)
      → Has p (side_of s w.book)
      → Sound config base w
      → Post (change_level s p d w) (λ _ w'. Sound config base w')
  unfolding add_quantity
  change_level-Sound s p d w h v =
      let next = quantity_at s p w.book +ℤ d in
      let clamped : ℤ = if ltb_ℤ (pos 0) next then next else pos 0 in
      let natural : pos 0 ≤ℤ clamped = ground arith in
      rw (set_level_lem s p clamped w.book natural, Post)
        (write-SoundParts s p clamped w natural (inr (Has-Room config s p w.book v.uncrossed h)) v)

  trade-Post :
      (side : Side) (price quantity : ℤ) (timestamp : ℕ) (m rest : Scenic Done) (w : Scene)
      → Post (m w) (λ _ w'. Sound config base w')
      → pos 0 <ℤ quantity
      → pos 0 <ℤ price
      → Keeps config base rest
      → Post
          ((m >> print_trade config side price quantity timestamp >> rest) w)
          (λ _ w'. Sound config base w')
  trade-Post side price quantity timestamp m rest w hm hq hp hr =
      let print = print_trade config side price quantity timestamp in
      Post-bind (m >> print) (λ _. rest) w (λ _ w'. Sound config base w') _
        (Post-bind m (λ _. print) w (λ _ w'. Sound config base w') _ hm
          (λ _ w' v'. print-Sound side price quantity timestamp w' hq hp v'))
        (λ _ w' v'. hr w' v')

  fill_levels-Keeps :
      (side : Side) (limit : Option ℤ) (timestamp : ℕ) (ps : List ℤ) (remaining : Option ℤ)
      → Keeps config base (fill_levels config side limit timestamp ps remaining)
  unfolding fill_levels
  fill_levels-Keeps side limit timestamp [] remaining w v = v
  fill_levels-Keeps side limit timestamp (p ∷ ps) remaining w v =
      let available = quantity_at (opposite side) p w.book in
      let taken = taken_of remaining available in
      elim (Bool-cases (used_up remaining)) [
        | inl done ↦ rw (done, Post) v
        | inr more ↦
            rw (more, Post)
              (elim (Bool-cases (past_limit side p limit)) [
                | inl past ↦ rw (past, Post) v
                | inr near ↦
                    rw (near, Post)
                      (elim (Bool-cases (leb_ℤ available (pos 0))) [
                        | inl empty ↦
                            rw (empty, Post)
                              (fill_levels-Keeps side limit timestamp ps remaining w v)
                        | inr full ↦
                            let positive : pos 0 <ℤ available = ground arith in
                            let here = quantity-Has (opposite side) p w.book positive in
                            rw (full, Post)
                              (trade-Post side p taken timestamp
                                (change_level (opposite side) p (neg taken))
                                (fill_levels config side limit timestamp ps
                                  (left_of remaining taken))
                                w (change_level-Sound (opposite side) p (neg taken) w here v)
                                (taken-positive remaining available more positive)
                                (Room-positive config (opposite side) p w.book
                                  (Has-Room config (opposite side) p w.book v.uncrossed here))
                                (fill_levels-Keeps side limit timestamp ps
                                  (left_of remaining taken)))
                      ])
              ])
      ]

  pub fill-Keeps :
      (side : Side) (quantity limit : Option ℤ) (timestamp : ℕ)
      → Keeps config base (fill config side quantity limit timestamp)
  unfolding fill
  fill-Keeps side quantity limit timestamp w v =
      fill_levels-Keeps side limit timestamp (prices (opposite side) w.book) quantity w v

  sweep_levels-Keeps :
      (side : Side) (timestamp : ℕ) (ps : List ℤ)
      → Keeps config base (sweep_levels config side timestamp ps)
  unfolding sweep_levels
  sweep_levels-Keeps side timestamp [] w v = v
  sweep_levels-Keeps side timestamp (p ∷ ps) w v =
      let available = quantity_at (opposite side) p w.book in
      elim (Bool-cases (leb_ℤ available (pos 0))) [
        | inl empty ↦ rw (empty, Post) (sweep_levels-Keeps side timestamp ps w v)
        | inr full ↦
            let positive : pos 0 <ℤ available = ground arith in
            let here = quantity-Has (opposite side) p w.book positive in
            rw (full, Post)
              (trade-Post side p available timestamp (write_level (opposite side) p (pos 0))
                (sweep_levels config side timestamp ps) w
                (write_level-Post (opposite side) p (pos 0) w (λ _ w'. Sound config base w')
                  (omega arith)
                  (write-SoundParts (opposite side) p (pos 0) w (omega arith) (inl refl) v))
                positive
                (Room-positive config (opposite side) p w.book
                  (Has-Room config (opposite side) p w.book v.uncrossed here))
                (sweep_levels-Keeps side timestamp ps))
      ]

  -- A fair value that was clamped.
  pub clamped-Sound :
      (value : ℤ) (w : Scene)
      → Sound config base w
      → Post
          (or_throw (clamp_big_int value (floor config) (ceiling config)) w)
          (λ fair w'. (floor config ≤ℤ fair) × Sound config base w')
  clamped-Sound value w v =
      let (c, e, low, high, same) =
        clamp_big_int_lem value (floor config) (ceiling config) (omega arith) in
      rw (e, Post) (low, v)

  -- The fair value replaced by one that is not below the floor.
  pub fair-Sound :
      (fair : ℤ) (w : Scene)
      → floor config ≤ℤ fair
      → Sound config base w
      → Sound config base (record w { sim = record w.sim { fair_value = fair } })
  fair-Sound fair w h v = record {
    valid = v.valid;
    uncrossed = v.uncrossed;
    prints = v.prints;
    above_floor = h;
  }

  follow_touch-Keeps : (touch : Option ℤ) → Keeps config base (follow_touch config touch)
  follow_touch-Keeps none w v = v
  follow_touch-Keeps (some touch) w v =
      Post-bind (or_throw (clamp_big_int touch (floor config) (ceiling config)))
        (λ fair. set_sim (λ sim. record sim { fair_value = fair })) w
        (λ fair w'. (floor config ≤ℤ fair) × Sound config base w') (λ _ w'. Sound config base w')
        (clamped-Sound touch w v) (λ fair w' h. fair-Sound fair w' h.0 h.1)

  cascade_side-Keeps : Keeps config base cascade_side
  unfolding cascade_side
  cascade_side-Keeps w v = elim (Bool-cases (ltb_ℤ (pos 0) w.sim.trend_velocity)) [
    | inl up ↦ rw (up, Post) v
    | inr other ↦
        rw (other, Post)
          (elim (Bool-cases (ltb_ℤ w.sim.trend_velocity (pos 0))) [
            | inl down ↦ rw (down, Post) v
            | inr flat ↦ rw (flat, Post) v
          ])
  ]

  pub int_draw-Keeps :
      (fuel low high : ℕ) → low ≤ high → Keeps config base (draw (next_int_between fuel low high))
  int_draw-Keeps fuel low high h = draw-Keeps (next_int_between fuel low high) (λ state.
      Post_mono (next_int_between fuel low high state) _ (λ _ _. Done) (λ _ _ _. tt)
        (next_int_between-Post fuel low high state h))

  pub execute_cascade-Keeps :
      (fuel timestamp : ℕ) → Keeps config base (execute_cascade config fuel timestamp)
  unfolding execute_cascade
  execute_cascade-Keeps fuel timestamp = bind-Keeps cascade_side _ cascade_side-Keeps (λ side w v.
      let ps = prices (opposite side) w.book in
      if-Keeps (length ps == 0) skip _ (λ w v. v)
        (bind-Keeps (draw (next_int_between fuel 2 4)) _ (int_draw-Keeps fuel 2 4 (omega arith))
          (λ levels.
            bind-Keeps
              (sweep_levels config side timestamp (take (min levels (length ps)) ps)
                >> gets (λ w. best (opposite side) w.book))
              (follow_touch config)
              (bind-Keeps (sweep_levels config side timestamp (take (min levels (length ps)) ps)) _
                (sweep_levels-Keeps side timestamp (take (min levels (length ps)) ps)) (λ _ w v. v))
              follow_touch-Keeps))
        w v)

  enter_regime-Keeps :
      (fuel : ℕ) (velocity : ℤ) (low high : ℕ)
      → low ≤ high
      → Keeps config base (enter_regime config fuel velocity low high)
  enter_regime-Keeps fuel velocity low high h =
      bind-Keeps (draw (next_int_between fuel low high)) _ (int_draw-Keeps fuel low high h)
        (λ ticks w v. v)

  choose_regime-Keeps : (fuel roll : ℕ) → Keeps config base (choose_regime config fuel roll)
  choose_regime-Keeps fuel roll =
      if-Keeps (ltb roll 4503599627370496) _ _ (enter_regime-Keeps fuel (pos 0) 30 80 (omega arith))
        (if-Keeps (ltb roll 6755399441055744) _ _
          (enter_regime-Keeps fuel (pos config.volatility) 20 50 (omega arith))
          (enter_regime-Keeps fuel (neg (pos config.volatility)) 20 50 (omega arith)))

  pub update_regime-Keeps : (fuel : ℕ) → Keeps config base (update_regime config fuel)
  unfolding update_regime
  update_regime-Keeps fuel =
      if-Keeps (config.volatility == 0) _ _ (λ w v. v)
        (λ w v.
          let remaining = w.sim.regime_ticks_remaining -ℤ pos 1 in
          if-Keeps (leb_ℤ remaining (pos 0)) (draw next_float >>= choose_regime config fuel) skip
            (bind-Keeps (draw next_float) (choose_regime config fuel) next_float-Keeps
              (choose_regime-Keeps fuel))
            (λ w v. v) (record w { sim = record w.sim { regime_ticks_remaining = remaining } }) v)

  noise_from : (last : Option Side) → Keeps config base (noise_side_after last)
  noise_from none w v = v
  noise_from (some side) w v =
      bind-Keeps (draw next_float) _ next_float-Keeps
        (λ roll.
          if-Keeps (leb order_flow_persistence roll) (remember (flip side)) (pure side) (λ w v. v)
            (λ w v. v))
        w v

  pub next_noise_side-Keeps : Keeps config base next_noise_side
  unfolding next_noise_side
  next_noise_side-Keeps w v = noise_from w.sim.last_noise_side w v
