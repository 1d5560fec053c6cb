-- ===== src/Market/Engine/Sound.antt =====
-- symbol-engine.ts: an engine over any ticks.
use exaint.Base.{
  ℕ, ◌%◌, ◌<◌, ◌≡◌, refl, sym, subst, String, true, false, Option, none, some, List, [], ◌∷◌,
  Result, ok, err, arith, All, map, ◌==◌, ◌⊎◌, inl, inr,
}
use exaint.Base.Int.{pos}
use exaint.Base.Map
use exaint.Protocol.{Interval}
use exaint.Market.Events.{SymbolTickResult, DomainBookDelta, candle_history_capacity}
use exaint.Market.Config.{SymbolConfig}
use exaint.Market.OrderBook.{
  OrderBook, bid, ask, new, flush_delta, collect_changes, clear_pending_changes,
}
use exaint.Market.OrderBook.Invariant.{IsValid}
use exaint.Market.OrderBook.Tracking.{Tracks-start, Positive}
use exaint.Market.OrderBook.History.{
  Copy, Mirrors, receive, emit-book, flush_delta-IsValid, flush_delta-Mirrors,
}
use exaint.Market.OrderBook.Run.{receive_all}
use exaint.Market.Candles.{
  CandleAggregator, empty_ring, SymbolCandleSet, candle_intervals, new_set, new_aggregator,
  new_ring,
}
use exaint.Market.Steps.{
  Fault, range_error, out_of_draws, Done, Post, Post_mono, Post-bind, Step, pure, ◌>>=◌,
}
use exaint.Market.Simulator.{Scene, new_simulator}
use exaint.Market.Simulator.Ticks.{tick}
use exaint.Market.Simulator.Sound.{Sound, Uncrossed, WellConfigured, IsPrint}
use exaint.Market.Simulator.Sound.Ticks.{tick-Keeps, seed_book-Sound}
use exaint.Market.Engine.{
  SymbolEngine, scene_of, new_engine, seeded, engine_tick, after_scene, finish_tick,
}

-- A schedule of logical timestamps.
unfoldable pub run_engine : ℕ → List ℕ → Step SymbolEngine (List SymbolTickResult)
run_engine fuel [] = pure []
run_engine fuel (t ∷ ts) =
    engine_tick fuel t >>= λ r. run_engine fuel ts >>= λ rest. pure (r ∷ rest)

-- An engine between two ticks: the book is its own last flush.
pub record Running (config : SymbolConfig) (e : SymbolEngine) : Type 0 where
  pub same_config : e.config ≡ config
  pub sound : Sound config e.book (scene_of e)

flush-Uncrossed :
    (config : SymbolConfig) (timestamp : ℕ) (b : OrderBook)
    → Uncrossed config b
    → Uncrossed config (flush_delta timestamp b).1
unfolding flush_delta clear_pending_changes
flush-Uncrossed config timestamp b u =
    let (n, e) =
      emit-book (collect_changes bid b) (collect_changes ask b) timestamp
        (record b { touched_bids = []; touched_asks = [] }) in
    rw e (record { apart = u.apart; low = u.low; high = u.high })

-- What a tick gives: sound prints, and a delta that takes a mirror of the book before to a mirror
-- of the book after.
abbrev pub Ticked : SymbolConfig → SymbolEngine → SymbolTickResult → SymbolEngine → Type 0
Ticked config e r e' =
    Running config e'
    × All IsPrint r.trades
    × ((c : Copy) → Mirrors c e.book → Mirrors (receive r.delta c) e'.book)

finish_tick-Ticked :
    {config : SymbolConfig} (timestamp : ℕ) (e : SymbolEngine) (w : Scene)
    → e.config ≡ config
    → Sound config e.book w
    → let (r, e') = finish_tick timestamp e w in Ticked config e r e'
unfolding finish_tick
finish_tick-Ticked {config} timestamp e w same v = (
  record {
    same_config = same;
    sound = record {
      valid = flush_delta-IsValid timestamp v.valid;
      uncrossed = flush-Uncrossed config timestamp w.book v.uncrossed;
      prints = tt;
      above_floor = v.above_floor;
    };
  },
  v.prints,
  λ c m. flush_delta-Mirrors c timestamp v.valid m,
)

after_scene-Post :
    {config : SymbolConfig} (timestamp : ℕ) (e : SymbolEngine) (r : Result Fault (Done × Scene))
    → e.config ≡ config
    → Post r (λ _ w. Sound config e.book w)
    → Post (after_scene timestamp e r) (λ r e'. Ticked config e r e')
after_scene-Post timestamp e (ok (_, w)) same p = finish_tick-Ticked timestamp e w same p
after_scene-Post timestamp e (err range_error) same p = p
after_scene-Post timestamp e (err out_of_draws) same p = tt

pub engine_tick-Post :
    {config : SymbolConfig} (good : WellConfigured config) (fuel timestamp : ℕ) (e : SymbolEngine)
    → Running config e
    → Post (engine_tick fuel timestamp e) (λ r e'. Ticked config e r e')
unfolding engine_tick
engine_tick-Post {config} good fuel timestamp e v =
    let at_config = tick-Keeps good fuel timestamp (scene_of e) v.sound in
    after_scene-Post timestamp e (tick e.config fuel timestamp (scene_of e)) v.same_config (
      subst (λ c. Post (tick c fuel timestamp (scene_of e)) (λ _ w. Sound config e.book w))
        (sym v.same_config) at_config)

abbrev deltas : List SymbolTickResult → List (Option DomainBookDelta)
deltas rs = map (λ r. r.delta) rs

abbrev Ran : SymbolConfig → SymbolEngine → List SymbolTickResult → SymbolEngine → Type 0
Ran config e rs e' =
    Running config e'
    × All (λ r. All IsPrint r.trades) rs
    × ((c : Copy) → Mirrors c e.book → Mirrors (receive_all (deltas rs) c) e'.book)

run_engine-Ran :
    {config : SymbolConfig} (good : WellConfigured config) (fuel : ℕ) (ts : List ℕ)
    (e : SymbolEngine)
    → Running config e
    → Post (run_engine fuel ts e) (λ rs e'. Ran config e rs e')
unfolding run_engine receive_all
run_engine-Ran good fuel [] e v = (v, tt, λ c m. m)
run_engine-Ran {config} good fuel (t ∷ ts) e v =
    Post-bind (engine_tick fuel t) (λ r. run_engine fuel ts >>= λ rest. pure (r ∷ rest)) e
      (λ r e₁. Ticked config e r e₁) _ (engine_tick-Post good fuel t e v)
      (λ r e₁ h.
        Post-bind (run_engine fuel ts) (λ rest. pure (r ∷ rest)) e₁ (λ rs e₂. Ran config e₁ rs e₂) _
          (run_engine-Ran good fuel ts e₁ h.0)
          (λ rs e₂ k. (k.0, (h.1, k.1), λ c m. k.2 (receive r.delta c) (h.2 c m))))

-- An engine built from a configuration and run over timestamps.
unfoldable pub start_and_run :
    ℕ → SymbolConfig → ℕ → ℕ → List ℕ → Result Fault (List SymbolTickResult × SymbolEngine)
start_and_run fuel config seed depth ts = elim (new_engine fuel config seed depth) [
  | ok e ↦ run_engine fuel ts e
  | err x ↦ err x
]

new_set-returns :
    (symbol : String) (is' : List Interval) (capacity : ℕ)
    → 0 < capacity
    → (s : SymbolCandleSet) × (new_set symbol is' capacity ≡ some s)
unfolding new_set new_aggregator new_ring
new_set-returns symbol [] capacity h = ([], refl)
new_set-returns symbol (i ∷ is') capacity h =
    let some_room : (capacity == 0) ≡ false = ground arith in
    let (s, e) = new_set-returns symbol is' capacity h in
    let a : CandleAggregator = record {
      symbol = symbol;
      interval = i;
      history = empty_ring capacity;
      active = none;
    } in
    (a ∷ s, rw (some_room, new_set, e, new_set) refl)

abbrev empty_book : String → ℕ → OrderBook
empty_book symbol depth = record {
  symbol = symbol;
  depth = depth;
  bids = [];
  asks = [];
  touched_bids = [];
  touched_asks = [];
  sequence = 0;
}

-- An empty book is sound.
empty-Sound :
    (config : SymbolConfig) (seed depth : ℕ)
    → Sound config (empty_book config.symbol depth) (record {
      sim = record {
        prng = seed;
        fair_value = pos config.base_price;
        last_noise_side = none;
        trend_velocity = pos 0;
        regime_ticks_remaining = pos 0;
      };
      book = empty_book config.symbol depth;
      sink = [];
      next_trade_id = 1;
    })
unfolding Map.get Map.has
empty-Sound config seed depth =
    let nothing : Positive [] = λ p q e. cc in
    record {
      valid = record {
        bid_side = Tracks-start [] tt nothing;
        ask_side = Tracks-start [] tt nothing;
        bids_before = nothing;
        asks_before = nothing;
        same_sequence = refl;
        same_symbol = refl;
        same_depth = refl;
      };
      uncrossed = record {
        apart = λ p q h. absurd (cc);
        low = λ p h. absurd (cc);
        high = λ q h. absurd (cc);
      };
      prints = tt;
      above_floor = omega arith;
    }

-- The seeding throws nothing, and where it returns the engine is between two ticks.
abbrev pub Starts : SymbolConfig → Result Fault SymbolEngine → Type 0
Starts config r = (r ≡ err out_of_draws) ⊎ ((e : SymbolEngine) × (r ≡ ok e) × Running config e)

seeded-Starts :
    (config : SymbolConfig) (candles : SymbolCandleSet) (r : Result Fault (Done × Scene))
    → Post r (λ _ w. Sound config w.book w)
    → Starts config (seeded config candles r)
seeded-Starts config candles (ok (_, w)) p = inr (
  _,
  refl,
  record {
    same_config = refl;
    sound = record {
      valid = p.valid;
      uncrossed = p.uncrossed;
      prints = tt;
      above_floor = p.above_floor;
    };
  },
)
seeded-Starts config candles (err range_error) p = absurd p
seeded-Starts config candles (err out_of_draws) p = inl refl

pub new_engine-Starts :
    {config : SymbolConfig} (good : WellConfigured config) (fuel seed depth : ℕ)
    → 0 < depth
    → Starts config (new_engine fuel config seed depth)
unfolding new_engine new new_simulator
new_engine-Starts {config} good fuel seed depth h =
    let some_depth : (depth == 0) ≡ false = ground arith in
    let (s, e) =
      new_set-returns config.symbol candle_intervals candle_history_capacity (omega arith) in
    let grid : (config.level_spacing % config.tick_size == 0) ≡ true =
      ground (arith, good.on_grid) in
    rw (some_depth, new_engine, e, new_engine, grid, new_engine)
      (seeded-Starts config s _ (seed_book-Sound good fuel _ (empty-Sound config seed depth)))

-- For a well configured symbol, any seed, any depth that is not zero and any timestamps: building
-- the engine and running the ticks throws no RangeError, and where the draws suffice every trade is
-- of a positive quantity at a positive price, and the book left behind is valid and not crossed.
pub start_and_run-Uncrossed :
    {config : SymbolConfig} (good : WellConfigured config) (fuel seed depth : ℕ) (ts : List ℕ)
    → 0 < depth
    → Post (start_and_run fuel config seed depth ts) (λ rs e.
      Uncrossed config e.book × IsValid e.book e.book × All (λ r. All IsPrint r.trades) rs)
unfolding start_and_run
start_and_run-Uncrossed {config} good fuel seed depth ts h =
    elim (new_engine-Starts good fuel seed depth h) [
      | inl cut ↦ rw (cut, Post) tt
      | inr (e, made, running) ↦
          rw (made, Post)
            (Post_mono (run_engine fuel ts e) _ _
              (λ rs e' p. (p.0.sound.uncrossed, p.0.sound.valid, p.1))
              (run_engine-Ran good fuel ts e running))
    ]

-- For a well configured symbol: a reader that has the opening book of the engine, and receives the
-- deltas of the ticks in their order, has the book of the engine after them, whatever the seed, the
-- depth, which is not zero, and the timestamps are.
pub run_engine-Mirrors :
    {config : SymbolConfig} (good : WellConfigured config) (fuel seed depth : ℕ) (ts : List ℕ)
    (e : SymbolEngine) (c : Copy)
    → 0 < depth
    → new_engine fuel config seed depth ≡ ok e
    → Mirrors c e.book
    → Post (run_engine fuel ts e) (λ rs e'. Mirrors (receive_all (map (λ r. r.delta) rs) c) e'.book)
run_engine-Mirrors {config} good fuel seed depth ts e c h made m =
    elim (new_engine-Starts good fuel seed depth h) [
      | inl cut ↦ absurd (cc)
      | inr (e₁, made₁, running) ↦
          let same : e₁ ≡ e = ground (arith) in
          Post_mono (run_engine fuel ts e) _ _ (λ rs e' p. p.2 c m)
            (run_engine-Ran good fuel ts e (subst (λ x. Running config x) same running))
    ]
