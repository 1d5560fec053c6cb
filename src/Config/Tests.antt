-- ===== src/Config/Tests.antt =====
-- An environment that names a symbol twice, one with the defaults, and a number with a unit.
use exaint.Base.{
  refl, ℕ, ◌≡◌, ◌⊎◌, ◌*◌, ◌≤◌, true, false, String, Bool, Option, none, some, List, [], ◌∷◌, ok,
  err, if◌then◌else◌, arith,
}
use exaint.Base.Int.{pos}
use exaint.Base.Map
use exaint.Market.Config.{config_by_symbol}
use exaint.Market.Steps.{out_of_draws}
use exaint.Market.Candles.{new_aggregator}
use exaint.Market.Engine.{new_engine}
use exaint.Market.Prng.{draw_below, splitmix_64}
use exaint.Market.Engine.Registry.{
  RegistryError, duplicate, engine_failed, new_registry, add_symbols, add_symbol,
}
use exaint.Protocol.Decimal.{all_digits, number}
use exaint.Config.{
  Env, MarketConfig, AppConfig, ticket, read_integer, read_boolean, check_symbols, read_seed,
  load_market_config, load_auth_config, load_http_config, load_web_socket_config, load_app_config,
}
use exaint.Config.Boots.{boot_lem}
use exaint.Config.Loaded.{IsLoaded, loaded_lem}
use exaint.Config.Numbers.{parse_int, split_entries, to_big_int}
use exaint.Config.Strict.{read_integer-prefix}
use text.Mathlib.Text.{◌==◌ as same_text}

abbrev twice : Env
twice name =
    if same_text name "MARKET_SYMBOLS"
    then some "BTC-USD, BTC-USD,"
    else if same_text name "MARKET_BOOK_DEPTH"
    then some "3"
    else if same_text name "MARKET_SEED"
    then some "42"
    else none

abbrev twice_config : MarketConfig
twice_config = record {
  symbols = "BTC-USD" ∷ "BTC-USD" ∷ [];
  seed = pos 42;
  book_depth = 3;
  tick_ms = 50;
  max_catch_up_ticks = 200;
}

twice_loads : load_market_config twice ≡ ok twice_config
unfolding load_market_config check_symbols config_by_symbol Map.has read_seed to_big_int
    read_integer parse_int split_entries exaint.Base.keep_if
twice_loads = refl

abbrev bytes_of : String → List ℕ
bytes_of symbol = 66 ∷ 84 ∷ 67 ∷ []

twice_fails : new_registry 8 bytes_of (pos 42) 3 ("BTC-USD" ∷ "BTC-USD" ∷ []) ≡ err duplicate
unfolding new_registry add_symbols add_symbol config_by_symbol exaint.Market.Prng.derive_symbol_seed
    exaint.Market.Prng.fnv1a_64 exaint.Market.Prng.fnv_loop exaint.Market.Prng.as_uint_64 new_engine
    exaint.Market.OrderBook.new exaint.Market.Candles.new_set exaint.Market.Simulator.new_simulator
    exaint.Market.Simulator.Ticks.seed_book exaint.Market.Simulator.targets
    exaint.Market.FixedPoint.floor_to_tick exaint.Market.Simulator.Quotes.requote
    exaint.Market.OrderBook.best exaint.Market.OrderBook.prices exaint.Base.Sort.sort Map.keys
    exaint.Base.Int.◌-ℤ◌ exaint.Base.Int.rem_ℤ exaint.Base.Int.◌+ℤ◌
    exaint.Market.OrderBook.quantity_at Map.get exaint.Market.Prng.next_big_int_between
    exaint.Base.Int.◌*ℤ◌ Map.delete Map.has Map.set exaint.Base.Sort.insert new_aggregator
    exaint.Market.Candles.new_ring exaint.Market.FixedPoint.max_big_int
    exaint.Market.FixedPoint.min_big_int exaint.Market.OrderBook.clear_levels
    exaint.Market.OrderBook.clear_pending_changes exaint.Market.OrderBook.set_level
    exaint.Market.OrderBook.trim draw_below exaint.Market.Prng.mix_64
    exaint.Market.Prng.next_big_int_below splitmix_64 exaint.Market.Simulator.Quotes.replenish
    exaint.Market.Simulator.Quotes.replenish_from
twice_fails = refl

boot_lem_example :
    (RegistryError.duplicate ≡ duplicate) ⊎ (RegistryError.duplicate ≡ engine_failed out_of_draws)
boot_lem_example = boot_lem twice twice_config 8 bytes_of duplicate twice_loads twice_fails

abbrev nothing_set : Env
nothing_set name = none

abbrev defaults : AppConfig
defaults = record {
  market = record {
    symbols = "BTC-USD" ∷ "ETH-USD" ∷ "SOL-USD" ∷ "HYPE-USD" ∷ "ZEC-USD" ∷ [];
    seed = pos 1337;
    book_depth = 25;
    tick_ms = 50;
    max_catch_up_ticks = 200;
  };
  auth = record { mode = ticket; secret = "c2VjcmV0"; ttl_ms = 60000 };
  http = record {
    allowed_origins = "http://localhost:3000" ∷ [];
    enable_debug_controls = false;
    trust_proxy = false;
  };
  websocket = record {
    global_frames_per_second = 20;
    strike_limit = 3;
    max_subscriptions = 5;
    max_frame_bytes = 8192;
  };
}

defaults_load : load_app_config "c2VjcmV0" nothing_set ≡ ok defaults
unfolding load_app_config load_market_config load_auth_config load_http_config
    load_web_socket_config check_symbols config_by_symbol Map.has read_seed read_integer
    read_boolean split_entries exaint.Base.keep_if
defaults_load = refl

loaded_lem_example : IsLoaded defaults
loaded_lem_example = loaded_lem "c2VjcmV0" nothing_set defaults refl defaults_load

spells_50 : all_digits (b'5' ∷ b'0' ∷ []) ≡ true
unfolding all_digits
spells_50 = refl

in_range : (1 ≤ number (b'5' ∷ b'0' ∷ [])) × (number (b'5' ∷ b'0' ∷ []) ≤ 10000)
unfolding number
in_range = omega arith

read_integer-prefix_example :
    read_integer "MARKET_TICK_MS" (some "50ms") 20 (record { min = 1; max = 10000 })
    ≡ ok (number (b'5' ∷ b'0' ∷ []))
read_integer-prefix_example =
    read_integer-prefix "MARKET_TICK_MS" "50ms" 20 (record { min = 1; max = 10000 }) b'5'
      (b'0' ∷ []) (b'm' ∷ b's' ∷ []) refl spells_50 refl in_range
