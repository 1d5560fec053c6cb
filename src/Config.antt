-- ===== src/Config.antt =====
-- apps/api/src/config/env.ts: the configuration that the environment's variables give, and what
-- apps/api/src/app/create-app.ts loads of it. The name of a variable stands in its error.
pub mod Boots
pub mod Loaded
pub mod Numbers
pub mod Strict
pub mod Tests
use exaint.Base.{
  ℕ, ◌*◌, String, Bool, true, false, not, ◌&&◌, ◌||◌, Option, none, some, List, [], ◌∷◌, ltb, leb,
  if◌then◌else◌, or_else, Result, ok, err, length, ◌==◌,
}
use exaint.Base.Int.{ℤ, pos, ltb_ℤ, pos_part}
use exaint.Base.Keys.{string_eq}
use exaint.Base.Map
use exaint.Config.Numbers.{parse_int, to_big_int, split_entries}
use exaint.Market.Config.{config_by_symbol, default_symbols}
use text.Mathlib.Text.{◌==◌ as same_text}

pub data ConfigError : Type 0 where
  not_an_integer not_a_boolean : String → ConfigError
  unknown_symbol : String → ConfigError
  no_symbols bad_seed bad_auth_mode no_secret no_origins : ConfigError

-- `process.env`; `none` is undefined.
abbrev pub Env : Type 0
Env = String → Option String

infixl 5 ◌>>=◌
abbrev pub ◌>>=◌ :
    {A B : Type 0} → Result ConfigError A → (A → Result ConfigError B) → Result ConfigError B
ok a >>= f = f a
err e >>= f = err e

pub record Bounds : Type 0 where
  pub min : ℕ
  pub max : ℕ

abbrev pub is_blank : String → Bool
is_blank raw = same_text raw ""

-- The test of `readInteger`; NaN is `none`.
abbrev pub in_bounds : String → Bounds → Option ℤ → Result ConfigError ℕ
in_bounds name bounds none = err (not_an_integer name)
in_bounds name bounds (some parsed) =
    if ltb_ℤ parsed (pos bounds.min) || ltb_ℤ (pos bounds.max) parsed
    then err (not_an_integer name)
    else ok (pos_part parsed)

unfoldable pub read_integer : String → Option String → ℕ → Bounds → Result ConfigError ℕ
read_integer name none fallback bounds = ok fallback
read_integer name (some raw) fallback bounds =
    if is_blank raw then ok fallback else in_bounds name bounds (parse_int raw)

unfoldable pub read_boolean : String → Option String → Bool → Result ConfigError Bool
read_boolean name none fallback = ok fallback
read_boolean name (some raw) fallback =
    if is_blank raw
    then ok fallback
    else if same_text raw "true"
    then ok true
    else if same_text raw "false"
    then ok false
    else err (not_a_boolean name)

pub record ServerConfig : Type 0 where
  pub host : String
  pub port : ℕ

pub record MarketConfig : Type 0 where
  pub symbols : List String
  pub seed : ℤ
  pub book_depth : ℕ
  pub tick_ms : ℕ
  pub max_catch_up_ticks : ℕ

pub data AuthMode : Type 0 where
  ticket off : AuthMode

pub record AuthConfig : Type 0 where
  pub mode : AuthMode
  pub secret : String
  pub ttl_ms : ℕ

pub record HttpConfig : Type 0 where
  pub allowed_origins : List String
  pub enable_debug_controls : Bool
  pub trust_proxy : Bool

pub record WebSocketConfig : Type 0 where
  pub global_frames_per_second : ℕ
  pub strike_limit : ℕ
  pub max_subscriptions : ℕ
  pub max_frame_bytes : ℕ

unfoldable pub load_server_config : Env → Result ConfigError ServerConfig
load_server_config env = do
  port ← read_integer "PORT" (env "PORT") 8080 (record { min = 1; max = 65535 })
  ok (record { host = or_else (env "HOST") "0.0.0.0"; port = port })

-- The texts between commas, trimmed, less those that are empty; the fallback where there is no text.
abbrev pub wanted_symbols : Option String → List String
wanted_symbols none = default_symbols
wanted_symbols (some raw) = if is_blank raw then default_symbols else split_entries raw

unfoldable pub check_symbols : List String → Result ConfigError (Unit {0})
check_symbols [] = ok tt
check_symbols (symbol ∷ symbols) =
    if not (Map.has symbol config_by_symbol)
    then err (unknown_symbol symbol)
    else check_symbols symbols

abbrev pub some_symbols : List String → Result ConfigError (Unit {0})
some_symbols symbols = if length symbols == 0 then err no_symbols else ok tt

abbrev pub seed_of : Option ℤ → Result ConfigError ℤ
seed_of none = err bad_seed
seed_of (some n) = ok n

unfoldable pub read_seed : Option String → Result ConfigError ℤ
read_seed none = ok (pos 1337)
read_seed (some raw) = if is_blank raw then ok (pos 1337) else seed_of (to_big_int raw)

unfoldable pub load_market_config : Env → Result ConfigError MarketConfig
load_market_config env = do
  let symbols = wanted_symbols (env "MARKET_SYMBOLS")
  _ ← check_symbols symbols
  _ ← some_symbols symbols
  seed ← read_seed (env "MARKET_SEED")
  book_depth ←
      read_integer "MARKET_BOOK_DEPTH" (env "MARKET_BOOK_DEPTH") 25 (record { min = 1; max = 500 })
  tick_ms ←
      read_integer "MARKET_TICK_MS" (env "MARKET_TICK_MS") 50 (record { min = 1; max = 10000 })
  max_catch_up_ticks ←
      read_integer "MARKET_MAX_CATCHUP_TICKS" (env "MARKET_MAX_CATCHUP_TICKS") 200
        (record { min = 1; max = 100000 })
  ok (record {
    symbols = symbols;
    seed = seed;
    book_depth = book_depth;
    tick_ms = tick_ms;
    max_catch_up_ticks = max_catch_up_ticks;
  })

unfoldable pub auth_mode : String → Result ConfigError AuthMode
auth_mode raw =
    if same_text raw "ticket"
    then ok ticket
    else if same_text raw "off"
    then ok off
    else err bad_auth_mode

abbrev pub is_production : Option String → Bool
is_production none = false
is_production (some value) = same_text value "production"

-- `minted` is the fresh random secret of a process without one.
abbrev pub secret_of : AuthMode → String → Bool → String → Result ConfigError String
secret_of off given production minted = ok given
secret_of ticket given production minted =
    if not (is_blank given) then ok given else if production then err no_secret else ok minted

unfoldable pub load_auth_config : String → Env → Result ConfigError AuthConfig
unfolding auth_mode
load_auth_config minted env = do
  mode ← auth_mode (or_else (env "AUTH_MODE") "ticket")
  secret ←
      secret_of mode (or_else (env "AUTH_TICKET_SECRET") "") (is_production (env "NODE_ENV")) minted
  ttl_ms ←
      read_integer "AUTH_TICKET_TTL_MS" (env "AUTH_TICKET_TTL_MS") 60000
        (record { min = 1000; max = 3600000 })
  ok (record { mode = mode; secret = secret; ttl_ms = ttl_ms })

unfoldable pub load_http_config : Env → Result ConfigError HttpConfig
load_http_config env =
    let allowed_origins = split_entries (or_else (env "ALLOWED_ORIGINS") "http://localhost:3000") in
    if length allowed_origins == 0 then err no_origins else (do
      trust_proxy ← read_boolean "TRUST_PROXY" (env "TRUST_PROXY") false
      ok (record {
        allowed_origins = allowed_origins;
        enable_debug_controls = same_text (or_else (env "ENABLE_DEBUG_CONTROLS") "false") "true";
        trust_proxy = trust_proxy;
      }))

unfoldable pub load_web_socket_config : Env → Result ConfigError WebSocketConfig
load_web_socket_config env = do
  global_frames_per_second ←
      read_integer "RATE_LIMIT_GLOBAL_PER_SEC" (env "RATE_LIMIT_GLOBAL_PER_SEC") 20
        (record { min = 1; max = 10000 })
  strike_limit ←
      read_integer "RATE_LIMIT_STRIKES" (env "RATE_LIMIT_STRIKES") 3 (record { min = 1; max = 100 })
  max_subscriptions ←
      read_integer "MAX_SUBSCRIPTIONS_PER_CONN" (env "MAX_SUBSCRIPTIONS_PER_CONN") 5
        (record { min = 1; max = 100 })
  max_frame_bytes ←
      read_integer "MAX_FRAME_BYTES" (env "MAX_FRAME_BYTES") 8192
        (record { min = 256; max = 1048576 })
  ok (record {
    global_frames_per_second = global_frames_per_second;
    strike_limit = strike_limit;
    max_subscriptions = max_subscriptions;
    max_frame_bytes = max_frame_bytes;
  })

pub record AppConfig : Type 0 where
  pub market : MarketConfig
  pub auth : AuthConfig
  pub http : HttpConfig
  pub websocket : WebSocketConfig

-- What `createApplication` loads, in its order.
unfoldable pub load_app_config : String → Env → Result ConfigError AppConfig
load_app_config minted env = do
  market ← load_market_config env
  auth ← load_auth_config minted env
  http ← load_http_config env
  websocket ← load_web_socket_config env
  ok (record { market = market; auth = auth; http = http; websocket = websocket })
