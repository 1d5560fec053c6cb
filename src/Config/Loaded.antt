-- ===== src/Config/Loaded.antt =====
-- env.ts: what holds of a configuration that loads.
use exaint.Base.{
  ℕ, suc, ◌≤◌, ◌≡◌, refl, ◌≢◌, ◌⊎◌, String, Bool, true, false, Option, none, some, List, [], ◌∷◌,
  ◌==◌, length, Result, ok, err, arith, Bool-cases, inl, inr, or_else, All,
}
use exaint.Base.Int.{ℤ, pos, negsuc}
use exaint.Base.Keys.{string_eq}
use exaint.Base.Map
use exaint.Base.Map.{Map}
use exaint.Base.Map.{has-get-some}
use exaint.Market.Config.{config_by_symbol}
use exaint.Config.{
  ConfigError, Env, Bounds, ◌>>=◌, is_blank, in_bounds, read_integer, read_boolean, MarketConfig,
  AuthMode, ticket, off, AuthConfig, WebSocketConfig, AppConfig, wanted_symbols, check_symbols,
  some_symbols, read_seed, load_market_config, auth_mode, is_production, secret_of,
  load_auth_config, load_http_config, load_web_socket_config, load_app_config,
}
use exaint.Config.Numbers.{parse_int, split_entries}

-- Where the code returns, what it returns satisfies `P`.
abbrev pub Ensures : {A : Type 0} → (A → Type 0) → Result ConfigError A → Type 0
Ensures P (ok a) = P a
Ensures P (err e) = Unit

pub then_Ensures :
    {A B : Type 0} (Q : A → Type 0) (P : B → Type 0) (m : Result ConfigError A)
    (f : A → Result ConfigError B)
    → Ensures Q m
    → ((a : A) → Q a → Ensures P (f a))
    → Ensures P (m >>= f)
then_Ensures Q P (ok a) f q k = k a q
then_Ensures Q P (err e) f q k = tt

pub weaken :
    {A : Type 0} {P Q : Type 0} (m : Result ConfigError A)
    → Ensures (λ _. P) m
    → (P → Q)
    → Ensures (λ _. Q) m
weaken (ok a) h f = f h
weaken (err e) h f = tt

abbrev pub Within : Bounds → ℕ → Type 0
Within bounds n = (bounds.min ≤ n) × (n ≤ bounds.max)

pub in_bounds-Within :
    (name : String) (bounds : Bounds) (parsed : Option ℤ)
    → Ensures (Within bounds) (in_bounds name bounds parsed)
in_bounds-Within name bounds none = tt
in_bounds-Within name bounds (some (pos p)) = ground arith
in_bounds-Within name bounds (some (negsuc p)) = ground arith

pub read_integer-Within :
    (name : String) (raw : Option String) (fallback : ℕ) (bounds : Bounds)
    → Within bounds fallback
    → Ensures (Within bounds) (read_integer name raw fallback bounds)
unfolding read_integer
read_integer-Within name none fallback bounds w = w
read_integer-Within name (some raw) fallback bounds w = elim (Bool-cases (is_blank raw)) [
  | inl blank ↦ rw blank w
  | inr given ↦ rw given (in_bounds-Within name bounds (parse_int raw))
]

abbrev pub IsKnown : String → Type 0
IsKnown symbol = Map.has symbol config_by_symbol ≡ true

pub check_symbols-IsKnown :
    (symbols : List String) → Ensures (λ _. All IsKnown symbols) (check_symbols symbols)
unfolding check_symbols
check_symbols-IsKnown [] = tt
check_symbols-IsKnown (s ∷ ss) = elim (Bool-cases (Map.has s config_by_symbol)) [
  | inl known ↦ rw known (weaken (check_symbols ss) (check_symbols-IsKnown ss) (λ h. (refl, h)))
  | inr unknown ↦ rw unknown tt
]

pub some_symbols-ne : (symbols : List String) → Ensures (λ _. symbols ≢ []) (some_symbols symbols)
some_symbols-ne [] = tt
some_symbols-ne (s ∷ ss) =
    let some_there : (suc (length ss) == 0) ≡ false = ground arith in rw some_there (λ e. cc)

pub any_result : {A : Type 0} (m : Result ConfigError A) → Ensures (λ _. Unit {0}) m
any_result (ok a) = tt
any_result (err e) = tt

pub record IsMarket (c : MarketConfig) : Type 0 where
  pub some_symbol : c.symbols ≢ []
  pub known : All IsKnown c.symbols
  pub depth : (1 ≤ c.book_depth) × (c.book_depth ≤ 500)
  pub tick : (1 ≤ c.tick_ms) × (c.tick_ms ≤ 10000)
  pub catch_up : (1 ≤ c.max_catch_up_ticks) × (c.max_catch_up_ticks ≤ 100000)

pub load_market_config-IsMarket : (env : Env) → Ensures IsMarket (load_market_config env)
unfolding load_market_config
load_market_config-IsMarket env =
    let symbols = wanted_symbols (env "MARKET_SYMBOLS") in
    then_Ensures _ IsMarket (check_symbols symbols) _ (check_symbols-IsKnown symbols) (λ _ known.
      then_Ensures _ IsMarket (some_symbols symbols) _ (some_symbols-ne symbols) (λ _ present.
        then_Ensures _ IsMarket (read_seed (env "MARKET_SEED")) _ (any_result _) (λ seed _.
          then_Ensures _ IsMarket (read_integer _ _ _ _) _
            (read_integer-Within "MARKET_BOOK_DEPTH" (env "MARKET_BOOK_DEPTH") 25
              (record { min = 1; max = 500 }) (omega arith))
            (λ depth d.
              then_Ensures _ IsMarket (read_integer _ _ _ _) _
                (read_integer-Within "MARKET_TICK_MS" (env "MARKET_TICK_MS") 50
                  (record { min = 1; max = 10000 }) (omega arith))
                (λ tick t.
                  then_Ensures _ IsMarket (read_integer _ _ _ _) _
                    (read_integer-Within "MARKET_MAX_CATCHUP_TICKS" (env "MARKET_MAX_CATCHUP_TICKS")
                      200 (record { min = 1; max = 100000 }) (omega arith))
                    (λ most u. record {
                      some_symbol = present;
                      known = known;
                      depth = d;
                      tick = t;
                      catch_up = u;
                    }))))))

pub record IsLoaded (c : AppConfig) : Type 0 where
  pub market : IsMarket c.market
  pub sealed : (c.auth.mode ≡ off) ⊎ (is_blank c.auth.secret ≡ false)
  pub ttl : (1000 ≤ c.auth.ttl_ms) × (c.auth.ttl_ms ≤ 3600000)
  pub some_origin : c.http.allowed_origins ≢ []
  pub frames :
      (1 ≤ c.websocket.global_frames_per_second) × (c.websocket.global_frames_per_second ≤ 10000)
  pub strikes : (1 ≤ c.websocket.strike_limit) × (c.websocket.strike_limit ≤ 100)
  pub subscriptions : (1 ≤ c.websocket.max_subscriptions) × (c.websocket.max_subscriptions ≤ 100)
  pub bytes : (256 ≤ c.websocket.max_frame_bytes) × (c.websocket.max_frame_bytes ≤ 1048576)

pub ne_of_length : (os : List String) → (length os == 0) ≡ false → os ≢ []
ne_of_length [] h e = cc
ne_of_length (o ∷ os) h e = cc

pub nil_of_length : (os : List String) → (length os == 0) ≡ true → os ≡ []
nil_of_length [] h = refl
nil_of_length (o ∷ os) h = absurd (ground arith)

pub record IsAuth (c : AuthConfig) : Type 0 where
  pub sealed : (c.mode ≡ off) ⊎ (is_blank c.secret ≡ false)
  pub ttl : (1000 ≤ c.ttl_ms) × (c.ttl_ms ≤ 3600000)

pub secret_of-sealed :
    (mode : AuthMode) (given minted : String) (production : Bool)
    → is_blank minted ≡ false
    → Ensures
        (λ secret. (mode ≡ off) ⊎ (is_blank secret ≡ false))
        (secret_of mode given production minted)
secret_of-sealed off given minted production m = inl refl
secret_of-sealed ticket given minted production m = elim (Bool-cases (is_blank given)) [
  | inr there ↦ rw there (inr there)
  | inl blank ↦ elim (Bool-cases production) [
    | inl live ↦ rw (blank, live) tt
    | inr other ↦ rw (blank, other) (inr m)
  ]
]

pub load_auth_config-IsAuth :
    (minted : String) (env : Env)
    → is_blank minted ≡ false
    → Ensures IsAuth (load_auth_config minted env)
unfolding load_auth_config
load_auth_config-IsAuth minted env m =
    then_Ensures (λ _. Unit {0}) IsAuth (auth_mode (or_else (env "AUTH_MODE") "ticket")) _
      (any_result _)
      (λ mode _.
        then_Ensures (λ secret. (mode ≡ off) ⊎ (is_blank secret ≡ false)) IsAuth
          (secret_of mode (or_else (env "AUTH_TICKET_SECRET") "") (is_production (env "NODE_ENV"))
            minted)
          _
          (secret_of-sealed mode (or_else (env "AUTH_TICKET_SECRET") "") minted
            (is_production (env "NODE_ENV")) m)
          (λ secret s.
            then_Ensures (Within (record { min = 1000; max = 3600000 })) IsAuth
              (read_integer _ _ _ _) _
              (read_integer-Within "AUTH_TICKET_TTL_MS" (env "AUTH_TICKET_TTL_MS") 60000
                (record { min = 1000; max = 3600000 }) (omega arith))
              (λ ttl t. record { sealed = s; ttl = t })))

pub load_http_config-ne : (env : Env) → Ensures (λ c. c.allowed_origins ≢ []) (load_http_config env)
unfolding load_http_config
load_http_config-ne env =
    let origins = split_entries (or_else (env "ALLOWED_ORIGINS") "http://localhost:3000") in
    elim (Bool-cases (length origins == 0)) [
      | inl empty ↦ rw empty tt
      | inr some_there ↦ rw some_there (
          then_Ensures _ (λ c. c.allowed_origins ≢ [])
            (read_boolean "TRUST_PROXY" (env "TRUST_PROXY") false) _ (any_result _)
            (λ proxy _. ne_of_length origins some_there))
    ]

pub record IsFrames (c : WebSocketConfig) : Type 0 where
  pub frames : (1 ≤ c.global_frames_per_second) × (c.global_frames_per_second ≤ 10000)
  pub strikes : (1 ≤ c.strike_limit) × (c.strike_limit ≤ 100)
  pub subscriptions : (1 ≤ c.max_subscriptions) × (c.max_subscriptions ≤ 100)
  pub bytes : (256 ≤ c.max_frame_bytes) × (c.max_frame_bytes ≤ 1048576)

pub load_web_socket_config-IsFrames : (env : Env) → Ensures IsFrames (load_web_socket_config env)
unfolding load_web_socket_config
load_web_socket_config-IsFrames env =
    then_Ensures _ IsFrames (read_integer _ _ _ _) _
      (read_integer-Within "RATE_LIMIT_GLOBAL_PER_SEC" (env "RATE_LIMIT_GLOBAL_PER_SEC") 20
        (record { min = 1; max = 10000 }) (omega arith))
      (λ frames f.
        then_Ensures _ IsFrames (read_integer _ _ _ _) _
          (read_integer-Within "RATE_LIMIT_STRIKES" (env "RATE_LIMIT_STRIKES") 3
            (record { min = 1; max = 100 }) (omega arith))
          (λ strikes s.
            then_Ensures _ IsFrames (read_integer _ _ _ _) _
              (read_integer-Within "MAX_SUBSCRIPTIONS_PER_CONN" (env "MAX_SUBSCRIPTIONS_PER_CONN") 5
                (record { min = 1; max = 100 }) (omega arith))
              (λ most m.
                then_Ensures _ IsFrames (read_integer _ _ _ _) _
                  (read_integer-Within "MAX_FRAME_BYTES" (env "MAX_FRAME_BYTES") 8192
                    (record { min = 256; max = 1048576 }) (omega arith))
                  (λ bytes b. record { frames = f; strikes = s; subscriptions = m; bytes = b }))))

pub load_app_config-IsLoaded :
    (minted : String) (env : Env)
    → is_blank minted ≡ false
    → Ensures IsLoaded (load_app_config minted env)
unfolding load_app_config
load_app_config-IsLoaded minted env m =
    then_Ensures _ IsLoaded (load_market_config env) _ (load_market_config-IsMarket env)
      (λ market k.
        then_Ensures _ IsLoaded (load_auth_config minted env) _
          (load_auth_config-IsAuth minted env m)
          (λ auth a.
            then_Ensures _ IsLoaded (load_http_config env) _ (load_http_config-ne env) (λ http o.
              then_Ensures _ IsLoaded (load_web_socket_config env) _
                (load_web_socket_config-IsFrames env)
                (λ websocket w. record {
                  market = k;
                  sealed = a.sealed;
                  ttl = a.ttl;
                  some_origin = o;
                  frames = w.frames;
                  strikes = w.strikes;
                  subscriptions = w.subscriptions;
                  bytes = w.bytes;
                }))))

pub of_Ensures :
    {A : Type 0} (P : A → Type 0) (m : Result ConfigError A) {a : A} → Ensures P m → m ≡ ok a → P a
of_Ensures P m h e = rw e at h

-- Whatever the environment holds, a configuration that loads is within all its bounds: every number
-- is in its range, there is a symbol and each has an entry, there is an origin, and tickets are off
-- or have a secret, where the random secret is not empty.
pub loaded_lem :
    (minted : String) (env : Env) (c : AppConfig)
    → is_blank minted ≡ false
    → load_app_config minted env ≡ ok c
    → IsLoaded c
loaded_lem minted env c m e =
    of_Ensures IsLoaded (load_app_config minted env) (load_app_config-IsLoaded minted env m) e
