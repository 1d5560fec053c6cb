-- ===== src/Market/Config.antt =====
-- apps/api/src/market/symbol-config.ts. Prices and quantities of a configuration are not negative.
-- A probability is in parts of 2^53, the draws of `nextFloat`: the least number of parts that is not
-- below the double that the code writes.
use exaint.Base.{ℕ, String, List, [], ◌∷◌, map}
use exaint.Base.Keys.{string_eq}
use exaint.Base.Map.{Map}

pub record SymbolConfig : Type 0 where
  pub symbol : String
  pub base_price : ℕ
  pub tick_size : ℕ
  pub level_spacing : ℕ
  pub spread_spacings : ℕ
  pub volatility : ℕ
  pub min_trade_quantity : ℕ
  pub max_trade_quantity : ℕ
  pub min_level_quantity : ℕ
  pub max_level_quantity : ℕ
  pub trade_probability : ℕ
  pub churn_events : ℕ

-- 0.75.
abbrev pub order_flow_persistence : ℕ
order_flow_persistence = 6755399441055744

abbrev pub btc_config : SymbolConfig
btc_config = record {
  symbol = "BTC-USD";
  base_price = 672314287;
  tick_size = 1000;
  level_spacing = 40000;
  spread_spacings = 1;
  volatility = 3000;
  min_trade_quantity = 100000;
  max_trade_quantity = 100000000;
  min_level_quantity = 5000000;
  max_level_quantity = 150000000;
  trade_probability = 4953959590107546;
  churn_events = 3;
}

abbrev pub eth_config : SymbolConfig
eth_config = record {
  symbol = "ETH-USD";
  base_price = 35128400;
  tick_size = 100;
  level_spacing = 2100;
  spread_spacings = 1;
  volatility = 150;
  min_trade_quantity = 1000000;
  max_trade_quantity = 2000000000;
  min_level_quantity = 50000000;
  max_level_quantity = 2500000000;
  trade_probability = 4503599627370496;
  churn_events = 3;
}

abbrev pub sol_config : SymbolConfig
sol_config = record {
  symbol = "SOL-USD";
  base_price = 2143900;
  tick_size = 10;
  level_spacing = 210;
  spread_spacings = 1;
  volatility = 40;
  min_trade_quantity = 10000000;
  max_trade_quantity = 50000000000;
  min_level_quantity = 500000000;
  max_level_quantity = 35000000000;
  trade_probability = 4053239664633447;
  churn_events = 2;
}

abbrev pub hype_config : SymbolConfig
hype_config = record {
  symbol = "HYPE-USD";
  base_price = 387200;
  tick_size = 10;
  level_spacing = 80;
  spread_spacings = 1;
  volatility = 20;
  min_trade_quantity = 100000000;
  max_trade_quantity = 200000000000;
  min_level_quantity = 2500000000;
  max_level_quantity = 90000000000;
  trade_probability = 3602879701896397;
  churn_events = 2;
}

abbrev pub zec_config : SymbolConfig
zec_config = record {
  symbol = "ZEC-USD";
  base_price = 3475100;
  tick_size = 100;
  level_spacing = 400;
  spread_spacings = 1;
  volatility = 60;
  min_trade_quantity = 10000000;
  max_trade_quantity = 30000000000;
  min_level_quantity = 300000000;
  max_level_quantity = 20000000000;
  trade_probability = 3152519739159347;
  churn_events = 2;
}

abbrev pub symbol_configs : List SymbolConfig
symbol_configs = btc_config ∷ eth_config ∷ sol_config ∷ hype_config ∷ zec_config ∷ []

unfoldable pub config_by_symbol : Map String SymbolConfig
config_by_symbol = map (λ c. (c.symbol, c)) symbol_configs

abbrev pub default_symbols : List String
default_symbols = map (λ c. c.symbol) symbol_configs
