-- ===== src/Config/Boots.antt =====
-- env.ts and symbol-registry.ts: what building the markets of a configuration can throw.
use exaint.Base.{
  ℕ, ◌<◌, ◌≡◌, refl, sym, ◌∙◌, ◌≢◌, ◌⊎◌, String, some, List, [], ◌∷◌, ◌==◌, length, Result, ok, err,
  eq_of_some, subst, arith, Bool-cases, inl, inr, All,
}
use exaint.Base.Int.{ℤ}
use exaint.Base.Keys.{string_eq}
use exaint.Base.Map
use exaint.Base.Map.{Map}
use exaint.Base.Map.{has-get-some}
use exaint.Market.Config.{config_by_symbol, SymbolConfig}
use exaint.Market.Prng.{derive_symbol_seed}
use exaint.Market.Steps.{out_of_draws}
use exaint.Market.Simulator.Sound.{WellConfigured}
use exaint.Market.Engine.Sound.{new_engine-Starts}
use exaint.Market.Engine.Registry.Accepted.{add_symbols-ok, nothing}
use exaint.Market.Engine.Registry.{
  RegistryError, duplicate, engine_failed, SymbolRegistry, empty_registry, add_symbol, add_symbols,
  new_registry, not_empty,
}
use exaint.Config.{Env, MarketConfig, load_market_config}
use exaint.Config.Loaded.{IsKnown, IsMarket, load_market_config-IsMarket, nil_of_length, of_Ensures}

get-All :
    {A : Type 0} (P : A → Type 0) (k : String) (v : A) (m : Map String A)
    → All (λ e. P e.1) m
    → Map.get k m ≡ some v
    → P v
unfolding Map.get
get-All P k v [] h e = cc
get-All P k v ((j, w) ∷ m) h e = elim (Bool-cases (string_eq.beq j k)) [
  | inl hit ↦ subst P (eq_of_some (rw hit at e)) h.0
  | inr miss ↦ get-All P k v m h.1 (rw miss at e)
]

configs_good : All (λ (e : String × SymbolConfig). WellConfigured e.1) config_by_symbol
unfolding config_by_symbol
configs_good = omega arith

config-WellConfigured :
    (symbol : String) (config : SymbolConfig)
    → Map.get symbol config_by_symbol ≡ some config
    → WellConfigured config
config-WellConfigured symbol config h =
    get-All WellConfigured symbol config config_by_symbol configs_good h

-- What building a registry of known symbols can throw.
abbrev MayThrow : RegistryError → Type 0
MayThrow e = (e ≡ duplicate) ⊎ (e ≡ engine_failed out_of_draws)

module _ (fuel : ℕ) (utf_8 : String → List ℕ) (market_seed : ℤ) (book_depth : ℕ)
    (deep : 0 < book_depth) where
  add_symbol-throws :
      (symbol : String) (r : SymbolRegistry) (e : RegistryError)
      → IsKnown symbol
      → add_symbol fuel utf_8 market_seed book_depth symbol r ≡ err e
      → MayThrow e
  unfolding add_symbol
  add_symbol-throws symbol r e known h =
      let (config, found) = has-get-some symbol config_by_symbol known in
      let h₁ = rw found at h in
      elim (Bool-cases (Map.has symbol r.engines)) [
        | inl twice ↦ inl (cc (rw twice at h₁))
        | inr first ↦
            elim (new_engine-Starts (config-WellConfigured symbol config found) fuel
              (derive_symbol_seed market_seed (utf_8 symbol)) book_depth deep) [
                | inl cut ↦ inr (cc (rw (first, cut) at h₁))
                | inr (engine, made, _) ↦ absurd (cc (rw (first, made) at h₁))
              ]
      ]

  after_symbol :
      (symbols : List String) (res : Result RegistryError SymbolRegistry) (e : RegistryError)
      → ((e : RegistryError) → res ≡ err e → MayThrow e)
      → ((mid : SymbolRegistry)
          → add_symbols fuel utf_8 market_seed book_depth symbols mid ≡ err e
          → MayThrow e)
      → elim res [
        | ok mid ↦ add_symbols fuel utf_8 market_seed book_depth symbols mid
        | err e ↦ err e
      ]
        ≡ err e
      → MayThrow e
  after_symbol symbols (ok mid) e now later h = later mid h
  after_symbol symbols (err e') e now later h = now e (cc h)

  add_symbols-throws :
      (symbols : List String) (r : SymbolRegistry) (e : RegistryError)
      → All IsKnown symbols
      → add_symbols fuel utf_8 market_seed book_depth symbols r ≡ err e
      → MayThrow e
  unfolding add_symbols
  add_symbols-throws [] r e known h = absurd (cc h)
  add_symbols-throws (symbol ∷ symbols) r e known h =
      after_symbol symbols (add_symbol fuel utf_8 market_seed book_depth symbol r) e
        (λ e' h'. add_symbol-throws symbol r e' known.0 h')
        (λ mid h'. add_symbols-throws symbols mid e known.1 h') h

  after_symbols :
      (symbols : List String) (res : Result RegistryError SymbolRegistry) (e : RegistryError)
      → symbols ≢ []
      → add_symbols fuel utf_8 market_seed book_depth symbols empty_registry ≡ res
      → ((e : RegistryError) → res ≡ err e → MayThrow e)
      → elim res [ ok r ↦ not_empty fuel utf_8 market_seed book_depth r | err e ↦ err e ] ≡ err e
      → MayThrow e
  after_symbols symbols (err e') e some_symbol made throws h = throws e (cc h)
  after_symbols symbols (ok r) e some_symbol made throws h =
      let p =
        add_symbols-ok fuel utf_8 market_seed book_depth symbols empty_registry r made nothing in
      elim (Bool-cases (length r.order == 0)) [
        | inl empty ↦ absurd (some_symbol (sym p.1 ∙ nil_of_length r.order empty))
        | inr present ↦ absurd (cc (rw present at h))
      ]

  new_registry-throws :
      (symbols : List String) (e : RegistryError)
      → symbols ≢ []
      → All IsKnown symbols
      → new_registry fuel utf_8 market_seed book_depth symbols ≡ err e
      → MayThrow e
  unfolding new_registry
  new_registry-throws symbols e some_symbol known h =
      after_symbols symbols (add_symbols fuel utf_8 market_seed book_depth symbols empty_registry) e
        some_symbol refl (λ e' h'. add_symbols-throws symbols empty_registry e' known h') h

-- Building the markets of a configuration that loads fails only where the configuration names a
-- symbol twice, or where the draws of the model run out: no symbol lacks its entry, there is one, and
-- no engine throws a RangeError.
pub boot_lem :
    (env : Env) (c : MarketConfig) (fuel : ℕ) (utf_8 : String → List ℕ) (e : RegistryError)
    → load_market_config env ≡ ok c
    → new_registry fuel utf_8 c.seed c.book_depth c.symbols ≡ err e
    → (e ≡ duplicate) ⊎ (e ≡ engine_failed out_of_draws)
boot_lem env c fuel utf_8 e loaded h =
    let m = of_Ensures IsMarket (load_market_config env) (load_market_config-IsMarket env) loaded in
    new_registry-throws fuel utf_8 c.seed c.book_depth (omega (arith, m.depth)) c.symbols e
      m.some_symbol m.known h
