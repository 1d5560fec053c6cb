-- ===== src/Market/Engine/Registry/Accepted.antt =====
-- symbol-registry.ts: which lists of symbols are accepted, and what the registry then holds.
use exaint.Base.{
  ℕ, ◌≡◌, refl, sym, subst, ◌∙◌, ap, String, false, Option, none, some, List, [], ◌∷◌, ◌++◌,
  append_assoc, append-nil, Result, ok, err, arith, Bool-cases, inl, inr, ◌≢◌, length, ◌==◌,
}
use exaint.Base.Int.{ℤ}
use exaint.Base.Keys.{string_eq}
use exaint.Base.Map
use exaint.Base.Map.{has-set}
use exaint.Base.Sorted.{contains, contains-append}
use exaint.Market.Steps.{Fault}
use exaint.Market.Config.{SymbolConfig, config_by_symbol}
use exaint.Market.Engine.{SymbolEngine}
use exaint.Market.Engine.Registry.{
  RegistryError, SymbolRegistry, empty_registry, add_engine, add_known, add_symbol, add_symbols,
  new_registry, not_empty,
}

-- The keys of the map are the symbols of the order, and none comes twice.
abbrev pub Fresh : List String → List String → Type 0
Fresh seen [] = Unit
Fresh seen (s ∷ ss) = (contains s seen ≡ false) × Fresh (seen ++ s ∷ []) ss

abbrev pub InSync : SymbolRegistry → Type 0
InSync r = (k : String) → Map.has k r.engines ≡ contains k r.order

pub nothing : InSync empty_registry
unfolding Map.has contains
nothing k = refl

module _ (fuel : ℕ) (utf_8 : String → List ℕ) (market_seed : ℤ) (book_depth : ℕ) where
  add_engine-ok :
      (symbol : String) (r r' : SymbolRegistry) (made : Result Fault SymbolEngine)
      → add_engine fuel utf_8 market_seed book_depth symbol r made ≡ ok r'
      → InSync r
      → (r'.order ≡ r.order ++ symbol ∷ []) × InSync r'
  unfolding contains
  add_engine-ok symbol r r' (err e) h sync = absurd cc
  add_engine-ok symbol r r' (ok engine) h sync =
      let same : r'
          ≡ record { engines = Map.set symbol engine r.engines; order = r.order ++ symbol ∷ [] } =
        ground arith in
      (
        ap (λ x. x.order) same,
        λ k.
            ap (λ x. Map.has k x.engines) same
            ∙ has-set symbol k engine r.engines
            ∙ ground (
              arith,
              sync k,
              contains-append k r.order (symbol ∷ []),
              ap (λ x. contains k x.order) same,
            ),
      )

  add_known-ok :
      (symbol : String) (r r' : SymbolRegistry) (config : Option SymbolConfig)
      → add_known fuel utf_8 market_seed book_depth symbol r config ≡ ok r'
      → InSync r
      → (contains symbol r.order ≡ false) × (r'.order ≡ r.order ++ symbol ∷ []) × InSync r'
  add_known-ok symbol r r' none h sync = absurd cc
  add_known-ok symbol r r' (some config) h sync = elim (Bool-cases (Map.has symbol r.engines)) [
    | inl twice ↦ absurd (ground (arith, rw twice at h))
    | inr fresh ↦
        let p = add_engine-ok symbol r r' _ (rw fresh at h) sync in
        (sym (sync symbol) ∙ fresh, p.0, p.1)
  ]

  -- What an accepted list is, after the symbols that the registry has.
  abbrev pub Extends : SymbolRegistry → List String → SymbolRegistry → Type 0
  Extends r symbols r' = Fresh r.order symbols × (r'.order ≡ r.order ++ symbols) × InSync r'

  both :
      (res : Result RegistryError SymbolRegistry) (symbols : List String) (r' : SymbolRegistry)
      → elim res [
        | ok mid ↦ add_symbols fuel utf_8 market_seed book_depth symbols mid
        | err e ↦ err e
      ]
        ≡ ok r'
      → (mid : SymbolRegistry) × (res ≡ ok mid)
        × (add_symbols fuel utf_8 market_seed book_depth symbols mid ≡ ok r')
  both (ok mid) symbols r' h = (mid, refl, h)
  both (err e) symbols r' h = absurd cc

  pub add_symbols-ok :
      (symbols : List String) (r r' : SymbolRegistry)
      → add_symbols fuel utf_8 market_seed book_depth symbols r ≡ ok r'
      → InSync r
      → Extends r symbols r'
  unfolding add_symbols add_symbol
  add_symbols-ok [] r r' h sync =
      let same : r ≡ r' = ground arith in
      subst (λ x. Extends r [] x) same (tt, sym (append-nil r.order), sync)
  add_symbols-ok (symbol ∷ symbols) r r' h sync =
      let (mid, first, rest) =
        both (add_symbol fuel utf_8 market_seed book_depth symbol r) symbols r' h in
      let p = add_known-ok symbol r mid (Map.get symbol config_by_symbol) first sync in
      let q = add_symbols-ok symbols mid r' rest p.2 in
      (
        (p.0, subst (λ order. Fresh order symbols) p.1 q.0),
        q.1 ∙ ap (λ order. order ++ symbols) p.1 ∙ append_assoc r.order (symbol ∷ []) symbols,
        q.2,
      )

  not_empty-ok :
      (r r' : SymbolRegistry)
      → not_empty fuel utf_8 market_seed book_depth r ≡ ok r'
      → (r ≡ r') × (r.order ≢ [])
  not_empty-ok r r' h = elim (Bool-cases (length r.order == 0)) [
    | inl empty ↦ absurd (ground (arith, rw empty at h))
    | inr some_symbols ↦ (
      ground (arith, rw some_symbols at h),
      λ e. absurd (ground (arith, some_symbols, ap length e)),
    )
  ]

  finished :
      (res : Result RegistryError SymbolRegistry) (r' : SymbolRegistry)
      → elim res [ ok mid ↦ not_empty fuel utf_8 market_seed book_depth mid | err e ↦ err e ]
        ≡ ok r'
      → (res ≡ ok r') × (r'.order ≢ [])
  finished (ok mid) r' h =
      let p = not_empty-ok mid r' h in (ap ok p.0, subst (λ x. x.order ≢ []) p.0 p.1)
  finished (err e) r' h = absurd cc

-- A registry that is built holds the symbols asked for, in their order, of which there is at least
-- one and none comes twice; it has an engine for exactly these.
pub new_registry-ok :
    (fuel : ℕ) (utf_8 : String → List ℕ) (market_seed : ℤ) (book_depth : ℕ) (symbols : List String)
    (r : SymbolRegistry)
    → new_registry fuel utf_8 market_seed book_depth symbols ≡ ok r
    → Fresh [] symbols
      × (symbols ≢ [])
      × (r.order ≡ symbols)
      × ((k : String) → Map.has k r.engines ≡ contains k symbols)
unfolding new_registry
new_registry-ok fuel utf_8 market_seed book_depth symbols r h =
    let (made, some_symbols) =
      finished fuel utf_8 market_seed book_depth
        (add_symbols fuel utf_8 market_seed book_depth symbols empty_registry) r h in
    let p =
      add_symbols-ok fuel utf_8 market_seed book_depth symbols empty_registry r made nothing in
    (p.0, λ e. some_symbols (p.1 ∙ e), p.1, λ k. p.2 k ∙ ap (contains k) p.1)
