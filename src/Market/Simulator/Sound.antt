-- ===== src/Market/Simulator/Sound.antt =====
-- What stays true while the simulator changes the book: the book is valid, it never crosses, its
-- prices are positive, and every print is of a positive quantity at a positive price.
pub mod Steps
pub mod Flow
pub mod Quotes
pub mod Ladder
pub mod Ticks
use exaint.Base.{
  ℕ, ◌+◌, ◌*◌, ◌/◌, ◌%◌, ◌≤◌, ◌<◌, ◌≡◌, refl, subst, Bool, true, false, Option, none, some, List,
  arith, All, ◌⊎◌, inl, inr, Bool-cases, if◌then◌else◌,
}
use exaint.Base.Int.{ℤ, pos, eqb_ℤ, eqb_ℤ_iff, ◌≤ℤ◌, ◌<ℤ◌}
use exaint.Base.Keys.{int_eq}
use exaint.Base.Map
use exaint.Base.Map.{Map, has-set, has-delete}
use exaint.Market.Events.{DomainTrade}
use exaint.Market.Config.{SymbolConfig}
use exaint.Market.OrderBook.{OrderBook, BookSide, bid, ask, side_of, store}
use exaint.Market.OrderBook.Invariant.{IsValid, write, write-IsValid}
use exaint.Market.Simulator.{Scene, floor}

abbrev pub Has : ℤ → Map ℤ ℤ → Type 0
Has p m = Map.has p m ≡ true

-- A configuration that the five of the registry satisfy.
pub record WellConfigured (config : SymbolConfig) : Type 0 where
  pub spaced : 0 < config.level_spacing
  pub on_grid : config.level_spacing % config.tick_size ≡ 0
  pub spread : 0 < config.spread_spacings
  pub priced : config.level_spacing ≤ config.base_price / 4
  pub trade_range : config.min_trade_quantity ≤ config.max_trade_quantity
  pub some_trade : 0 < config.min_trade_quantity
  pub level_range : config.min_level_quantity ≤ config.max_level_quantity
  pub some_level : 0 < config.min_level_quantity

-- The prices of a book.
pub record Uncrossed (config : SymbolConfig) (b : OrderBook) : Type 0 where
  pub apart : (p q : ℤ) → Has p b.bids → Has q b.asks → p <ℤ q
  pub low : (p : ℤ) → Has p b.bids → pos 0 <ℤ p
  pub high : (q : ℤ) → Has q b.asks → pos config.level_spacing <ℤ q

abbrev pub IsPrint : DomainTrade → Type 0
IsPrint t = (pos 0 <ℤ t.quantity) × (pos 0 <ℤ t.price)

pub record SoundParts (config : SymbolConfig) (base b : OrderBook) (sink : List DomainTrade)
    (fair : ℤ) : Type 0 where
  pub valid : IsValid base b
  pub uncrossed : Uncrossed config b
  pub prints : All IsPrint sink
  pub above_floor : floor config ≤ℤ fair

abbrev pub Sound : SymbolConfig → OrderBook → Scene → Type 0
Sound config base w = SoundParts config base w.book w.sink w.sim.fair_value

-- Where a level may stand.
abbrev pub Room : SymbolConfig → BookSide → ℤ → OrderBook → Type 0
Room config bid p b = (pos 0 <ℤ p) × ((q : ℤ) → Has q b.asks → p <ℤ q)
Room config ask p b = (pos config.level_spacing <ℤ p) × ((q : ℤ) → Has q b.bids → q <ℤ p)

-- A price of the side that was written was there before, or was given room.
Has-store :
    {R : Type 0} (p k q : ℤ) (m : Map ℤ ℤ)
    → (q ≡ pos 0) ⊎ R
    → Has k (store p q m)
    → ((p ≡ k) × R) ⊎ Has k m
Has-store p k q m (inl z) h = inr (ground (arith, rw z at h, has-delete p k m))
Has-store p k q m (inr r) h = elim (Bool-cases (eqb_ℤ q (pos 0))) [
  | inl z ↦ inr (ground (arith, rw z at h, has-delete p k m))
  | inr n ↦ elim (Bool-cases (eqb_ℤ p k)) [
    | inl same ↦ inl ((int_eq.beq_iff p k).0 same, r)
    | inr other ↦ inr (ground (arith, rw n at h, has-set p k q m, other))
  ]
]

pub Has-Room :
    (config : SymbolConfig) (s : BookSide) (p : ℤ) (b : OrderBook)
    → Uncrossed config b
    → Has p (side_of s b)
    → Room config s p b
Has-Room config bid p b u h = (u.low p h, λ q k. u.apart p q h k)
Has-Room config ask p b u h = (u.high p h, λ q k. u.apart q p k h)

pub write-Uncrossed :
    (config : SymbolConfig) (s : BookSide) (p q : ℤ) (b : OrderBook)
    → (q ≡ pos 0) ⊎ Room config s p b
    → Uncrossed config b
    → Uncrossed config (write s p q b)
write-Uncrossed config bid p q b h u = record {
  apart = λ x y hx hy. elim (Has-store p x q b.bids h hx) [
    | inl (e, room) ↦ subst (λ t. t <ℤ y) e (room.1 y hy)
    | inr old ↦ u.apart x y old hy
  ];
  low = λ x hx. elim (Has-store p x q b.bids h hx) [
    | inl (e, room) ↦ subst (λ t. pos 0 <ℤ t) e room.0
    | inr old ↦ u.low x old
  ];
  high = u.high;
}
write-Uncrossed config ask p q b h u = record {
  apart = λ x y hx hy. elim (Has-store p y q b.asks h hy) [
    | inl (e, room) ↦ subst (λ t. x <ℤ t) e (room.1 x hx)
    | inr old ↦ u.apart x y hx old
  ];
  low = u.low;
  high = λ y hy. elim (Has-store p y q b.asks h hy) [
    | inl (e, room) ↦ subst (λ t. pos config.level_spacing <ℤ t) e room.0
    | inr old ↦ u.high y old
  ];
}

-- Writing a quantity that is not negative, where there is room or to take a level out.
pub write-SoundParts :
    {config : SymbolConfig} {base : OrderBook} (s : BookSide) (p q : ℤ) (w : Scene)
    → pos 0 ≤ℤ q
    → (q ≡ pos 0) ⊎ Room config s p w.book
    → Sound config base w
    → Sound config base (record w { book = write s p q w.book })
write-SoundParts {config} s p q w h r v = record {
  valid = write-IsValid s p q h v.valid;
  uncrossed = write-Uncrossed config s p q w.book r v.uncrossed;
  prints = v.prints;
  above_floor = v.above_floor;
}
