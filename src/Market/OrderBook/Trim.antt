-- ===== src/Market/OrderBook/Trim.antt =====
-- order-book.ts: what `trim` keeps of a book.
use exaint.Base.{
  ℕ, ◌≡◌, refl, sym, ◌∙◌, ap, ap₂, Bool, true, false, Option, none, some, List, [], ◌∷◌, arith,
  if◌then◌else◌, Bool-cases, inl, inr, take, drop, eq_of_some,
}
use exaint.Base.Int.{ℤ, pos, ltb_ℤ, eqb_ℤ}
use exaint.Base.Keys.{int_eq, int_order}
use exaint.Base.Map
use exaint.Base.Map.{Map, Unique, has-get, get-none-has, has-get-some}
use exaint.Base.Sort.{sort}
use exaint.Base.Sorted.{contains}
use exaint.Market.OrderBook.{
  OrderBook, BookSide, bid, ask, side_of, clear_levels, best_first, prices, trim,
}
use exaint.Market.OrderBook.Tracking.{get-store}
use exaint.Market.OrderBook.Invariant.{IsValid, write, set_level_lem, clear_levels-IsValid}
use exaint.Market.OrderBook.Snapshot.{contains-prices}
use exaint.Market.OrderBook.Ladder.{prices-BestFirst}
use exaint.Market.OrderBook.Window.{BestFirst-take, contains-take-drop, take_or_drop, same_list}

get-write :
    (s : BookSide) (p k : ℤ) (b : OrderBook)
    → Map.get k (side_of s (write s p (pos 0) b))
      ≡ (if eqb_ℤ p k then none else Map.get k (side_of s b))
get-write bid p k b = get-store p k (pos 0) b.bids
get-write ask p k b = get-store p k (pos 0) b.asks

-- What is left of a side at a price once the levels at `ps` are gone.
get-clear_levels :
    (s : BookSide) (ps : List ℤ) (b b' : OrderBook) (k : ℤ)
    → clear_levels s ps b ≡ some b'
    → Map.get k (side_of s b') ≡ (if contains k ps then none else Map.get k (side_of s b))
unfolding clear_levels contains
get-clear_levels s [] b b' k e =
    ap (λ (c : OrderBook). Map.get k (side_of s c)) (sym (eq_of_some e))
get-clear_levels s (p ∷ ps) b b' k e =
    let b₁ = write s p (pos 0) b in
    let rest : clear_levels s ps b₁ ≡ some b' =
      sym (rw (set_level_lem s p (pos 0) b (omega arith), clear_levels) refl) ∙ e in
    let ih = get-clear_levels s ps b₁ b' k rest in
    let one : Map.get k (side_of s b₁) ≡ (if eqb_ℤ p k then none else Map.get k (side_of s b)) =
      get-write s p k b in
    ih
    ∙ ap (λ (o : Option ℤ). if contains k ps then none else o) one
    ∙ either (contains k ps) (eqb_ℤ p k) (Map.get k (side_of s b))
  where
    either :
        (here there : Bool) (o : Option ℤ)
        → (if here then none else if there then none else o)
          ≡ (if (if there then true else here) then none else o)
    either true true o = refl
    either true false o = refl
    either false true o = refl
    either false false o = refl

has-of_get : (k : ℤ) (m m' : Map ℤ ℤ) → Map.get k m ≡ Map.get k m' → Map.has k m ≡ Map.has k m'
has-of_get k m m' e = elim (Bool-cases (Map.has k m')) [
  | inr gone ↦ get-none-has k m (e ∙ has-get k m' gone) ∙ sym gone
  | inl there ↦ elim (Bool-cases (Map.has k m)) [
    | inl here ↦ here ∙ sym there
    | inr missing ↦ let (v, at) = has-get-some k m' there in cc (sym (has-get k m missing) ∙ e ∙ at)
  ]
]

-- One side, cut to the first `n` of its prices.
module _ (s : BookSide) (n : ℕ) (b b' : OrderBook) where
  abbrev kept : List ℤ
  kept = take n (prices s b)

  cut-get :
      Unique (side_of s b)
      → clear_levels s (drop n (prices s b)) b ≡ some b'
      → (k : ℤ)
      → Map.get k (side_of s b') ≡ (if contains k kept then Map.get k (side_of s b) else none)
  cut-get u e k =
      let left = get-clear_levels s (drop n (prices s b)) b b' k e in
      let split = contains-take-drop n k (prices s b) in
      elim (Bool-cases (contains k kept)) [
        | inl stays ↦
            let clear = take_or_drop s n k (prices s b) (prices-BestFirst s b u) stays in
            ground arith
        | inr goes ↦ elim (Bool-cases (contains k (drop n (prices s b)))) [
          | inl dropped ↦ ground arith
          | inr outside ↦
              let missing : Map.get k (side_of s b) ≡ none =
                has-get k (side_of s b) (sym (contains-prices s k b) ∙ ground arith) in
              ground arith
        ]
      ]

  cut-kept :
      Unique (side_of s b)
      → clear_levels s (drop n (prices s b)) b ≡ some b'
      → (k : ℤ) → contains k kept ≡ true
      → Map.get k (side_of s b') ≡ Map.get k (side_of s b)
  cut-kept u e k stays = cut-get u e k ∙ rw stays refl

  cut-prices :
      Unique (side_of s b)
      → Unique (side_of s b')
      → clear_levels s (drop n (prices s b)) b ≡ some b'
      → prices s b' ≡ kept
  cut-prices u u' e =
      same_list s (prices s b') kept (prices-BestFirst s b' u')
        (BestFirst-take s n (prices s b) (prices-BestFirst s b u))
        (λ k. contains-prices s k b' ∙ elim (Bool-cases (contains k kept)) [
          | inl stays ↦
              has-of_get k (side_of s b') (side_of s b) (cut-kept u e k stays)
              ∙ sym (contains-prices s k b)
              ∙ contains-take-drop n k (prices s b)
              ∙ rw stays refl
          | inr goes ↦ get-none-has k (side_of s b') (cut-get u e k ∙ rw goes refl) ∙ sym goes
        ])

-- Clearing levels of one side leaves the other as it is.
clear_bids-asks :
    (ps : List ℤ) (b b' : OrderBook) → clear_levels bid ps b ≡ some b' → b'.asks ≡ b.asks
unfolding clear_levels
clear_bids-asks [] b b' e = ap (λ (c : OrderBook). c.asks) (sym (eq_of_some e))
clear_bids-asks (p ∷ ps) b b' e =
    clear_bids-asks ps (write bid p (pos 0) b) b'
      (sym (rw (set_level_lem bid p (pos 0) b (omega arith), clear_levels) refl) ∙ e)

clear_asks-bids :
    (ps : List ℤ) (b b' : OrderBook) → clear_levels ask ps b ≡ some b' → b'.bids ≡ b.bids
unfolding clear_levels
clear_asks-bids [] b b' e = ap (λ (c : OrderBook). c.bids) (sym (eq_of_some e))
clear_asks-bids (p ∷ ps) b b' e =
    clear_asks-bids ps (write ask p (pos 0) b) b'
      (sym (rw (set_level_lem ask p (pos 0) b (omega arith), clear_levels) refl) ∙ e)

prices_of : (s : BookSide) (b c : OrderBook) → side_of s b ≡ side_of s c → prices s b ≡ prices s c
unfolding prices
prices_of s b c e = ap (λ (m : Map ℤ ℤ). best_first s (sort ltb_ℤ (Map.keys m))) e

-- The prices are the first `depth` ones of the side before, and each has its quantity still.
abbrev pub KeepsWindow : BookSide → OrderBook → OrderBook → Type 0
KeepsWindow s b b' =
    (prices s b' ≡ take b.depth (prices s b))
    × ((p : ℤ)
        → contains p (take b.depth (prices s b)) ≡ true
        → Map.get p (side_of s b') ≡ Map.get p (side_of s b))

both : (P : BookSide → Type 0) → P bid → P ask → (s : BookSide) → P s
both P on_bid on_ask bid = on_bid
both P on_bid on_ask ask = on_ask

-- On a valid book `trim` does not throw. The book it leaves is valid for the same last flush, and on
-- each side its prices are the first `depth` ones of the side before, best first, each with the
-- quantity that it had.
pub trim_lem :
    {base b : OrderBook}
    → IsValid base b
    → (b' : OrderBook) × (trim b ≡ some b')
      × IsValid base b'
      × ((s : BookSide) → KeepsWindow s b b')
unfolding trim
trim_lem {base} {b} v =
    let (b₁, e₁, v₁) = clear_levels-IsValid bid (drop b.depth (prices bid b)) v in
    let (b₂, e₂, v₂) = clear_levels-IsValid ask (drop b₁.depth (prices ask b₁)) v₁ in
    let asks_stay : b₁.asks ≡ b.asks = clear_bids-asks (drop b.depth (prices bid b)) b b₁ e₁ in
    let bids_stay : b₂.bids ≡ b₁.bids = clear_asks-bids (drop b₁.depth (prices ask b₁)) b₁ b₂ e₂ in
    let same_window : take b₁.depth (prices ask b₁) ≡ take b.depth (prices ask b) =
      ap₂ take (v₁.same_depth ∙ sym v.same_depth) (prices_of ask b₁ b asks_stay) in
    (
      b₂,
      rw (e₁, trim) e₂,
      v₂,
      both (λ s. KeepsWindow s b b₂)
          (
            prices_of bid b₂ b₁ bids_stay
                ∙ cut-prices bid b.depth b b₁ v.bid_side.unique v₁.bid_side.unique e₁,
            λ p c. ap (Map.get p) bids_stay ∙ cut-kept bid b.depth b b₁ v.bid_side.unique e₁ p c,
          )
          (
            cut-prices ask b₁.depth b₁ b₂ v₁.ask_side.unique v₂.ask_side.unique e₂ ∙ same_window,
            λ p c.
                cut-kept ask b₁.depth b₁ b₂ v₁.ask_side.unique e₂ p
                  (ap (contains p) same_window ∙ c)
                ∙ ap (Map.get p) asks_stay,
          ),
    )
