-- ===== src/Market/OrderBook/Ladder.antt =====
-- The order of the displayed prices, and the best of them.
use exaint.Base.{
  ◌≡◌, refl, sym, ◌∙◌, ap, subst, true, false, none, some, List, [], ◌∷◌, arith, Bool-cases, inl,
  inr, ◌⊎◌, All,
}
use exaint.Base.Int.{ℤ, ltb_ℤ, eqb_ℤ}
use exaint.Base.Keys.{int_eq, int_order}
use exaint.Base.Map
use exaint.Base.Map.{Map, Unique, has-get, has-get-some}
use exaint.Base.Sort.{sort}
use exaint.Base.Sorted.{
  contains, Ascending, Descending, sort-Ascending, reverse-Descending, keys-Distinct,
}
use exaint.Market.OrderBook.{OrderBook, BookSide, bid, ask, side_of, prices, best}
use exaint.Market.OrderBook.Snapshot.{contains-prices}

-- Each price better than all that follow it: bids fall, asks rise.
abbrev pub BestFirst : BookSide → List ℤ → Type 0
BestFirst bid xs = Descending xs
BestFirst ask xs = Ascending xs

-- The prices of a side come best first, and none comes twice.
pub prices-BestFirst :
    (s : BookSide) (b : OrderBook) → Unique (side_of s b) → BestFirst s (prices s b)
unfolding prices
prices-BestFirst bid b u =
    reverse-Descending (sort ltb_ℤ (Map.keys b.bids))
      (sort-Ascending (Map.keys b.bids) (keys-Distinct b.bids u))
prices-BestFirst ask b u = sort-Ascending (Map.keys b.asks) (keys-Distinct b.asks u)

-- `a` is at least as good as `b` on this side.
abbrev pub NotWorse : BookSide → ℤ → ℤ → Type 0
NotWorse bid a b = ltb_ℤ a b ≡ false
NotWorse ask a b = ltb_ℤ b a ≡ false

pub All-contains : (P : ℤ → Type 0) (k : ℤ) (xs : List ℤ) → All P xs → contains k xs ≡ true → P k
unfolding contains
All-contains P k [] h c = absurd (cc)
All-contains P k (x ∷ xs) h c = elim (Bool-cases (eqb_ℤ x k)) [
  | inl same ↦ subst P ((int_eq.beq_iff x k).0 same) h.0
  | inr other ↦ All-contains P k xs h.1 (ground arith)
]

best_of :
    (s : BookSide) (p k : ℤ) (xs : List ℤ)
    → BestFirst s (p ∷ xs)
    → contains k (p ∷ xs) ≡ true
    → NotWorse s p k
unfolding contains
best_of bid p k xs h c = elim (Bool-cases (eqb_ℤ p k)) [
  | inl same ↦ ground (arith, int_eq.beq_iff p k)
  | inr other ↦ ground (arith, All-contains (λ y. ltb_ℤ y p ≡ true) k xs h.0 (ground arith))
]
best_of ask p k xs h c = elim (Bool-cases (eqb_ℤ p k)) [
  | inl same ↦ ground (arith, int_eq.beq_iff p k)
  | inr other ↦ ground (arith, All-contains (λ y. ltb_ℤ p y ≡ true) k xs h.0 (ground arith))
]

-- On a side where no price occurs twice, `best` answers undefined where the side is empty, and
-- otherwise a price at which the side has a level, no worse than any such price.
pub best_lem :
    (s : BookSide) (b : OrderBook)
    → Unique (side_of s b)
    → ((best s b ≡ none) × ((k : ℤ) → Map.has k (side_of s b) ≡ false))
      ⊎ ((p : ℤ) × (best s b ≡ some p)
          × (Map.has p (side_of s b) ≡ true)
          × ((k : ℤ) → Map.has k (side_of s b) ≡ true → NotWorse s p k))
unfolding best contains
best_lem s b u = go (prices s b) refl
  where
    found : (p : ℤ) (ps : List ℤ) → contains p (p ∷ ps) ≡ true
    found p ps = ground arith

    go :
        (ps : List ℤ)
        → prices s b ≡ ps
        → ((best s b ≡ none) × ((k : ℤ) → Map.has k (side_of s b) ≡ false))
          ⊎ ((p : ℤ) × (best s b ≡ some p)
              × (Map.has p (side_of s b) ≡ true)
              × ((k : ℤ) → Map.has k (side_of s b) ≡ true → NotWorse s p k))
    go [] e = inl (rw (e, best), λ k. sym (contains-prices s k b) ∙ rw (e, contains))
    go (p ∷ ps) e = inr (
      p,
      rw (e, best),
      sym (contains-prices s p b) ∙ ap (contains p) e ∙ found p ps,
      λ k h.
          best_of s p k ps (subst (BestFirst s) e (prices-BestFirst s b u))
            (ap (contains k) (sym e) ∙ contains-prices s k b ∙ h),
    )
