-- ===== src/Market/OrderBook/Snapshot.antt =====
-- A snapshot replayed into an empty copy is the book.
use exaint.Base.{
  ◌≡◌, refl, ◌∙◌, ap, Bool, true, false, Option, none, some, List, [], ◌∷◌, map, arith,
  if◌then◌else◌, or_else, Bool-cases, inl, inr, ◌⊎◌,
}
use exaint.Base.Int.{ℤ, pos, ltb_ℤ}
use exaint.Base.Keys.{int_eq, int_order}
use exaint.Base.Map
use exaint.Base.Map.{Map, get_last, get-none-has, has-get, has-get-some}
use exaint.Base.Sort.{sort}
use exaint.Base.Sorted.{contains, contains-reverse, contains-sort, contains-keys}
use exaint.Market.OrderBook.{OrderBook, BookSide, bid, ask, side_of, prices, levels, best_first}
use exaint.Market.OrderBook.Tracking.{Positive}
use exaint.Market.OrderBook.Replay.{replay, get-replay, written}

pub contains-best_first :
    (s : BookSide) (k : ℤ) (xs : List ℤ) → contains k (best_first s xs) ≡ contains k xs
contains-best_first bid k xs = contains-reverse k xs
contains-best_first ask k xs = refl

-- The prices of a side are the keys of its levels.
pub contains-prices :
    (s : BookSide) (k : ℤ) (b : OrderBook) → contains k (prices s b) ≡ Map.has k (side_of s b)
unfolding prices
contains-prices s k b =
    contains-best_first s k (sort ltb_ℤ (Map.keys (side_of s b)))
    ∙ contains-sort ltb_ℤ k (Map.keys (side_of s b))
    ∙ contains-keys k (side_of s b)

get_last-map :
    (k : ℤ) (g : ℤ → ℤ) (ks : List ℤ)
    → get_last k (map (λ x. (x, g x)) ks) ≡ (if contains k ks then some (g k) else none)
unfolding get_last contains
get_last-map k g [] = refl
get_last-map k g (x ∷ xs) = ground (arith, int_eq.beq_iff x k, get_last-map k g xs)

-- The levels of one side with positive quantities, written into an empty map, give back at every
-- price what the side has there.
pub replay-levels :
    (s : BookSide) (k : ℤ) (b : OrderBook)
    → Positive (side_of s b)
    → Map.get k (replay (levels s b) []) ≡ Map.get k (side_of s b)
unfolding levels Map.get
replay-levels s k b v =
    get-replay k (levels s b) []
    ∙ ap (λ (o : Option ℤ). written o none)
        (get_last-map k (λ p. or_else (Map.get p (side_of s b)) (pos 0)) (prices s b)
          ∙ ap (λ (t : Bool). if t then some g else none) (contains-prices s k b))
    ∙ finish (Bool-cases (Map.has k (side_of s b)))
  where
    g : ℤ
    g = or_else (Map.get k (side_of s b)) (pos 0)

    finish :
        (Map.has k (side_of s b) ≡ true) ⊎ (Map.has k (side_of s b) ≡ false)
        → written (if Map.has k (side_of s b) then some g else none) none ≡ Map.get k (side_of s b)
    finish (inl h) = let (q, e) = has-get-some k (side_of s b) h in ground (arith, v k q e)
    finish (inr h) = ground (arith, has-get k (side_of s b) h)
