-- ===== src/Market/OrderBook/Replay.antt =====
-- What a delta means to a reader of it: each level of the delta is written into the reader's own
-- copy, in the delta's order. The reader's copy after a flush is the book.
use exaint.Base.{
  ◌≡◌, refl, ◌∙◌, ap, Option, none, some, List, [], ◌∷◌, arith, if◌then◌else◌, or_else, Bool-cases,
  Option-cases, inl, inr,
}
use exaint.Base.Int.{ℤ, pos, eqb_ℤ, eqb_ℤ_iff, ◌<ℤ◌}
use exaint.Base.Keys.{int_eq, int_order}
use exaint.Base.Map
use exaint.Base.Map.{Map, Unique, get_last, get_last-reverse, get_last-Unique}
use exaint.Base.Sort.{sort}
use exaint.Base.Sorted.{by_key, get-sort, Unique-sort}
use exaint.Market.Events.{DomainBookLevel}
use exaint.Market.OrderBook.{BookSide, bid, ask, best_first, store, changed}
use exaint.Market.OrderBook.Tracking.{Tracks, Positive, get-store}

unfoldable pub replay : List DomainBookLevel → Map ℤ ℤ → Map ℤ ℤ
replay [] m = m
replay ((p, q) ∷ cs) m = replay cs (store p q m)

-- The effect of the last entry for a price, over the quantity that was there.
abbrev pub written : Option ℤ → Option ℤ → Option ℤ
written none old = old
written (some q) old = if eqb_ℤ q (pos 0) then none else some q

pub get-replay :
    (k : ℤ) (cs : List DomainBookLevel) (m : Map ℤ ℤ)
    → Map.get k (replay cs m) ≡ written (get_last k cs) (Map.get k m)
unfolding replay get_last
get-replay k [] m = refl
get-replay k ((p, q) ∷ cs) m = ground (arith, get-replay k cs (store p q m), get-store p k q m)

get-changed :
    (k : ℤ) (levels touched : Map ℤ ℤ)
    → Unique touched
    → Map.get k (changed levels touched) ≡ elim (Map.get k touched) [
      | none ↦ none
      | some before ↦
          if eqb_ℤ (or_else (Map.get k levels) (pos 0)) before
          then none
          else some (or_else (Map.get k levels) (pos 0))
    ]
unfolding Map.get changed
get-changed k levels [] u = refl
get-changed k levels ((p, before) ∷ rest) u =
    ground (arith, eqb_ℤ_iff p k, get-changed k levels rest u.1)

changed-Unique : (levels touched : Map ℤ ℤ) → Unique touched → Unique (changed levels touched)
unfolding changed
changed-Unique levels [] u = tt
changed-Unique levels ((p, before) ∷ rest) u =
    ground (arith, get-changed p levels rest u.1, changed-Unique levels rest u.1)

-- Neither the sorting nor the side's direction changes what the delta says of a price.
get_last-best_first :
    (s : BookSide) (k : ℤ) (m : Map ℤ ℤ)
    → Unique m
    → get_last k (best_first s (sort by_key m)) ≡ Map.get k m
get_last-best_first bid k m u = get_last-reverse k (sort by_key m) ∙ get-sort k m u
get_last-best_first ask k m u = get_last-Unique k (sort by_key m) (Unique-sort m u) ∙ get-sort k m u

-- `q` where positive, and 0 for a missing level: equal quantities are equal lookups.
same_level :
    (a b : Option ℤ)
    → ((q : ℤ) → a ≡ some q → pos 0 <ℤ q)
    → ((q : ℤ) → b ≡ some q → pos 0 <ℤ q)
    → or_else a (pos 0) ≡ or_else b (pos 0)
    → a ≡ b
same_level none none h k e = refl
same_level none (some q) h k e = absurd (ground (arith, k q refl))
same_level (some q) none h k e = absurd (ground (arith, h q refl))
same_level (some q) (some r) h k e = ap some e

pub replay_lem :
    {base levels touched : Map ℤ ℤ} (s : BookSide) (copy : Map ℤ ℤ) (k : ℤ)
    → Tracks base levels touched
    → Positive base
    → Map.get k copy ≡ Map.get k base
    → Map.get k (replay (best_first s (sort by_key (changed levels touched))) copy)
      ≡ Map.get k levels
replay_lem {base} {levels} {touched} s copy k t v e = elim (Option-cases (Map.get k touched)) [
  | inl n ↦ ground (arith, shape, t.untouched k n)
  | inr (before, m) ↦ elim (Bool-cases (eqb_ℤ (or_else (Map.get k levels) (pos 0)) before)) [
    | inl same ↦ ground (
      arith,
      shape,
      eqb_ℤ_iff (or_else (Map.get k levels) (pos 0)) before,
      t.noted k before m,
      same_level (Map.get k base) (Map.get k levels) (v k) (t.positive k),
    )
    | inr differs ↦ elim (Option-cases (Map.get k levels)) [
      | inl gone ↦ ground (arith, shape)
      | inr (q, here) ↦ ground (arith, shape, t.positive k q here)
    ]
  ]
]
  where
    shape :
        Map.get k (replay (best_first s (sort by_key (changed levels touched))) copy)
        ≡ written
            (elim (Map.get k touched) [
              | none ↦ none
              | some before ↦
                  if eqb_ℤ (or_else (Map.get k levels) (pos 0)) before
                  then none
                  else some (or_else (Map.get k levels) (pos 0))
            ])
            (Map.get k copy)
    shape =
        get-replay k (best_first s (sort by_key (changed levels touched))) copy
        ∙ ap (λ (o : Option ℤ). written o (Map.get k copy))
            (get_last-best_first s k (changed levels touched)
                (changed-Unique levels touched t.unique_touched)
              ∙ get-changed k levels touched t.unique_touched)
