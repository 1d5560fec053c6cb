-- ===== src/Web/Watchlist/Tests.antt =====
-- A stored order with a symbol twice, an unknown one and an entry that is no string.
use exaint.Base.{◌≡◌, String, none, some, [], ◌∷◌}
use exaint.Base.Keys.{string_eq}
use exaint.Base.Sorted.{contains, Distinct}
use exaint.Web.Watchlist.{reconcile_watchlist_order}
use exaint.Web.Watchlist.Reconciled.{reconcile_watchlist_order_lem}

reconcile_watchlist_order_lem_example :
    Distinct {A = String} (
      reconcile_watchlist_order
        (some (some "B" ∷ none ∷ some "X" ∷ some "B" ∷ []))
        ("A" ∷ "B" ∷ []))
    × (contains {A = String} "A" (
          reconcile_watchlist_order
            (some (some "B" ∷ none ∷ some "X" ∷ some "B" ∷ []))
            ("A" ∷ "B" ∷ []))
        ≡ contains {A = String} "A" ("A" ∷ "B" ∷ []))
reconcile_watchlist_order_lem_example =
    reconcile_watchlist_order_lem (some (some "B" ∷ none ∷ some "X" ∷ some "B" ∷ []))
      ("A" ∷ "B" ∷ []) "A"
