-- ===== src/Web/Watchlist.antt =====
-- apps/web/features/market/watchlist/order.ts. A stored order is what JSON.parse made of the stored
-- text: `none` where it is no array, and in the array `none` for an entry that is no string.
pub mod Reconciled
pub mod Tests
use exaint.Base.{
  ℕ, ◌+◌, String, Bool, true, false, not, ◌||◌, Option, none, some, List, [], ◌∷◌, ◌++◌, leb, ◌==◌,
  if◌then◌else◌, length, get_elem?, take, drop,
}
use exaint.Base.Keys.{string_eq}
use exaint.Base.Sorted.{contains}

-- The first loop. `seen` and `order` hold the same symbols: one list, in order, stands for both.
unfoldable pub keep_known : List (Option String) → List String → List String → List String
keep_known [] registry order = order
keep_known (none ∷ rest) registry order = keep_known rest registry order
keep_known (some candidate ∷ rest) registry order =
    let next =
      if not (contains candidate registry) || contains candidate order
      then order
      else order ++ candidate ∷ [] in
    keep_known rest registry next

-- The second loop.
unfoldable pub add_missing : List String → List String → List String
add_missing [] order = order
add_missing (symbol ∷ rest) order =
    add_missing rest (if contains symbol order then order else order ++ symbol ∷ [])

unfoldable pub reconcile_watchlist_order : Option (List (Option String)) → List String → List String
reconcile_watchlist_order none registry = add_missing registry []
reconcile_watchlist_order (some stored) registry =
    add_missing registry (keep_known stored registry [])

-- `Array.splice(index, 0, item)` and `Array.splice(index, 1)`.
abbrev pub insert_at {ℓ} : {A : Type ℓ} → ℕ → A → List A → List A
insert_at index item xs = take index xs ++ item ∷ drop index xs

abbrev pub remove_at {ℓ} : {A : Type ℓ} → ℕ → List A → List A
remove_at index xs = take index xs ++ drop (index + 1) xs

-- The indices are whole and not negative; `none` is an index that is not.
unfoldable pub move_watchlist_item : List String → Option ℕ → Option ℕ → List String
move_watchlist_item order none to_index = order
move_watchlist_item order (some from_index) none = order
move_watchlist_item order (some from_index) (some to_index) =
    if leb (length order) from_index || leb (length order) to_index || (from_index == to_index)
    then order
    else elim (get_elem? order from_index) [
      | none ↦ order
      | some item ↦ insert_at to_index item (remove_at from_index order)
    ]
