-- ===== src/Web/Watchlist/Reconciled.antt =====
-- order.ts: the order that is reconciled, and the moving of an item.
use exaint.Base.{
  ◌≡◌, refl, ◌∙◌, String, true, false, not, ◌||◌, Option, none, some, List, [], ◌∷◌, ◌++◌,
  if◌then◌else◌, arith, Bool-cases, inl, inr,
}
use exaint.Base.Keys.{string_eq}
use exaint.Base.Sorted.{contains, contains-append, Distinct}
use exaint.Web.Watchlist.{keep_known, add_missing, reconcile_watchlist_order}

-- A symbol that is new goes behind the others.
Distinct-snoc :
    (xs : List String) (x : String) → Distinct xs → contains x xs ≡ false → Distinct (xs ++ x ∷ [])
unfolding contains
Distinct-snoc [] x d h = (refl, tt)
Distinct-snoc (y ∷ ys) x d h = (
  ground (arith, contains-append y ys (x ∷ []), string_eq.beq_iff x y, string_eq.beq_iff y x, d.0),
  Distinct-snoc ys x d.1 (ground arith),
)

add_missing-contains :
    (k : String) (rest order : List String)
    → contains k (add_missing rest order) ≡ (if contains k order then true else contains k rest)
unfolding add_missing contains
add_missing-contains k [] order = ground arith
add_missing-contains k (x ∷ xs) order = elim (Bool-cases (contains x order)) [
  | inl seen ↦
      rw seen (add_missing-contains k xs order ∙ ground (arith, string_eq.beq_iff x k, seen))
  | inr new ↦ rw new (
      add_missing-contains k xs (order ++ x ∷ [])
      ∙ ground (arith, contains-append k order (x ∷ []), string_eq.beq_iff x k))
]

add_missing-Distinct :
    (rest order : List String) → Distinct order → Distinct (add_missing rest order)
unfolding add_missing
add_missing-Distinct [] order d = d
add_missing-Distinct (x ∷ xs) order d = elim (Bool-cases (contains x order)) [
  | inl seen ↦ rw seen (add_missing-Distinct xs order d)
  | inr new ↦ rw new (add_missing-Distinct xs (order ++ x ∷ []) (Distinct-snoc order x d new))
]

-- The stored order keeps known symbols only, each once.
record Known (registry order : List String) : Type 0 where
  distinct : Distinct order
  known : (k : String) → contains k order ≡ true → contains k registry ≡ true

known_snoc :
    (registry order : List String) (c : String)
    → ((k : String) → contains k order ≡ true → contains k registry ≡ true)
    → contains c registry ≡ true
    → (k : String) → contains k (order ++ c ∷ []) ≡ true
    → contains k registry ≡ true
unfolding contains
known_snoc registry order c v l k h =
    ground (arith, contains-append k order (c ∷ []), string_eq.beq_iff c k, v k)

keep_known-Known :
    (stored : List (Option String)) (registry order : List String)
    → Known registry order
    → Known registry (keep_known stored registry order)
unfolding keep_known
keep_known-Known [] registry order v = v
keep_known-Known (none ∷ rest) registry order v = keep_known-Known rest registry order v
keep_known-Known (some c ∷ rest) registry order v =
    elim (Bool-cases (not (contains c registry) || contains c order)) [
      | inl skip ↦ rw skip (keep_known-Known rest registry order v)
      | inr take ↦ rw take (
          keep_known-Known rest registry (order ++ c ∷ []) (record {
            distinct = Distinct-snoc order c v.distinct (ground arith);
            known = known_snoc registry order c v.known (ground arith);
          }))
    ]

-- Whatever was stored (no array, entries that are no strings, unknown or repeated symbols), the
-- order that results has no symbol twice and has exactly the symbols of the registry.
pub reconcile_watchlist_order_lem :
    (stored : Option (List (Option String))) (registry : List String) (k : String)
    → Distinct (reconcile_watchlist_order stored registry)
      × (contains k (reconcile_watchlist_order stored registry) ≡ contains k registry)
unfolding reconcile_watchlist_order contains
reconcile_watchlist_order_lem none registry k =
    (add_missing-Distinct registry [] tt, add_missing-contains k registry [])
reconcile_watchlist_order_lem (some stored) registry k =
    let kept =
      keep_known-Known stored registry [] (record { distinct = tt; known = λ k h. absurd (cc) }) in
    (
      add_missing-Distinct registry (keep_known stored registry []) kept.distinct,
      add_missing-contains k registry (keep_known stored registry [])
          ∙ ground (arith, kept.known k),
    )
