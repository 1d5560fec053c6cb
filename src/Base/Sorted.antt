-- ===== src/Base/Sorted.antt =====
-- Sorting by key: what it does to lookups, to membership and to the order of a list.
use Prim.Native.Nat.{ℕ, zero, suc}
use mathlib.Core.Path.{◌≡◌, refl, ◌∙◌, ap}
use mathlib.Core.Bool.{Bool, true, false}
use mathlib.Core.List.{List, [], ◌∷◌, ◌++◌, map, reverse, reverse-cons}
use mathlib.Core.Logic.{inl, inr}
use mathlib.Core.Option.{Option, none, some}
use native.Mathlib.Omega.{arith}
use exaint.Base.Tests.{if◌then◌else◌, Bool-cases, eq_of_some}
use exaint.Base.Lists.{get_elem?, All, All-append, All-reverse}
use exaint.Base.Keys.{Eq, Order}
use exaint.Base.Map.{Map, get, has, keys, Unique, get-none-has}
use exaint.Base.Sort.{insert, sort, All-insert}

-- `Array.includes`.
unfoldable pub contains {ℓ} : {A : Type ℓ} ⦃e : Eq A⦄ → A → List A → Bool
contains k [] = false
contains ⦃e⦄ k (x ∷ xs) = if e.beq x k then true else contains k xs

-- The comparison of entries by their keys.
abbrev pub by_key {ℓ κ} : {K : Type ℓ} {V : Type κ} ⦃o : Order K⦄ → K × V → K × V → Bool
by_key ⦃o⦄ a b = o.less a.0 b.0

module _ {ℓ κ} {K : Type ℓ} {V : Type κ} ⦃e : Eq K⦄ ⦃o : Order K⦄ where
  get-insert :
      (k j : K) (v : V) (m : Map K V)
      → get j m ≡ none
      → get k (insert by_key (j, v) m) ≡ (if e.beq j k then some v else get k m)
  unfolding get insert
  get-insert k j v [] h = refl
  get-insert k j v ((i, w) ∷ m) h =
      ground (arith, e.beq_iff j k, e.beq_iff i k, e.beq_iff i j, get-insert k j v m)

  Unique-insert :
      (j : K) (v : V) (m : Map K V) → get j m ≡ none → Unique m → Unique (insert by_key (j, v) m)
  unfolding get insert
  Unique-insert j v [] h u = (refl, tt)
  Unique-insert j v ((i, w) ∷ m) h u =
      ground (arith, e.beq_iff i j, e.beq_iff j i, get-insert i j v m, Unique-insert j v m)

  -- Sorting entries with distinct keys keeps every lookup.
  pub get-sort : (k : K) (m : Map K V) → Unique m → get k (sort by_key m) ≡ get k m
  unfolding get sort
  get-sort k [] u = refl
  get-sort k ((j, v) ∷ m) u =
      get-insert k j v (sort by_key m) (get-sort j m u.1 ∙ u.0)
      ∙ ap (λ (r : Option V). if e.beq j k then some v else r) (get-sort k m u.1)

  pub Unique-sort : (m : Map K V) → Unique m → Unique (sort by_key m)
  unfolding sort
  Unique-sort [] u = tt
  Unique-sort ((j, v) ∷ m) u =
      Unique-insert j v (sort by_key m) (get-sort j m u.1 ∙ u.0) (Unique-sort m u.1)

module _ {ℓ κ} {K : Type ℓ} {V : Type κ} ⦃e : Eq K⦄ where
  pub contains-keys : (k : K) (m : Map K V) → contains k (keys m) ≡ has k m
  unfolding contains keys has
  contains-keys k [] = refl
  contains-keys k ((j, v) ∷ m) = ground (arith, contains-keys k m)

  -- Reading a table made by a function of the key.
  pub get-map :
      (k : K) (g : K → V) (ks : List K)
      → get k (map (λ x. (x, g x)) ks) ≡ (if contains k ks then some (g k) else none)
  unfolding get contains
  get-map k g [] = refl
  get-map k g (x ∷ xs) = ground (arith, e.beq_iff x k, get-map k g xs)

module _ {ℓ} {A : Type ℓ} ⦃e : Eq A⦄ where
  pub contains-append :
      (k : A) (xs ys : List A)
      → contains k (xs ++ ys) ≡ (if contains k xs then true else contains k ys)
  unfolding contains
  contains-append k [] ys = refl
  contains-append k (x ∷ xs) ys = ground (arith, contains-append k xs ys)

  pub get_elem-contains :
      (xs : List A) (i : ℕ) (k : A) → get_elem? xs i ≡ some k → contains k xs ≡ true
  unfolding contains
  get_elem-contains [] i k h = cc
  get_elem-contains (x ∷ xs) zero k h = ground (arith, eq_of_some h, e.beq_iff x k)
  get_elem-contains (x ∷ xs) (suc i) k h = ground (arith, get_elem-contains xs i k h)

  pub contains-reverse : (k : A) (xs : List A) → contains k (reverse xs) ≡ contains k xs
  unfolding contains
  contains-reverse k [] = refl
  contains-reverse k (x ∷ xs) =
      rw (reverse-cons x xs)
        (ground (arith, contains-append k (reverse xs) (x ∷ []), contains-reverse k xs))

  contains-insert :
      (before : A → A → Bool) (k x : A) (xs : List A)
      → contains k (insert before x xs) ≡ (if e.beq x k then true else contains k xs)
  unfolding contains insert
  contains-insert before k x [] = refl
  contains-insert before k x (y ∷ ys) = ground (arith, contains-insert before k x ys)

  pub contains-sort :
      (before : A → A → Bool) (k : A) (xs : List A) → contains k (sort before xs) ≡ contains k xs
  unfolding contains sort
  contains-sort before k [] = refl
  contains-sort before k (x ∷ xs) =
      ground (arith, contains-insert before k x (sort before xs), contains-sort before k xs)

  -- No element twice.
  abbrev pub Distinct : List A → Type 0
  Distinct [] = Unit
  Distinct (x ∷ xs) = (contains x xs ≡ false) × Distinct xs

module _ {ℓ} {A : Type ℓ} ⦃o : Order A⦄ where
  -- Each element before all that follow it.
  abbrev pub Ascending : List A → Type 0
  Ascending [] = Unit
  Ascending (x ∷ xs) = All (λ y. o.less x y ≡ true) xs × Ascending xs

  abbrev pub Descending : List A → Type 0
  Descending [] = Unit
  Descending (x ∷ xs) = All (λ y. o.less y x ≡ true) xs × Descending xs

  All-less :
      (x y : A) (ys : List A)
      → o.less x y ≡ true
      → All (λ z. o.less y z ≡ true) ys
      → All (λ z. o.less x z ≡ true) ys
  All-less x y [] h hs = tt
  All-less x y (z ∷ zs) h hs = (o.trans x y z h hs.0, All-less x y zs h hs.1)

module _ {ℓ} {A : Type ℓ} ⦃e : Eq A⦄ ⦃o : Order A⦄ where
  less_of_not : (x y : A) → o.less y x ≡ false → e.beq y x ≡ false → o.less x y ≡ true
  less_of_not x y h n = elim (Bool-cases (o.less x y)) [
    | inl lt ↦ lt
    | inr ge ↦ cc ((e.beq_iff y x).1 (o.total y x h ge))
  ]

  insert-Ascending :
      (x : A) (xs : List A) → contains x xs ≡ false → Ascending xs → Ascending (insert o.less x xs)
  unfolding contains insert
  insert-Ascending x [] n h = (tt, tt)
  insert-Ascending x (y ∷ ys) n h = elim (Bool-cases (o.less y x)) [
    | inl lt ↦ rw lt (
      All-insert o.less (λ z. o.less y z ≡ true) x ys lt h.0,
      insert-Ascending x ys (ground arith) h.1,
    )
    | inr ge ↦
        let lt : o.less x y ≡ true = less_of_not x y ge (ground arith) in
        rw ge ((lt, All-less x y ys lt h.0), h)
  ]

  pub sort-Ascending : (xs : List A) → Distinct xs → Ascending (sort o.less xs)
  unfolding sort
  sort-Ascending [] d = tt
  sort-Ascending (x ∷ xs) d =
      insert-Ascending x (sort o.less xs) (contains-sort o.less x xs ∙ d.0) (sort-Ascending xs d.1)

  Descending-append :
      (xs : List A) (x : A)
      → Descending xs
      → All (λ y. o.less x y ≡ true) xs
      → Descending (xs ++ x ∷ [])
  Descending-append [] x h a = (tt, tt)
  Descending-append (y ∷ ys) x h a = (
    All-append (λ z. o.less z y ≡ true) ys (x ∷ []) h.0 (a.0, tt),
    Descending-append ys x h.1 a.1,
  )

  pub reverse-Descending : (xs : List A) → Ascending xs → Descending (reverse xs)
  reverse-Descending [] h = tt
  reverse-Descending (x ∷ xs) h =
      rw (reverse-cons x xs)
        (Descending-append (reverse xs) x (reverse-Descending xs h.1) (All-reverse _ xs h.0))

module _ {ℓ κ} {K : Type ℓ} {V : Type κ} ⦃e : Eq K⦄ where
  pub keys-Distinct : (m : Map K V) → Unique m → Distinct (keys m)
  unfolding keys
  keys-Distinct [] u = tt
  keys-Distinct ((k, v) ∷ m) u = (contains-keys k m ∙ get-none-has k m u.0, keys-Distinct m u.1)
