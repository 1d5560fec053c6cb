-- ===== src/Market/OrderBook/Tracking.antt =====
-- What one side of the book remembers between two flushes: the levels, and for each price touched
-- since the last flush the quantity it had then.
use exaint.Base.{
  ◌≡◌, refl, true, false, none, some, [], arith, if◌then◌else◌, or_else, Bool-cases, inl, inr, ◌⊎◌,
}
use exaint.Base.Int.{ℤ, pos, eqb_ℤ, eqb_ℤ_iff, ◌≤ℤ◌, ◌<ℤ◌}
use exaint.Base.Keys.{int_eq, int_order}
use exaint.Base.Map
use exaint.Base.Map.{
  Map, Unique, get-set, get-delete, set-Unique, delete-Unique, has-get, has-get-some,
}
use exaint.Market.OrderBook.{touch, store}

-- Every stored quantity is positive: a level of quantity 0 is never kept.
abbrev pub Positive : Map ℤ ℤ → Type 0
Positive m = (p q : ℤ) → Map.get p m ≡ some q → pos 0 <ℤ q

-- `base` is the side as it was at the last flush.
pub record Tracks (base levels touched : Map ℤ ℤ) : Type 0 where
  pub unique : Unique levels
  pub unique_touched : Unique touched
  pub positive : Positive levels
  pub untouched : (p : ℤ) → Map.get p touched ≡ none → Map.get p levels ≡ Map.get p base
  pub noted : (p v : ℤ) → Map.get p touched ≡ some v → v ≡ or_else (Map.get p base) (pos 0)

pub get-store :
    (p k q : ℤ) (m : Map ℤ ℤ)
    → Map.get k (store p q m)
      ≡ (if eqb_ℤ p k then if eqb_ℤ q (pos 0) then none else some q else Map.get k m)
get-store p k q m = elim (Bool-cases (eqb_ℤ q (pos 0))) [
  | inl z ↦ rw z (get-delete p k m)
  | inr n ↦ rw n (get-set p k q m)
]

pub store-Unique : (p q : ℤ) (m : Map ℤ ℤ) → Unique m → Unique (store p q m)
store-Unique p q m u = elim (Bool-cases (eqb_ℤ q (pos 0))) [
  | inl z ↦ rw z (delete-Unique p m u)
  | inr n ↦ rw n (set-Unique p q m u)
]

pub store-Positive : (p q : ℤ) (m : Map ℤ ℤ) → pos 0 ≤ℤ q → Positive m → Positive (store p q m)
store-Positive p q m h v k r e = ground (arith, get-store p k q m, v k r)

touch-Unique : (p : ℤ) (levels touched : Map ℤ ℤ) → Unique touched → Unique (touch p levels touched)
touch-Unique p levels touched u = elim (Bool-cases (Map.has p touched)) [
  | inl old ↦ rw old u
  | inr new ↦ rw new (set-Unique p _ touched u)
]

-- `touch` keeps the notes there are, and adds one for `p` if there is none.
get-touch :
    (p k : ℤ) (levels touched : Map ℤ ℤ)
    → Map.get k (touch p levels touched) ≡ (
        if Map.has p touched
        then Map.get k touched
        else if eqb_ℤ p k
        then some (or_else (Map.get p levels) (pos 0))
        else Map.get k touched)
get-touch p k levels touched = elim (Bool-cases (Map.has p touched)) [
  | inl old ↦ rw old
  | inr new ↦ rw new (get-set p k _ touched)
]

-- One write keeps the memory exact.
pub store-Tracks :
    {base levels touched : Map ℤ ℤ} (p q : ℤ)
    → pos 0 ≤ℤ q
    → Tracks base levels touched
    → Tracks base (store p q levels) (touch p levels touched)
store-Tracks {base} {levels} {touched} p q h t = record {
  unique = store-Unique p q levels t.unique;
  unique_touched = touch-Unique p levels touched t.unique_touched;
  positive = store-Positive p q levels h t.positive;
  untouched = λ k e. still k e (Bool-cases (Map.has p touched));
  noted = λ k v e. note k v e (Bool-cases (Map.has p touched));
}
  where
    still :
        (k : ℤ)
        → Map.get k (touch p levels touched) ≡ none
        → (Map.has p touched ≡ true) ⊎ (Map.has p touched ≡ false)
        → Map.get k (store p q levels) ≡ Map.get k base
    still k e (inl old) =
        let (v, g) = has-get-some p touched old in
        ground (
          arith,
          get-touch p k levels touched,
          get-store p k q levels,
          t.untouched k,
          eqb_ℤ_iff p k,
        )
    still k e (inr new) =
        ground (arith, get-touch p k levels touched, get-store p k q levels, t.untouched k)

    note :
        (k v : ℤ)
        → Map.get k (touch p levels touched) ≡ some v
        → (Map.has p touched ≡ true) ⊎ (Map.has p touched ≡ false)
        → v ≡ or_else (Map.get k base) (pos 0)
    note k v e (inl old) = ground (arith, get-touch p k levels touched, t.noted k v)
    note k v e (inr new) = ground (
      arith,
      get-touch p k levels touched,
      t.noted k v,
      t.untouched p (has-get p touched new),
      eqb_ℤ_iff p k,
    )

-- Right after a flush nothing is noted.
pub Tracks-start : (m : Map ℤ ℤ) → Unique m → Positive m → Tracks m m []
unfolding Map.get
Tracks-start m u v = record {
  unique = u;
  unique_touched = tt;
  positive = v;
  untouched = λ p e. refl;
  noted = λ p v e. cc;
}
