-- ===== src/Web/Chart/History/Ranks.antt =====
-- What merging, sorting and writing candles keep: at each start time the candle, and its rank.
use exaint.Base.{
  ℕ, ◌≡◌, refl, ◌∙◌, ap, String, true, Option, none, some, List, [], ◌∷◌, ◌++◌, ◌==◌, max, map,
  arith, Bool-cases, inl, inr, All,
}
use exaint.Base.Keys.{nat_eq}
use exaint.Base.Map
use exaint.Base.Map.{Map, get-set, get_last-Unique, set-Unique}
use exaint.Base.Sort.{sort, insert, All-sort}
use exaint.App.Wire.{Candle}
use exaint.Web.CandleData.{is_candle_newer, merge_candles, merge_into}
use exaint.Web.CandleData.Newest.{rank_of, highest, merge_into_lem}
use exaint.Web.Chart.History.{by_start, write_all}
use text.Mathlib.Text.{◌==◌ as same_text}

abbrev pub keyed : List Candle → Map ℕ Candle
keyed cs = map (λ (c : Candle). (c.start_time, c)) cs

-- Each candle stands under its start time.
abbrev pub IsKeyed : Map ℕ Candle → Type 0
IsKeyed m = keyed (Map.values m) ≡ m

abbrev pub IsStore : Map ℕ Candle → Type 0
IsStore m = IsKeyed m × Map.Unique m

pub set-IsKeyed : (c : Candle) (m : Map ℕ Candle) → IsKeyed m → IsKeyed (Map.set c.start_time c m)
unfolding Map.set Map.values
set-IsKeyed c [] h = refl
set-IsKeyed c ((k, d) ∷ m) h =
    let rest : keyed (Map.values m) ≡ m = cc in
    elim (Bool-cases (k == c.start_time)) [
      | inl hit ↦
          let at : k ≡ c.start_time = (nat_eq.beq_iff k c.start_time).0 hit in
          rw hit (rw (at, rest) refl)
      | inr miss ↦ rw miss (cc (set-IsKeyed c m rest))
    ]

pub set-IsStore : (c : Candle) (m : Map ℕ Candle) → IsStore m → IsStore (Map.set c.start_time c m)
set-IsStore c m h = (set-IsKeyed c m h.0, set-Unique c.start_time c m h.1)

pub write_all-IsStore : (cs : List Candle) (m : Map ℕ Candle) → IsStore m → IsStore (write_all cs m)
unfolding write_all
write_all-IsStore [] m h = h
write_all-IsStore (c ∷ cs) m h = write_all-IsStore cs (Map.set c.start_time c m) (set-IsStore c m h)

pub merge_into-IsStore :
    (symbol : String) (cs : List Candle) (m : Map ℕ Candle)
    → IsStore m
    → IsStore (merge_into symbol cs m)
unfolding merge_into
merge_into-IsStore symbol [] m h = h
merge_into-IsStore symbol (c ∷ cs) m h = elim (Bool-cases (same_text c.symbol symbol)) [
  | inr other ↦ rw other (merge_into-IsStore symbol cs m h)
  | inl mine ↦ elim (Bool-cases (is_candle_newer c (Map.get c.start_time m))) [
    | inl newer ↦ rw (mine, newer) (merge_into-IsStore symbol cs _ (set-IsStore c m h))
    | inr older ↦ rw (mine, older) (merge_into-IsStore symbol cs m h)
  ]
]

-- The last candle of a list that starts at `k`.
abbrev pub last_at : ℕ → List Candle → Option Candle
last_at k cs = Map.get_last k (keyed cs)

pub get-write_all :
    (k : ℕ) (cs : List Candle) (m : Map ℕ Candle)
    → Map.get k (write_all cs m) ≡ elim (last_at k cs) [ some c ↦ some c | none ↦ Map.get k m ]
unfolding write_all Map.get_last
get-write_all k [] m = refl
get-write_all k (c ∷ cs) m =
    ground (arith, get-write_all k cs (Map.set c.start_time c m), get-set c.start_time k c m)

last_at-insert :
    (k : ℕ) (c : Candle) (cs : List Candle) → last_at k (insert by_start c cs) ≡ last_at k (c ∷ cs)
unfolding insert Map.get_last
last_at-insert k c [] = refl
last_at-insert k c (d ∷ cs) = ground (arith, last_at-insert k c cs)

pub last_at-sort : (k : ℕ) (cs : List Candle) → last_at k (sort by_start cs) ≡ last_at k cs
unfolding sort Map.get_last
last_at-sort k [] = refl
last_at-sort k (c ∷ cs) = ground (arith, last_at-insert k c (sort by_start cs), last_at-sort k cs)

-- The candles of a store, sorted, give back the store.
pub last_at-store :
    (k : ℕ) (m : Map ℕ Candle) → IsStore m → last_at k (sort by_start (Map.values m)) ≡ Map.get k m
last_at-store k m h =
    last_at-sort k (Map.values m) ∙ ap (Map.get_last k) h.0 ∙ get_last-Unique k m h.1

-- The same, where they are written into an empty map.
pub get-write_sorted :
    (k : ℕ) (m : Map ℕ Candle)
    → IsStore m
    → Map.get k (write_all (sort by_start (Map.values m)) []) ≡ Map.get k m
unfolding Map.get
get-write_sorted k m h =
    ground (arith, get-write_all k (sort by_start (Map.values m)) [], last_at-store k m h)

pub empty-IsStore : IsStore []
unfolding Map.values
empty-IsStore = (refl, tt)

highest-insert :
    (symbol : String) (k : ℕ) (c : Candle) (cs : List Candle)
    → highest symbol k (insert by_start c cs) ≡ highest symbol k (c ∷ cs)
unfolding insert highest
highest-insert symbol k c [] = refl
highest-insert symbol k c (d ∷ cs) = elim (Bool-cases (by_start d c)) [
  | inl past ↦ rw past (omega (arith, highest-insert symbol k c cs))
  | inr stop ↦ rw stop refl
]

highest-sort :
    (symbol : String) (k : ℕ) (cs : List Candle)
    → highest symbol k (sort by_start cs) ≡ highest symbol k cs
unfolding sort highest
highest-sort symbol k [] = refl
highest-sort symbol k (c ∷ cs) =
    highest-insert symbol k c (sort by_start cs) ∙ omega (arith, highest-sort symbol k cs)

pub highest-append :
    (symbol : String) (k : ℕ) (cs ds : List Candle)
    → highest symbol k (cs ++ ds) ≡ max (highest symbol k cs) (highest symbol k ds)
unfolding highest
highest-append symbol k [] ds = omega arith
highest-append symbol k (c ∷ cs) ds = omega (arith, highest-append symbol k cs ds)

abbrev pub IsOf : String → Candle → Type 0
IsOf symbol c = same_text c.symbol symbol ≡ true

abbrev pub AllOf : String → Map ℕ Candle → Type 0
AllOf symbol m = All (IsOf symbol) (Map.values m)

set-AllOf :
    (symbol : String) (k : ℕ) (c : Candle) (m : Map ℕ Candle)
    → IsOf symbol c
    → AllOf symbol m
    → AllOf symbol (Map.set k c m)
unfolding Map.set Map.values
set-AllOf symbol k c [] mine h = (mine, tt)
set-AllOf symbol k c ((j, d) ∷ m) mine h = elim (Bool-cases (j == k)) [
  | inl hit ↦ rw hit (mine, h.1)
  | inr miss ↦ rw miss (h.0, set-AllOf symbol k c m mine h.1)
]

merge_into-AllOf :
    (symbol : String) (cs : List Candle) (m : Map ℕ Candle)
    → AllOf symbol m
    → AllOf symbol (merge_into symbol cs m)
unfolding merge_into
merge_into-AllOf symbol [] m h = h
merge_into-AllOf symbol (c ∷ cs) m h = elim (Bool-cases (same_text c.symbol symbol)) [
  | inr other ↦ rw other (merge_into-AllOf symbol cs m h)
  | inl mine ↦ elim (Bool-cases (is_candle_newer c (Map.get c.start_time m))) [
    | inl newer ↦
        rw (mine, newer) (merge_into-AllOf symbol cs _ (set-AllOf symbol c.start_time c m mine h))
    | inr older ↦ rw (mine, older) (merge_into-AllOf symbol cs m h)
  ]
]

highest-store :
    (symbol : String) (k : ℕ) (m : Map ℕ Candle)
    → IsStore m
    → AllOf symbol m
    → highest symbol k (Map.values m) ≡ rank_of (Map.get k m)
unfolding Map.get Map.values highest rank_of
highest-store symbol k [] s h = refl
highest-store symbol k ((j, c) ∷ m) s h =
    let rest : keyed (Map.values m) ≡ m = cc s.0 in
    let at : c.start_time ≡ j = cc s.0 in
    let ih = highest-store symbol k m (rest, s.1.1) h.1 in
    elim (Bool-cases (j == k)) [
      | inl hit ↦
          let same : j ≡ k = (nat_eq.beq_iff j k).0 hit in
          let gone : Map.get k m ≡ none = rw (← same) s.1.0 in
          rw (h.0, at, hit) (omega (arith, ih, ap rank_of gone))
      | inr miss ↦
          let h' = highest symbol k (Map.values m) in
          let none_here : max 0 h' ≡ h' = omega arith in rw (h.0, at, miss) (none_here ∙ ih)
    ]

module _ (symbol : String) (k : ℕ) (history live : List Candle) where
  abbrev merged : Map ℕ Candle
  merged = merge_into symbol (history ++ live) []

  merged-IsStore : IsStore merged
  merged-IsStore = merge_into-IsStore symbol (history ++ live) [] empty-IsStore

  pub merge_candles-AllOf : All (IsOf symbol) (merge_candles symbol history live)
  unfolding merge_candles Map.values
  merge_candles-AllOf =
      All-sort by_start (IsOf symbol) (Map.values merged)
        (merge_into-AllOf symbol (history ++ live) [] tt)

  -- A merge keeps the highest rank of every bucket.
  pub highest-merge_candles :
      highest symbol k (merge_candles symbol history live) ≡ highest symbol k (history ++ live)
  unfolding merge_candles Map.values Map.get rank_of
  highest-merge_candles =
      highest-sort symbol k (Map.values merged)
      ∙ highest-store symbol k merged merged-IsStore
          (merge_into-AllOf symbol (history ++ live) [] tt)
      ∙ merge_into_lem symbol k (history ++ live) []
      ∙ omega arith

  -- The candles of a merge, written into an empty map.
  pub rank-write_all :
      rank_of (Map.get k (write_all (merge_candles symbol history live) []))
      ≡ highest symbol k (history ++ live)
  unfolding merge_candles Map.get rank_of
  rank-write_all =
      ap rank_of (get-write_sorted k merged merged-IsStore)
      ∙ merge_into_lem symbol k (history ++ live) []
      ∙ omega arith
