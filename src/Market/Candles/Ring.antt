-- ===== src/Market/Candles/Ring.antt =====
-- candles/ring-buffer.ts refines the list of the last `capacity` candles pushed.
use exaint.Base.{
  ℕ, zero, suc, ◌+◌, ◌-◌, ◌%◌, ◌≤◌, ◌<◌, ◌≡◌, refl, sym, ◌∙◌, ap, Option, none, some, List, [], ◌∷◌,
  ◌++◌, ltb, ◌==◌, if◌then◌else◌, length, drop, get_elem?, set_elem, arith, length-append,
  length-drop, length-set_elem, Bool-cases, inl, inr,
}
use native.Mathlib.Nat.{mod-eq_of_lt, add-mod_right, mod-add-mod}
use exaint.Market.Events.{DomainCandle}
use exaint.Market.Candles.{CandleRingBuffer, push, slot, collect, to_array, recent, last}

-- An index, once round at most.
abbrev wrap : ℕ → ℕ → ℕ
wrap x k = if ltb x k then x else x - k

mod_wrap : (x k : ℕ) → x < k + k → x % k ≡ wrap x k
mod_wrap x k h = elim (Bool-cases (ltb x k)) [
  | inl small ↦ rw small (mod-eq_of_lt (ground arith))
  | inr large ↦
      let e : x - k + k ≡ x = ground arith in
      rw large (ap (λ y. y % k) (sym e) ∙ add-mod_right (x - k) k ∙ mod-eq_of_lt (ground arith))
]

-- The cell of the `j`th candle held, oldest first.
abbrev cell : CandleRingBuffer → ℕ → ℕ
cell r j = wrap (r.next + r.capacity - r.size + j) r.capacity

-- The buffer holds the candles `xs`, oldest first.
pub record Stores (r : CandleRingBuffer) (xs : List DomainCandle) : Type 0 where
  pub room : 0 < r.capacity
  pub cells : length r.slots ≡ r.capacity
  pub next_cell : r.next < r.capacity
  pub fits : r.size ≤ r.capacity
  pub count : length xs ≡ r.size
  pub at : (j : ℕ) → j < r.size → slot r.slots (cell r j) ≡ get_elem? xs j

module _ {ℓ} {A : Type ℓ} where
  get_elem?-set_elem :
      (xs : List A) (i j : ℕ) (v : A)
      → i < length xs
      → get_elem? (set_elem xs i v) j ≡ (if i == j then some v else get_elem? xs j)
  get_elem?-set_elem [] i j v h = absurd (omega arith)
  get_elem?-set_elem (x ∷ xs) zero zero v h = refl
  get_elem?-set_elem (x ∷ xs) zero (suc j) v h = ground arith
  get_elem?-set_elem (x ∷ xs) (suc i) zero v h = ground arith
  get_elem?-set_elem (x ∷ xs) (suc i) (suc j) v h = ground (arith, get_elem?-set_elem xs i j v)

  get_elem?-append :
      (xs : List A) (v : A) (j : ℕ)
      → get_elem? (xs ++ v ∷ []) j
        ≡ (if ltb j (length xs) then get_elem? xs j else if j == length xs then some v else none)
  get_elem?-append [] v zero = ground arith
  get_elem?-append [] v (suc j) = ground arith
  get_elem?-append (x ∷ xs) v zero = ground arith
  get_elem?-append (x ∷ xs) v (suc j) = ground (arith, get_elem?-append xs v j)

  get_elem?-drop : (xs : List A) (k j : ℕ) → get_elem? (drop k xs) j ≡ get_elem? xs (k + j)
  get_elem?-drop xs zero j = let e : 0 + j ≡ j = omega arith in rw e refl
  get_elem?-drop [] (suc k) j = refl
  get_elem?-drop (x ∷ xs) (suc k) j =
      let e : suc k + j ≡ suc (k + j) = omega arith in
      get_elem?-drop xs k j ∙ ap (get_elem? (x ∷ xs)) (sym e)

-- The last `k` elements of a list.
abbrev pub keep_last {ℓ} : {A : Type ℓ} → ℕ → List A → List A
keep_last k xs = drop (length xs - k) xs

slot-set_elem :
    (slots : List (Option DomainCandle)) (i j : ℕ) (c : DomainCandle)
    → i < length slots
    → slot (set_elem slots i (some c)) j ≡ (if i == j then some c else slot slots j)
slot-set_elem slots i j c h = ground (arith, get_elem?-set_elem slots i j (some c) h)

-- The candle at position `j` after a push.
newest :
    (k j : ℕ) (c : DomainCandle) (xs : List DomainCandle)
    → get_elem? (keep_last k (xs ++ c ∷ [])) j ≡ (
        if ltb (length xs + 1 - k + j) (length xs)
        then get_elem? xs (length xs + 1 - k + j)
        else if length xs + 1 - k + j == length xs
        then some c
        else none)
newest k j c xs =
    let e : length (xs ++ c ∷ []) ≡ length xs + 1 = omega (arith, length-append xs (c ∷ [])) in
    get_elem?-drop (xs ++ c ∷ []) (length (xs ++ c ∷ []) - k) j
    ∙ ap (λ n. get_elem? (xs ++ c ∷ []) (n - k + j)) e
    ∙ get_elem?-append xs c (length xs + 1 - k + j)

push_at :
    {r : CandleRingBuffer} {xs : List DomainCandle} (c : DomainCandle)
    → Stores r xs
    → (j : ℕ) → j < (push c r).size
    → slot (push c r).slots (cell (push c r) j) ≡ get_elem? (keep_last r.capacity (xs ++ c ∷ [])) j
unfolding push
push_at {r} {xs} c v j h =
    let i = length xs + 1 - r.capacity + j in
    let turn : (r.next + 1) % r.capacity ≡ wrap (r.next + 1) r.capacity =
      mod_wrap (r.next + 1) r.capacity (omega (arith, v.next_cell, v.room)) in
    let same : cell (push c r) j ≡ cell r i =
      rw turn (ground (arith, v.next_cell, v.fits, v.count)) in
    let hit : (r.next == cell r i) ≡ (i == length xs) =
      ground (arith, v.next_cell, v.fits, v.count) in
    slot-set_elem r.slots r.next (cell (push c r) j) c (omega (arith, v.next_cell, v.cells))
    ∙ ground (arith, same, hit, v.at i, newest r.capacity j c xs, v.count, v.fits)

-- One push: the newest candle goes behind the others, and the oldest goes where there is no room.
pub push-Stores :
    {r : CandleRingBuffer} {xs : List DomainCandle} (c : DomainCandle)
    → Stores r xs
    → Stores (push c r) (keep_last r.capacity (xs ++ c ∷ []))
unfolding push
push-Stores {r} {xs} c v = record {
  room = v.room;
  cells = length-set_elem r.slots r.next (some c) ∙ v.cells;
  next_cell =
      rw (mod_wrap (r.next + 1) r.capacity (omega (arith, v.next_cell, v.room)))
        (ground (arith, v.next_cell, v.room));
  fits = ground (arith, v.fits);
  count = ground (
    arith,
    length-drop (length (xs ++ c ∷ []) - r.capacity) (xs ++ c ∷ []),
    length-append xs (c ∷ []),
    v.count,
    v.fits,
  );
  at = λ j h. push_at c v j h;
}

-- The cells from `i` on, as the code reads them.
collect_lem :
    (slots : List (Option DomainCandle)) (k i n : ℕ) (xs : List DomainCandle)
    → length xs ≡ n
    → ((j : ℕ) → j < n → slot slots ((i + j) % k) ≡ get_elem? xs j)
    → collect slots k i n ≡ xs
unfolding collect
collect_lem slots k i zero [] e h = refl
collect_lem slots k i zero (x ∷ xs) e h = absurd (omega arith)
collect_lem slots k i (suc n) [] e h = absurd (omega arith)
collect_lem slots k i (suc n) (x ∷ xs) e h =
    let z : i + 0 ≡ i = omega arith in
    let first : slot slots (i % k) ≡ some x =
      ap (λ y. slot slots (y % k)) (sym z) ∙ h 0 (omega arith) in
    let rest : collect slots k ((i + 1) % k) n ≡ xs =
      collect_lem slots k ((i + 1) % k) n xs (omega arith) (λ j q.
        let s : i + 1 + j ≡ i + suc j = omega arith in
        ap (slot slots) (mod-add-mod (i + 1) k j ∙ ap (λ y. y % k) s) ∙ h (suc j) (omega arith)) in
    rw (first, rest, collect) refl

pub to_array-Stores :
    {r : CandleRingBuffer} {xs : List DomainCandle} → Stores r xs → to_array r ≡ xs
unfolding to_array
to_array-Stores {r} {xs} v =
    collect_lem r.slots r.capacity ((r.next + r.capacity - r.size) % r.capacity) r.size xs v.count
      (λ j h.
        ap (slot r.slots) (
          mod-add-mod (r.next + r.capacity - r.size) r.capacity j
          ∙ mod_wrap (r.next + r.capacity - r.size + j) r.capacity
              (omega (arith, v.next_cell, v.fits)))
        ∙ v.at j h)

pub recent-Stores :
    {r : CandleRingBuffer} {xs : List DomainCandle} (limit : ℕ)
    → Stores r xs
    → recent limit r ≡ keep_last limit xs
unfolding recent
recent-Stores {r} {xs} limit v = elim (Bool-cases (limit == 0)) [
  | inl nothing ↦ rw nothing (sym (drop_all limit xs (ground arith)))
  | inr some_ ↦ rw (some_, to_array-Stores v) refl
]
  where
    drop_length : (ys : List DomainCandle) → drop (length ys) ys ≡ []
    drop_length [] = refl
    drop_length (y ∷ ys) = drop_length ys

    drop_all : (k : ℕ) (ys : List DomainCandle) → k ≡ 0 → keep_last k ys ≡ []
    drop_all k ys e = let q : length ys - k ≡ length ys = omega arith in rw q (drop_length ys)

pub last-Stores :
    {r : CandleRingBuffer} {xs : List DomainCandle}
    → Stores r xs
    → last r ≡ (if length xs == 0 then none else get_elem? xs (length xs - 1))
unfolding last
last-Stores {r} {xs} v = elim (Bool-cases (r.size == 0)) [
  | inl none_ ↦ ground (arith, v.count)
  | inr some_ ↦
      let e : wrap (r.next + r.capacity - 1) r.capacity ≡ cell r (r.size - 1) =
        ground (arith, v.next_cell, v.fits) in
      rw (mod_wrap (r.next + r.capacity - 1) r.capacity (omega (arith, v.next_cell)))
        (ground (arith, v.count, e, v.at (r.size - 1)))
]
