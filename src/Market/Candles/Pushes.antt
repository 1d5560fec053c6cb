-- ===== src/Market/Candles/Pushes.antt =====
-- candles/ring-buffer.ts over any sequence of pushes.
use exaint.Base.{
  ℕ, zero, suc, ◌+◌, ◌-◌, ◌≤◌, ◌<◌, ◌≡◌, refl, sym, ◌∙◌, ap, false, none, some, List, [], ◌∷◌, ◌++◌,
  ◌==◌, if◌then◌else◌, length, drop, get_elem?, replicate, arith, length-append, length-drop,
  length-replicate, append-nil, append_assoc, subst, min,
}
use exaint.Market.Events.{DomainCandle}
use exaint.Market.Candles.{
  CandleRingBuffer, new_ring, empty_ring, push, slot, to_array, recent, last,
}
use exaint.Market.Candles.Ring.{
  Stores, keep_last, push-Stores, to_array-Stores, recent-Stores, last-Stores,
}

drop-append :
    (n : ℕ) (xs ys : List DomainCandle) → n ≤ length xs → drop n (xs ++ ys) ≡ drop n xs ++ ys
drop-append zero xs ys h = refl
drop-append (suc n) [] ys h = absurd (omega arith)
drop-append (suc n) (x ∷ xs) ys h = drop-append n xs ys (omega arith)

drop-drop : (m n : ℕ) (xs : List DomainCandle) → drop m (drop n xs) ≡ drop (n + m) xs
drop-drop m zero xs = let e : 0 + m ≡ m = omega arith in ap (λ k. drop k xs) (sym e)
drop-drop zero (suc n) [] = let e : suc n + 0 ≡ suc n = omega arith in ap (λ k. drop k []) (sym e)
drop-drop (suc m) (suc n) [] =
    let e : suc n + suc m ≡ suc (n + suc m) = omega arith in ap (λ k. drop k []) (sym e)
drop-drop m (suc n) (x ∷ xs) =
    let e : suc n + m ≡ suc (n + m) = omega arith in
    drop-drop m n xs ∙ ap (λ k. drop k (x ∷ xs)) (sym e)

-- Dropping early what is dropped later makes no difference.
keep_last-keep_last :
    (k : ℕ) (xs cs : List DomainCandle)
    → keep_last k (keep_last k xs ++ cs) ≡ keep_last k (xs ++ cs)
keep_last-keep_last k xs cs =
    let n = length xs - k in
    let e : drop n xs ++ cs ≡ drop n (xs ++ cs) = sym (drop-append n xs cs (omega arith)) in
    let l : n + (length (drop n (xs ++ cs)) - k) ≡ length (xs ++ cs) - k =
      omega (arith, length-drop n (xs ++ cs), length-append xs cs) in
    ap (keep_last k) e
    ∙ drop-drop (length (drop n (xs ++ cs)) - k) n (xs ++ cs)
    ∙ ap (λ j. drop j (xs ++ cs)) l

unfoldable pub push_all : List DomainCandle → CandleRingBuffer → CandleRingBuffer
push_all [] r = r
push_all (c ∷ cs) r = push_all cs (push c r)

push_all-Stores :
    (cs : List DomainCandle) {r : CandleRingBuffer} (xs : List DomainCandle)
    → Stores r (keep_last r.capacity xs)
    → Stores (push_all cs r) (keep_last r.capacity (xs ++ cs))
unfolding push_all push
push_all-Stores [] {r} xs v = rw (append-nil xs) v
push_all-Stores (c ∷ cs) {r} xs v =
    subst (λ ys. Stores (push_all cs (push c r)) (keep_last r.capacity ys))
      (append_assoc xs (c ∷ []) cs)
      (push_all-Stores cs {r = push c r} (xs ++ c ∷ [])
        (subst (Stores (push c r)) (keep_last-keep_last r.capacity xs (c ∷ [])) (push-Stores c v)))

slot-replicate : (n j : ℕ) → slot (replicate n none) j ≡ none
slot-replicate zero j = refl
slot-replicate (suc n) zero = refl
slot-replicate (suc n) (suc j) = slot-replicate n j

empty_ring-Stores : (k : ℕ) → 0 < k → Stores (empty_ring k) (keep_last k [])
empty_ring-Stores k h =
    let e : 0 - k ≡ 0 = omega arith in
    rw e (record {
      room = h;
      cells = length-replicate k none;
      next_cell = h;
      fits = omega arith;
      count = refl;
      at = λ j q. absurd (omega arith);
    })

-- A buffer of capacity `k` > 0 made anew and pushed any candles `cs` holds the last `k` of them,
-- oldest first: `toArray` lists them, `recent` the last `limit` of them, `last` the newest one
-- (`undefined` before the first push), and `size` counts them.
pub ring_lem :
    (k : ℕ) (cs : List DomainCandle) (limit : ℕ)
    → 0 < k
    → (r : CandleRingBuffer) × (new_ring k ≡ some r)
      × (let r' = push_all cs r in
          let held = keep_last k cs in
          (to_array r' ≡ held)
          × (recent limit r' ≡ keep_last limit held)
          × (last r' ≡ (if length held == 0 then none else get_elem? held (length held - 1)))
          × (r'.size ≡ min (length cs) k))
unfolding new_ring
ring_lem k cs limit h =
    let s : Stores (push_all cs (empty_ring k)) (keep_last k cs) =
      push_all-Stores cs {r = empty_ring k} [] (empty_ring-Stores k h) in
    let positive : (k == 0) ≡ false = ground arith in
    let count : (push_all cs (empty_ring k)).size ≡ min (length cs) k =
      omega (arith, s.count, length-drop (length cs - k) cs) in
    (
      empty_ring k,
      rw (positive, new_ring) refl,
      (to_array-Stores s, recent-Stores limit s, last-Stores s, count),
    )
