-- ===== src/Market/OrderBook/Window.antt =====
-- order-book.ts: the first prices of a side that come best first, and the others.
use exaint.Base.{
  ℕ, zero, suc, ◌≡◌, refl, sym, ◌∙◌, ap, ap₂, subst, Bool, true, false, List, [], ◌∷◌, arith,
  if◌then◌else◌, Bool-cases, inl, inr, take, drop, All,
}
use exaint.Base.Int.{ℤ, ltb_ℤ, eqb_ℤ}
use exaint.Base.Keys.{int_eq, int_order}
use exaint.Base.Sorted.{contains}
use exaint.Market.OrderBook.{BookSide, bid, ask}
use exaint.Market.OrderBook.Ladder.{All-contains, BestFirst}

-- `x` comes before `y` on this side.
abbrev better : BookSide → ℤ → ℤ → Bool
better bid x y = ltb_ℤ y x
better ask x y = ltb_ℤ x y

BestFirst-parts :
    (s : BookSide) (x : ℤ) (xs : List ℤ)
    → BestFirst s (x ∷ xs)
    → All (λ y. better s x y ≡ true) xs × BestFirst s xs
BestFirst-parts bid x xs h = h
BestFirst-parts ask x xs h = h

BestFirst-join :
    (s : BookSide) (x : ℤ) (xs : List ℤ)
    → All (λ y. better s x y ≡ true) xs
    → BestFirst s xs
    → BestFirst s (x ∷ xs)
BestFirst-join bid x xs a h = (a, h)
BestFirst-join ask x xs a h = (a, h)

BestFirst-nil : (s : BookSide) → BestFirst s []
BestFirst-nil bid = tt
BestFirst-nil ask = tt

All-take {κ} : (P : ℤ → Type κ) (n : ℕ) (xs : List ℤ) → All P xs → All P (take n xs)
All-take P zero xs h = tt
All-take P (suc n) [] h = tt
All-take P (suc n) (x ∷ xs) h = (h.0, All-take P n xs h.1)

pub BestFirst-take : (s : BookSide) (n : ℕ) (xs : List ℤ) → BestFirst s xs → BestFirst s (take n xs)
BestFirst-take s zero xs h = BestFirst-nil s
BestFirst-take s (suc n) [] h = BestFirst-nil s
BestFirst-take s (suc n) (x ∷ xs) h =
    let (before, rest) = BestFirst-parts s x xs h in
    BestFirst-join s x (take n xs) (All-take (λ y. better s x y ≡ true) n xs before)
      (BestFirst-take s n xs rest)

not_both : (s : BookSide) (x y : ℤ) → better s x y ≡ true → better s y x ≡ true → ⊥
not_both bid x y h k = ground arith
not_both ask x y h k = ground arith

head_once : (s : BookSide) (x : ℤ) (xs : List ℤ) → BestFirst s (x ∷ xs) → contains x xs ≡ false
head_once s x xs h = elim (Bool-cases (contains x xs)) [
  | inr no_more ↦ no_more
  | inl again ↦
      let self = All-contains (λ y. better s x y ≡ true) x xs (BestFirst-parts s x xs h).0 again in
      absurd (not_both s x x self self)
]

pub contains-take-drop :
    (n : ℕ) (k : ℤ) (xs : List ℤ)
    → contains k xs ≡ (if contains k (take n xs) then true else contains k (drop n xs))
unfolding contains
contains-take-drop zero k xs = refl
contains-take-drop (suc n) k [] = refl
contains-take-drop (suc n) k (x ∷ xs) = ground (arith, contains-take-drop n k xs)

-- What is kept is not dropped.
pub take_or_drop :
    (s : BookSide) (n : ℕ) (k : ℤ) (xs : List ℤ)
    → BestFirst s xs
    → contains k (take n xs) ≡ true
    → contains k (drop n xs) ≡ false
unfolding contains
take_or_drop s zero k xs h c = cc
take_or_drop s (suc n) k [] h c = cc
take_or_drop s (suc n) k (x ∷ xs) h c = elim (Bool-cases (eqb_ℤ x k)) [
  | inl same ↦
      let once = head_once s x xs h in
      let at : x ≡ k = (int_eq.beq_iff x k).0 same in
      subst (λ (j : ℤ). contains j (drop n xs) ≡ false) at
        (ground (arith, contains-take-drop n x xs))
  | inr other ↦ take_or_drop s n k xs (BestFirst-parts s x xs h).1 (ground arith)
]

-- Two lists that come best first and have the same elements are the same.
same_head :
    (s : BookSide) (x y : ℤ) (xs ys : List ℤ)
    → BestFirst s (x ∷ xs)
    → BestFirst s (y ∷ ys)
    → ((k : ℤ) → contains k (x ∷ xs) ≡ contains k (y ∷ ys))
    → x ≡ y
unfolding contains
same_head s x y xs ys h g e = elim (Bool-cases (eqb_ℤ x y)) [
  | inl same ↦ (int_eq.beq_iff x y).0 same
  | inr other ↦
      let x_later : contains x ys ≡ true =
        ground (arith, e x, int_eq.beq_iff x y, int_eq.beq_iff y x, int_eq.beq_iff x x) in
      let y_later : contains y xs ≡ true = ground (arith, e y, int_eq.beq_iff y y) in
      absurd (
        not_both s x y
          (All-contains (λ z. better s x z ≡ true) y xs (BestFirst-parts s x xs h).0 y_later)
          (All-contains (λ z. better s y z ≡ true) x ys (BestFirst-parts s y ys g).0 x_later))
]

tail_same :
    (s : BookSide) (x : ℤ) (xs ys : List ℤ)
    → BestFirst s (x ∷ xs)
    → BestFirst s (x ∷ ys)
    → ((k : ℤ) → contains k (x ∷ xs) ≡ contains k (x ∷ ys))
    → (k : ℤ) → contains k xs ≡ contains k ys
unfolding contains
tail_same s x xs ys h g e k = elim (Bool-cases (eqb_ℤ x k)) [
  | inl same ↦
      subst (λ (j : ℤ). contains j xs ≡ contains j ys) ((int_eq.beq_iff x k).0 same)
        (head_once s x xs h ∙ sym (head_once s x ys g))
  | inr other ↦ ground (arith, e k)
]

pub same_list :
    (s : BookSide) (xs ys : List ℤ)
    → BestFirst s xs
    → BestFirst s ys
    → ((k : ℤ) → contains k xs ≡ contains k ys)
    → xs ≡ ys
unfolding contains
same_list s [] [] h g e = refl
same_list s [] (y ∷ ys) h g e = ground (arith, e y, int_eq.beq_iff y y)
same_list s (x ∷ xs) [] h g e = ground (arith, e x, int_eq.beq_iff x x)
same_list s (x ∷ xs) (y ∷ ys) h g e =
    let at = same_head s x y xs ys h g e in
    ap₂ (λ (z : ℤ) (zs : List ℤ). z ∷ zs) at
      (same_list s xs ys (BestFirst-parts s x xs h).1 (BestFirst-parts s y ys g).1 (
        tail_same s x xs ys h (subst (λ (z : ℤ). BestFirst s (z ∷ ys)) (sym at) g)
          (λ k. e k ∙ ap (λ (z : ℤ). contains k (z ∷ ys)) (sym at))))
