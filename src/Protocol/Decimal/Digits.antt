-- ===== src/Protocol/Decimal/Digits.antt =====
-- The digits that a number is printed with: their value, their shape, and padding.
use exaint.Base.{
  ℕ, zero, suc, ◌+◌, ◌/◌, ◌%◌, ◌<◌, ◌≡◌, refl, ◌∙◌, ap, true, none, some, [], ◌∷◌, ◌++◌, ltb, take,
  drop, replicate, arith, Bool-cases, inl, inr,
}
use exaint.Protocol.Decimal.{
  Text, digits, to_string, number_from, number, all_digits, is_whole, split_dot,
}

-- Printing and reading back: the digits in front of `out` count as `n` in front of it.
digits_value :
    (fuel n : ℕ) (out : Text) → n < fuel → number_from 0 (digits fuel n out) ≡ number_from n out
unfolding digits number_from
digits_value zero n out h = absurd (omega arith)
digits_value (suc fuel) n out h = elim (Bool-cases (ltb n 10)) [
  | inl small ↦ rw small (ap (λ k. number_from k out) (omega arith))
  | inr large ↦ rw large (
      digits_value fuel (n / 10) ((b'0' + n % 10) ∷ out) (ground arith)
      ∙ ap (λ k. number_from k out) (omega arith))
]

pub number-to_string : (n : ℕ) → number (to_string n) ≡ n
unfolding number to_string
number-to_string n = digits_value (suc n) n [] (omega arith)

digits-all_digits :
    (fuel n : ℕ) (out : Text)
    → n < fuel
    → all_digits out ≡ true
    → all_digits (digits fuel n out) ≡ true
unfolding digits all_digits
digits-all_digits zero n out h a = a
digits-all_digits (suc fuel) n out h a = elim (Bool-cases (ltb n 10)) [
  | inl small ↦ rw small (ground arith)
  | inr large ↦
      rw large
        (digits-all_digits fuel (n / 10) ((b'0' + n % 10) ∷ out) (ground arith) (ground arith))
]

pub to_string-all_digits : (n : ℕ) → all_digits (to_string n) ≡ true
unfolding to_string all_digits
to_string-all_digits n = digits-all_digits (suc n) n [] (omega arith) refl

-- A number that is not 0 is printed with no leading zero.
digits_head :
    (fuel n : ℕ) (out : Text)
    → n < fuel
    → 0 < n
    → (c : ℕ) × (rest : Text) × (digits fuel n out ≡ c ∷ rest) × (b'0' < c)
unfolding digits
digits_head zero n out h p = absurd (omega arith)
digits_head (suc fuel) n out h p = elim (Bool-cases (ltb n 10)) [
  | inl small ↦ (b'0' + n, out, rw small, omega arith)
  | inr large ↦
      rw large (digits_head fuel (n / 10) ((b'0' + n % 10) ∷ out) (ground arith) (ground arith))
]

pub to_string_head :
    (n : ℕ) → 0 < n → (c : ℕ) × (rest : Text) × (to_string n ≡ c ∷ rest) × (b'0' < c)
unfolding to_string
to_string_head n p = digits_head (suc n) n [] (omega arith) p

pub number_from-zeros : (k : ℕ) (s : Text) → number_from 0 (replicate k b'0' ++ s) ≡ number_from 0 s
unfolding number_from
number_from-zeros zero s = refl
number_from-zeros (suc k) s = number_from-zeros k s

pub all_digits-append :
    (s t : Text) → all_digits s ≡ true → all_digits t ≡ true → all_digits (s ++ t) ≡ true
unfolding all_digits
all_digits-append [] t h k = k
all_digits-append (c ∷ s) t h k = ground (arith, all_digits-append s t)

pub all_digits-zeros : (k : ℕ) → all_digits (replicate k b'0') ≡ true
unfolding all_digits
all_digits-zeros zero = refl
all_digits-zeros (suc k) = all_digits-zeros k

pub all_digits-take : (k : ℕ) (s : Text) → all_digits s ≡ true → all_digits (take k s) ≡ true
unfolding all_digits
all_digits-take zero s h = refl
all_digits-take (suc k) [] h = refl
all_digits-take (suc k) (c ∷ s) h = ground (arith, all_digits-take k s)

pub all_digits-drop : (k : ℕ) (s : Text) → all_digits s ≡ true → all_digits (drop k s) ≡ true
unfolding all_digits
all_digits-drop zero s h = h
all_digits-drop (suc k) [] h = refl
all_digits-drop (suc k) (c ∷ s) h = all_digits-drop k s (ground arith)

-- Digits hold no dot.
pub split_dot-dot : (w f : Text) → all_digits w ≡ true → split_dot (w ++ b'.' ∷ f) ≡ (w, some f)
unfolding split_dot all_digits
split_dot-dot [] f h = refl
split_dot-dot (c ∷ w) f h = ground (arith, split_dot-dot w f)

pub split_dot-digits : (w : Text) → all_digits w ≡ true → split_dot w ≡ (w, none)
unfolding split_dot all_digits
split_dot-digits [] h = refl
split_dot-digits (c ∷ w) h = ground (arith, split_dot-digits w)

pub is_whole-cons :
    (c : ℕ) (s : Text) → b'0' < c → all_digits (c ∷ s) ≡ true → is_whole (c ∷ s) ≡ true
unfolding is_whole all_digits
is_whole-cons c [] h a = ground arith
is_whole-cons c (d ∷ s) h a = ground arith
