-- ===== src/Protocol/Decimal/RoundTrip.antt =====
-- What is formatted is parsed back.
use exaint.Base.{
  ℕ, zero, suc, ◌+◌, ◌-◌, ◌≤◌, ◌<◌, ◌≡◌, refl, ◌∙◌, ap, subst, Bool, true, false, Option, none,
  some, [], ◌∷◌, ◌++◌, ltb, ◌==◌, if◌then◌else◌, length, length-append, length-replicate,
  length-drop, take, drop, replicate, append-nil, arith, ok, or_else,
}
use exaint.Base.Int.{ℤ, pos, ltb_ℤ}
use exaint.Protocol.Decimal.{
  Text, to_string, number, all_digits, is_digit, is_whole, is_fraction, is_decimal, split_dot,
  pad_start, pad_end, parse_parts, parse_decimal, format_decimal, starts_with_minus, signed, sign,
  magnitude, with_dot, unsigned, parse_identifier, format_identifier, format_scaled, format_price,
  format_quantity, parsed_price, parsed_quantity, parsed_identifier,
}
use exaint.Protocol.Decimal.Digits.{
  number-to_string, to_string-all_digits, to_string_head, number_from-zeros, all_digits-append,
  all_digits-zeros, all_digits-take, all_digits-drop, split_dot-dot, split_dot-digits,
  is_whole-cons,
}

abbrev minus : Bool → Text
minus n = if n then b'-' ∷ [] else []

-- A text of digits is read as unsigned, and behind a minus sign as negative.
unsigned-minus :
    (n : Bool) (c : ℕ) (s : Text)
    → is_digit c ≡ true
    → (starts_with_minus (minus n ++ c ∷ s) ≡ n) × (unsigned (minus n ++ c ∷ s) ≡ c ∷ s)
unfolding starts_with_minus unsigned
unsigned-minus true c s h = (refl, refl)
unsigned-minus false c s h = let e : (c == b'-') ≡ false = ground arith in (e, rw e)

first_digit :
    (w : Text) → is_whole w ≡ true → (c : ℕ) × (s : Text) × (w ≡ c ∷ s) × (is_digit c ≡ true)
unfolding is_whole
first_digit [] h = cc
first_digit (c ∷ []) h = (c, [], refl, h)
first_digit (c ∷ d ∷ s) h = (c, d ∷ s, refl, ground arith)

abbrev text_or_empty : Option Text → Text
text_or_empty f = or_else f []

-- The parser on a text that splits at the dot into `w` and `f`.
parse_split :
    (s : Text) (n : Bool) (w : Text) (f : Option Text) (scale : ℕ)
    → scale ≤ 18
    → starts_with_minus s ≡ n
    → split_dot (unsigned s) ≡ (w, f)
    → is_whole w ≡ true
    → is_fraction f ≡ true
    → parse_decimal s scale ≡ parse_parts n w (text_or_empty f) scale
unfolding parse_decimal is_decimal
parse_split s n w f scale h m e hw hf =
    let small : ltb 18 scale ≡ false = ground arith in rw (small, e, hw, hf, m)

-- The parser on a text of the shape that the formatter writes.
parse_shape :
    (n : Bool) (w tail : Text) (f : Option Text) (scale : ℕ)
    → scale ≤ 18
    → is_whole w ≡ true
    → split_dot (w ++ tail) ≡ (w, f)
    → is_fraction f ≡ true
    → parse_decimal (minus n ++ (w ++ tail)) scale ≡ parse_parts n w (text_or_empty f) scale
parse_shape n w tail f scale h hw es hf =
    let (c, s, ew, hc) = first_digit w hw in
    let e : w ++ tail ≡ c ∷ (s ++ tail) = ap (λ (x : Text). x ++ tail) ew in
    let (m, u) = unsigned-minus n c (s ++ tail) hc in
    parse_split (minus n ++ (w ++ tail)) n w f scale h (rw e m)
      (rw (e, u) (subst (λ (x : Text). split_dot x ≡ (w, f)) e es)) hw hf

take-append-drop : (k : ℕ) (s : Text) → take k s ++ drop k s ≡ s
take-append-drop zero s = refl
take-append-drop (suc k) [] = refl
take-append-drop (suc k) (c ∷ s) = ap (◌∷◌ c) (take-append-drop k s)

pad_end_full : (s : Text) (n : ℕ) → length s ≡ n → pad_end s n ≡ s
unfolding pad_end
pad_end_full s n e = let z : n - length s ≡ 0 = omega arith in rw z (append-nil s)

signed-magnitude : (v : ℤ) → signed (ltb_ℤ v (pos 0)) (magnitude v) ≡ v
signed-magnitude v = ground arith

-- A text of digits that begins like a whole number, cut `scale` digits before its end.
parse-with_dot :
    (n : Bool) (s : Text) (scale : ℕ)
    → scale ≤ 18
    → 0 < scale
    → scale ≤ length s
    → all_digits s ≡ true
    → is_whole (take (length s - scale) s) ≡ true
    → parse_decimal (minus n ++ with_dot s scale) scale ≡ ok (signed n (number s))
unfolding parse_parts is_fraction
parse-with_dot n s scale h p l a w =
    let k = length s - scale in
    let full : length (drop k s) ≡ scale = omega (arith, length-drop k s) in
    parse_shape n (take k s) (b'.' ∷ drop k s) (some (drop k s)) scale h w
      (split_dot-dot (take k s) (drop k s) (all_digits-take k s a))
      (fraction (drop k s) (omega arith) (all_digits-drop k s a))
    ∙ rw (short (drop k s) full, pad_end_full (drop k s) scale full, take-append-drop k s)
  where
    fraction : (f : Text) → 0 < length f → all_digits f ≡ true → is_fraction (some f) ≡ true
    fraction [] q b = absurd (omega arith)
    fraction (c ∷ f) q b = b

    short : (f : Text) → length f ≡ scale → ltb scale (length f) ≡ false
    short f e = ground arith

number-pad_start : (s : Text) (n : ℕ) → number (pad_start s n) ≡ number s
unfolding number pad_start
number-pad_start s n = number_from-zeros (n - length s) s

length-pad_start : (s : Text) (n : ℕ) → n ≤ length (pad_start s n)
unfolding pad_start
length-pad_start s n = omega (
  arith,
  length-append (replicate (n - length s) b'0') s,
  length-replicate {A = ℕ} (n - length s) b'0',
)

pad_start-all_digits : (s : Text) (n : ℕ) → all_digits s ≡ true → all_digits (pad_start s n) ≡ true
unfolding pad_start
pad_start-all_digits s n h =
    all_digits-append (replicate (n - length s) b'0') s (all_digits-zeros (n - length s)) h

to_string_zero : to_string 0 ≡ b'0' ∷ []
unfolding to_string
to_string_zero = refl

-- A number with more digits than `scale` is not 0, and so begins with a digit that is not 0.
long_number :
    (v scale m : ℕ)
    → 0 < scale
    → scale + 1 ≤ length (to_string v)
    → is_whole (take (suc m) (to_string v)) ≡ true
long_number zero scale m p l = absurd (omega (arith, ap length to_string_zero))
long_number (suc v) scale m p l =
    let (c, rest, e, h) = to_string_head (suc v) (omega arith) in
    rw e (
      is_whole-cons c (take m rest) h (
        all_digits-take (suc m) (c ∷ rest)
          (subst (λ (x : Text). all_digits x ≡ true) e (to_string-all_digits (suc v)))))

padded_number :
    (k v scale : ℕ)
    → 0 < scale
    → scale + 1 - length (to_string v) ≡ k
    → let s = replicate k b'0' ++ to_string v in is_whole (take (length s - scale) s) ≡ true
unfolding is_whole
padded_number zero v scale p e =
    let m = length (to_string v) - scale - 1 in
    let n : length (to_string v) - scale ≡ suc m = omega arith in
    rw n (long_number v scale m p (omega arith))
padded_number (suc j) v scale p e =
    let s = replicate j b'0' ++ to_string v in
    let n : suc (length s) - scale ≡ 1 =
      omega
        (arith, length-append (replicate j b'0') (to_string v), length-replicate {A = ℕ} j b'0') in
    rw n refl

-- What the formatter puts before the dot is a whole number with no leading zero.
whole_part :
    (v scale : ℕ)
    → 0 < scale
    → let s = pad_start (to_string v) (scale + 1) in is_whole (take (length s - scale) s) ≡ true
unfolding pad_start
whole_part v scale p = padded_number (scale + 1 - length (to_string v)) v scale p refl

to_string-is_whole : (v : ℕ) → is_whole (to_string v) ≡ true
unfolding is_whole
to_string-is_whole zero = rw to_string_zero
to_string-is_whole (suc v) =
    let (c, rest, e, h) = to_string_head (suc v) (omega arith) in
    rw e (
      is_whole-cons c rest h
        (subst (λ (x : Text). all_digits x ≡ true) e (to_string-all_digits (suc v))))

-- What `formatIdentifier` prints of a number, `parseIdentifier` reads back.
pub parse-format_identifier : (n : ℕ) → parse_identifier (format_identifier n) ≡ ok n
unfolding parse_identifier
parse-format_identifier n = rw (to_string-is_whole n, number-to_string n)

-- At scale 0 there is no dot.
parse-format_zero : (v : ℤ) → parse_decimal (sign v ++ to_string (magnitude v)) 0 ≡ ok v
unfolding parse_parts is_fraction
parse-format_zero v =
    let s = to_string (magnitude v) in
    rw (← append-nil s) (
      parse_shape (ltb_ℤ v (pos 0)) s [] none 0 (omega arith) (to_string-is_whole (magnitude v))
        (rw append-nil (split_dot-digits s (to_string-all_digits (magnitude v)))) refl
      ∙ rw (pad_end_full [] 0 refl, append-nil s, number-to_string (magnitude v))
          (ap ok (signed-magnitude v)))

parse-format_scaled :
    (v : ℤ) (scale : ℕ)
    → scale ≤ 18
    → 0 < scale
    → parse_decimal
        (sign v ++ with_dot (pad_start (to_string (magnitude v)) (scale + 1)) scale)
        scale
      ≡ ok v
parse-format_scaled v scale h p =
    let s = to_string (magnitude v) in
    parse-with_dot (ltb_ℤ v (pos 0)) (pad_start s (scale + 1)) scale h p
      (omega (arith, length-pad_start s (scale + 1)))
      (pad_start-all_digits s (scale + 1) (to_string-all_digits (magnitude v)))
      (whole_part (magnitude v) scale p)
    ∙ rw (number-pad_start s (scale + 1), number-to_string (magnitude v))
        (ap ok (signed-magnitude v))

pub parse-format_scaled_any :
    (v : ℤ) (scale : ℕ) → scale ≤ 18 → parse_decimal (format_scaled v scale) scale ≡ ok v
unfolding format_scaled
parse-format_scaled_any v zero h = parse-format_zero v
parse-format_scaled_any v (suc k) h =
    let large : (suc k == 0) ≡ false = ground arith in
    rw large (parse-format_scaled v (suc k) h (omega arith))

-- What `formatDecimal` prints of any bigint, at every scale that the code accepts, `parseDecimal`
-- reads back at that scale.
pub parse-format :
    (v : ℤ) (scale : ℕ)
    → scale ≤ 18
    → (s : Text) × (format_decimal v scale ≡ ok s) × (parse_decimal s scale ≡ ok v)
unfolding format_decimal
parse-format v scale h =
    let small : ltb 18 scale ≡ false = ground arith in
    (format_scaled v scale, rw small, parse-format_scaled_any v scale h)

pub parsed-format_price : (v : ℤ) → parsed_price (format_price v) ≡ v
unfolding parsed_price
parsed-format_price v = rw (parse-format_scaled_any v 4 (omega arith), parsed_price)

pub parsed-format_quantity : (v : ℤ) → parsed_quantity (format_quantity v) ≡ v
unfolding parsed_quantity
parsed-format_quantity v = rw (parse-format_scaled_any v 8 (omega arith), parsed_quantity)

pub parsed-format_identifier : (n : ℕ) → parsed_identifier (format_identifier n) ≡ n
unfolding parsed_identifier
parsed-format_identifier n = rw (parse-format_identifier n, parsed_identifier)

-- The delete sentinel.
pub parsed-zero : parsed_quantity (b'0' ∷ []) ≡ pos 0
unfolding parsed_quantity parse_decimal is_decimal is_whole split_dot unsigned is_fraction
    parse_parts number pad_end
parsed-zero = refl
