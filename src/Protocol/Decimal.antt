-- ===== src/Protocol/Decimal.antt =====
-- packages/protocol/src/decimal.ts: decimal strings and fixed-point bigints. A text is the list of
-- its code points. `to_string` and `number` are JavaScript's `toString` and `BigInt` on the digits
-- that the code hands them; the two regular expressions are written out as tests.
pub mod Digits
pub mod RoundTrip
pub mod Tests
use exaint.Base.{
  ℕ, zero, suc, ◌+◌, ◌-◌, ◌*◌, ◌/◌, ◌%◌, Bool, true, false, ◌&&◌, not, Option, none, some, List, [],
  ◌∷◌, ◌++◌, ltb, leb, ◌==◌, if◌then◌else◌, or_else, length, take, drop, replicate, Result, ok, err,
}
use exaint.Base.Int.{ℤ, pos, neg, ltb_ℤ, pos_part, neg_part}

abbrev pub Text : Type 0
Text = List ℕ

pub data DecimalError : Type 0 where
  bad_scale not_plain too_precise not_unsigned : DecimalError

abbrev pub price_scale : ℕ
price_scale = 4

abbrev pub quantity_scale : ℕ
quantity_scale = 8

-- The digits of `n` in front of `out`; one round for each digit, so `n + 1` rounds are enough.
unfoldable pub digits : ℕ → ℕ → Text → Text
digits zero n out = out
digits (suc fuel) n out =
    let rest = digits fuel (n / 10) ((b'0' + n % 10) ∷ out) in
    if ltb n 10 then (b'0' + n) ∷ out else rest

unfoldable pub to_string : ℕ → Text
unfolding digits
to_string n = digits (suc n) n []

unfoldable pub number_from : ℕ → Text → ℕ
number_from acc [] = acc
number_from acc (c ∷ s) = number_from (acc * 10 + (c - b'0')) s

unfoldable pub number : Text → ℕ
unfolding number_from
number s = number_from 0 s

abbrev pub is_digit : ℕ → Bool
is_digit c = leb b'0' c && leb c b'9'

unfoldable pub all_digits : Text → Bool
all_digits [] = true
all_digits (c ∷ s) = is_digit c && all_digits s

-- `(?:0|[1-9]\d*)`.
unfoldable pub is_whole : Text → Bool
unfolding all_digits
is_whole [] = false
is_whole (c ∷ []) = is_digit c
is_whole (c ∷ d ∷ s) = is_digit c && not (c == b'0') && all_digits (d ∷ s)

-- What stands before the first dot, and what behind it.
unfoldable pub split_dot : Text → Text × Option Text
split_dot [] = ([], none)
split_dot (c ∷ s) = let (w, f) = split_dot s in if c == b'.' then ([], some s) else (c ∷ w, f)

-- `(?:\.\d+)?`.
unfoldable pub is_fraction : Option Text → Bool
unfolding all_digits
is_fraction none = true
is_fraction (some []) = false
is_fraction (some (c ∷ s)) = all_digits (c ∷ s)

unfoldable pub starts_with_minus : Text → Bool
starts_with_minus [] = false
starts_with_minus (c ∷ s) = c == b'-'

unfoldable pub unsigned : Text → Text
unfolding starts_with_minus
unsigned s = if starts_with_minus s then drop 1 s else s

-- `DECIMAL_PATTERN`.
unfoldable pub is_decimal : Text → Bool
is_decimal s = let (w, f) = split_dot (unsigned s) in is_whole w && is_fraction f

unfoldable pub pad_start : Text → ℕ → Text
pad_start s n = replicate (n - length s) b'0' ++ s

unfoldable pub pad_end : Text → ℕ → Text
pad_end s n = s ++ replicate (n - length s) b'0'

-- `negative ? -magnitude : magnitude`.
abbrev pub signed : Bool → ℕ → ℤ
signed negative magnitude = if negative then neg (pos magnitude) else pos magnitude

unfoldable pub parse_parts : Bool → Text → Text → ℕ → Result DecimalError ℤ
parse_parts negative whole fraction scale =
    if ltb scale (length fraction)
    then err too_precise
    else ok (signed negative (number (whole ++ pad_end fraction scale)))

unfoldable pub parse_decimal : Text → ℕ → Result DecimalError ℤ
parse_decimal value scale =
    if ltb 18 scale
    then err bad_scale
    else if not (is_decimal value)
    then err not_plain
    else let (whole, fraction) = split_dot (unsigned value) in
      parse_parts (starts_with_minus value) whole (or_else fraction []) scale

abbrev pub magnitude : ℤ → ℕ
magnitude v = pos_part v + neg_part v

abbrev pub sign : ℤ → Text
sign v = if ltb_ℤ v (pos 0) then b'-' ∷ [] else []

abbrev pub with_dot : Text → ℕ → Text
with_dot s scale = take (length s - scale) s ++ b'.' ∷ drop (length s - scale) s

-- `formatDecimal` behind its check of the scale.
unfoldable pub format_scaled : ℤ → ℕ → Text
format_scaled value scale =
    if scale == 0
    then sign value ++ to_string (magnitude value)
    else sign value ++ with_dot (pad_start (to_string (magnitude value)) (scale + 1)) scale

unfoldable pub format_decimal : ℤ → ℕ → Result DecimalError Text
format_decimal value scale = if ltb 18 scale then err bad_scale else ok (format_scaled value scale)

-- The two scales in use pass the check.
abbrev pub format_price : ℤ → Text
format_price value = format_scaled value price_scale

abbrev pub format_quantity : ℤ → Text
format_quantity value = format_scaled value quantity_scale

unfoldable pub parse_identifier : Text → Result DecimalError ℕ
unfolding is_whole number
parse_identifier s = if is_whole s then ok (number s) else err not_unsigned

-- Identifiers are natural numbers here, so the source's test for a negative one never fires.
abbrev pub format_identifier : ℕ → Text
format_identifier = to_string

-- What the client reads has passed the schemas, whose patterns are the parsers' own, so that no
-- parser throws there; the value for a text that is refused is never used.
unfoldable pub parsed_price : Text → ℤ
parsed_price s = elim (parse_decimal s price_scale) [ ok v ↦ v | err e ↦ pos 0 ]

unfoldable pub parsed_quantity : Text → ℤ
parsed_quantity s = elim (parse_decimal s quantity_scale) [ ok v ↦ v | err e ↦ pos 0 ]

unfoldable pub parsed_identifier : Text → ℕ
parsed_identifier s = elim (parse_identifier s) [ ok n ↦ n | err e ↦ 0 ]
