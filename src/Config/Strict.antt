-- ===== src/Config/Strict.antt =====
-- env.ts: `readInteger` takes more texts than its error message says.
use exaint.Base.{
  ℕ, ◌+◌, ◌-◌, ◌*◌, ◌≡◌, refl, sym, ◌∙◌, String, true, false, Option, some, [], ◌∷◌, ◌++◌, ◌==◌, ok,
  arith, Bool-cases, inl, inr, ap,
}
use text.Mathlib.TextEquality.{eq_iff}
use exaint.Base.Int.{pos}
use exaint.Protocol.Decimal.{Text, is_digit, all_digits, number, number_from}
use exaint.Config.{Bounds, is_blank, read_integer}
use exaint.Config.Loaded.{Within}
use exaint.Config.Numbers.{codes, is_space, skip_space, int_prefix, signed, parse_signed, parse_int}

-- The text does not go on with a digit.
abbrev pub NoDigit : Text → Type 0
NoDigit [] = Unit
NoDigit (c ∷ cs) = is_digit c ≡ false

int_prefix-stop : (seen : Option ℕ) (rest : Text) → NoDigit rest → int_prefix seen rest ≡ seen
unfolding int_prefix
int_prefix-stop seen [] h = refl
int_prefix-stop seen (c ∷ cs) h = rw h refl

int_prefix-digits :
    (acc : ℕ) (ds rest : Text)
    → all_digits ds ≡ true
    → NoDigit rest
    → int_prefix (some acc) (ds ++ rest) ≡ some (number_from acc ds)
unfolding int_prefix all_digits number_from
int_prefix-digits acc [] rest a h = int_prefix-stop (some acc) rest h
int_prefix-digits acc (d ∷ ds) rest a h =
    let here : is_digit d ≡ true = ground arith in
    let later : all_digits ds ≡ true = ground arith in
    rw here (int_prefix-digits (acc * 10 + (d - b'0')) ds rest later h)

digit_no_space : (c : ℕ) → is_digit c ≡ true → is_space c ≡ false
unfolding is_space
digit_no_space c h = ground arith

parse_signed-digits :
    (d : ℕ) (ds rest : Text)
    → all_digits (d ∷ ds) ≡ true
    → NoDigit rest
    → parse_signed (skip_space (d ∷ (ds ++ rest))) ≡ some (pos (number (d ∷ ds)))
unfolding parse_signed skip_space all_digits number number_from int_prefix
parse_signed-digits d ds rest a h =
    let here : is_digit d ≡ true = ground arith in
    let later : all_digits ds ≡ true = ground arith in
    let no_minus : (d == b'-') ≡ false = ground arith in
    let no_plus : (d == b'+') ≡ false = ground arith in
    let spelt = int_prefix-digits (0 * 10 + (d - b'0')) ds rest later h in
    rw (digit_no_space d here, parse_signed, no_minus, no_plus, int_prefix, here)
      (ap (λ o. signed o false) spelt)

not_blank : (raw : String) (c : ℕ) (cs : Text) → codes raw ≡ c ∷ cs → is_blank raw ≡ false
not_blank raw c cs h = elim (Bool-cases (is_blank raw)) [
  | inl blank ↦ absurd (cc (sym h ∙ ap codes ((eq_iff raw "").0 blank)))
  | inr given ↦ given
]

-- A text that starts with the digits of a number within the bounds is read as that number, whatever
-- stands behind the digits: the rest only must not go on with a digit. (The message of the error
-- says that the value must be an integer.)
pub read_integer-prefix :
    (name raw : String) (fallback : ℕ) (bounds : Bounds) (d : ℕ) (ds rest : Text)
    → codes raw ≡ d ∷ (ds ++ rest)
    → all_digits (d ∷ ds) ≡ true
    → NoDigit rest
    → Within bounds (number (d ∷ ds))
    → read_integer name (some raw) fallback bounds ≡ ok (number (d ∷ ds))
unfolding read_integer parse_int
read_integer-prefix name raw fallback bounds d ds rest spelt a h w =
    let given : is_blank raw ≡ false = not_blank raw d (ds ++ rest) spelt in
    let parsed : parse_int raw ≡ some (pos (number (d ∷ ds))) =
      ap (λ cs. parse_signed (skip_space cs)) spelt ∙ parse_signed-digits d ds rest a h in
    rw (given, parsed) (ground arith)
