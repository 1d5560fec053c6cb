-- ===== src/Config/Numbers.antt =====
-- What env.ts uses of JavaScript's language on texts: `Number.parseInt` to the base 10, `BigInt`,
-- `split` at commas and `trim`. A number past the doubles' exact range is kept exact; the bounds that
-- env.ts asks for lie below that range, so that it is refused either way.
use Prim.Native.Char.{code}
use exaint.Base.{
  ℕ, ◌+◌, ◌-◌, ◌*◌, String, Bool, true, false, not, ◌&&◌, ◌||◌, Option, none, some, List, [], ◌∷◌,
  ltb, leb, ◌==◌, if◌then◌else◌, or_else, keep_if, map,
}
use exaint.Base.Int.{ℤ, pos, neg}
use exaint.Protocol.Decimal.{is_digit}
use text.Mathlib.Text.{◌==◌ as same_text}

abbrev pub codes : String → List ℕ
codes String.[] = []
codes (String.◌∷◌ c s) = code c ∷ codes s

-- White space and line ends of the language.
unfoldable pub is_space : ℕ → Bool
is_space c =
    (leb 9 c && leb c 13)
    || c == 32
    || c == 0xa0
    || c == 0x1680
    || (leb 0x2000 c && leb c 0x200a)
    || c == 0x2028
    || c == 0x2029
    || c == 0x202f
    || c == 0x205f
    || c == 0x3000
    || c == 0xfeff

unfoldable pub skip_space : List ℕ → List ℕ
unfolding is_space
skip_space [] = []
skip_space (c ∷ cs) = if is_space c then skip_space cs else c ∷ cs

-- The number that the digits in front spell, behind those that `seen` counts.
unfoldable pub int_prefix : Option ℕ → List ℕ → Option ℕ
int_prefix seen [] = seen
int_prefix seen (c ∷ cs) =
    let rest = int_prefix (some (or_else seen 0 * 10 + (c - b'0'))) cs in
    if is_digit c then rest else seen

abbrev pub signed : Option ℕ → Bool → Option ℤ
signed none minus = none
signed (some n) minus = some (if minus then neg (pos n) else pos n)

unfoldable pub parse_signed : List ℕ → Option ℤ
parse_signed [] = none
parse_signed (c ∷ cs) =
    if c == b'-'
    then signed (int_prefix none cs) true
    else if c == b'+'
    then signed (int_prefix none cs) false
    else signed (int_prefix none (c ∷ cs)) false

-- `Number.parseInt(raw, 10)`; NaN is `none`.
unfoldable pub parse_int : String → Option ℤ
unfolding skip_space int_prefix parse_signed
parse_int raw = parse_signed (skip_space (codes raw))

abbrev pub push_char : String → List String → List String
push_char c [] = c ∷ []
push_char String.[] (s ∷ rest) = s ∷ rest
push_char (String.◌∷◌ c t) (s ∷ rest) = String.◌∷◌ c s ∷ rest

-- `raw.split(',')`.
unfoldable pub split_commas : String → List String
split_commas String.[] = "" ∷ []
split_commas (String.◌∷◌ c s) =
    let rest = split_commas s in
    if code c == b',' then "" ∷ rest else push_char (String.◌∷◌ c "") rest

unfoldable pub trim_start : String → String
unfolding is_space
trim_start String.[] = ""
trim_start (String.◌∷◌ c s) = if is_space (code c) then trim_start s else String.◌∷◌ c s

unfoldable pub trim_end : String → String
unfolding is_space
trim_end String.[] = ""
trim_end (String.◌∷◌ c s) =
    let rest = trim_end s in
    if is_space (code c) && same_text rest "" then "" else String.◌∷◌ c rest

unfoldable pub split_entries : String → List String
unfolding split_commas trim_start trim_end
split_entries raw =
    keep_if (λ entry. not (same_text entry ""))
      (map (λ entry. trim_end (trim_start entry)) (split_commas raw))

-- The value of a digit, past 35 where it is none.
unfoldable pub digit_value : ℕ → ℕ
digit_value c =
    if is_digit c
    then c - b'0'
    else if leb b'a' c && leb c b'z'
    then c - b'a' + 10
    else if leb b'A' c && leb c b'Z'
    then c - b'A' + 10
    else 36

-- All of the text is digits to the base.
unfoldable pub whole_number : ℕ → ℕ → List ℕ → Option ℕ
unfolding digit_value
whole_number base acc [] = some acc
whole_number base acc (c ∷ cs) =
    let rest = whole_number base (base * acc + digit_value c) cs in
    if ltb (digit_value c) base then rest else none

abbrev pub some_digits : ℕ → List ℕ → Option ℕ
some_digits base [] = none
some_digits base (c ∷ cs) = whole_number base 0 (c ∷ cs)

abbrev pub base_of : ℕ → Option ℕ
base_of c =
    if c == b'x' || c == b'X'
    then some 16
    else if c == b'o' || c == b'O'
    then some 8
    else if c == b'b' || c == b'B'
    then some 2
    else none

abbrev pub decimal_of : ℕ → List ℕ → Option ℤ
decimal_of c cs =
    if c == b'-'
    then signed (some_digits 10 cs) true
    else if c == b'+'
    then signed (some_digits 10 cs) false
    else signed (some_digits 10 (c ∷ cs)) false

abbrev pub based : Option ℕ → ℕ → List ℕ → Option ℤ
based none c cs = decimal_of c cs
based (some base) c [] = none
based (some base) c (_ ∷ ds) = signed (some_digits base ds) false

abbrev pub base_behind : ℕ → List ℕ → Option ℕ
base_behind c [] = none
base_behind c (d ∷ ds) = if c == b'0' then base_of d else none

abbrev pub integer_literal : List ℕ → Option ℤ
integer_literal [] = some (pos 0)
integer_literal (c ∷ cs) = based (base_behind c cs) c cs

-- `BigInt(raw)`; `none` is the SyntaxError.
unfoldable pub to_big_int : String → Option ℤ
unfolding whole_number trim_start trim_end
to_big_int raw = integer_literal (codes (trim_end (trim_start raw)))
