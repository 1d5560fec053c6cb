-- ===== src/Market/FixedPoint.antt =====
-- apps/api/src/market/fixed-point.ts. `none` is a thrown RangeError.
pub mod Bounds
use exaint.Base.{ℕ, ◌^◌, Option, none, some, ◌==◌, if◌then◌else◌}
use exaint.Base.Int.{ℤ, pos, neg, rem_ℤ, ◌+ℤ◌, ◌-ℤ◌, ltb_ℤ, eqb_ℤ}

abbrev pub scale_unit : ℕ → ℕ
scale_unit scale = 10 ^ scale

unfoldable pub abs_big_int : ℤ → ℤ
abs_big_int value = if ltb_ℤ value (pos 0) then neg value else value

unfoldable pub min_big_int : ℤ → ℤ → ℤ
min_big_int a b = if ltb_ℤ a b then a else b

unfoldable pub max_big_int : ℤ → ℤ → ℤ
max_big_int a b = if ltb_ℤ b a then a else b

unfoldable pub clamp_big_int : ℤ → ℤ → ℤ → Option ℤ
clamp_big_int value low high =
    if ltb_ℤ high low
    then none
    else some (if ltb_ℤ value low then low else if ltb_ℤ high value then high else value)

-- The tick size is a positive bigint, here a natural number.
unfoldable pub floor_to_tick : ℤ → ℕ → Option ℤ
floor_to_tick price tick_size =
    if tick_size == 0
    then none
    else some (price -ℤ rem_ℤ (rem_ℤ price tick_size +ℤ pos tick_size) tick_size)

unfoldable pub ceil_to_tick : ℤ → ℕ → Option ℤ
ceil_to_tick price tick_size = elim (floor_to_tick price tick_size) [
  | none ↦ none
  | some floored ↦ some (if eqb_ℤ floored price then price else floored +ℤ pos tick_size)
]
