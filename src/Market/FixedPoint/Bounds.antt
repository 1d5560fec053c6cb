-- ===== src/Market/FixedPoint/Bounds.antt =====
-- fixed-point.ts: where the results lie.
use exaint.Base.{
  ℕ, ◌+◌, ◌*◌, ◌/◌, ◌%◌, ◌<◌, ◌≡◌, refl, ◌∙◌, ap, false, some, arith, if◌then◌else◌, ◌==◌,
}
use exaint.Base.Int.{ℤ, pos, rem_ℤ, ◌+ℤ◌, ◌-ℤ◌, ◌≤ℤ◌, ltb_ℤ}
use native.Mathlib.Nat.{mod-lt, mod-add-div', add-mod_right, mod-eq_of_lt}
use exaint.Market.FixedPoint.{clamp_big_int, floor_to_tick}

-- A clamped value is in the range, and it is the value itself where that is in the range.
pub clamp_big_int_lem :
    (value low high : ℤ)
    → low ≤ℤ high
    → (c : ℤ) × (clamp_big_int value low high ≡ some c)
      × (low ≤ℤ c)
      × (c ≤ℤ high)
      × (low ≤ℤ value → value ≤ℤ high → c ≡ value)
unfolding clamp_big_int
clamp_big_int_lem value low high h =
    let c : ℤ = if ltb_ℤ value low then low else if ltb_ℤ high value then high else value in
    let fits : ltb_ℤ high low ≡ false = ground arith in
    (c, rw fits refl, ground arith, ground arith, ground arith)

-- For prices that are not negative: the multiple of the tick at or below the price.
pub floor_to_tick-pos :
    (price tick_size : ℕ)
    → 0 < tick_size
    → floor_to_tick (pos price) tick_size ≡ some (pos (price / tick_size * tick_size))
unfolding floor_to_tick rem_ℤ ◌+ℤ◌ ◌-ℤ◌
floor_to_tick-pos price n h =
    let some_n : (n == 0) ≡ false = ground arith in
    let m = price % n in
    let same : (m + n) % n ≡ m = add-mod_right m n ∙ mod-eq_of_lt (mod-lt price h) in
    rw some_n (ap some (ground (arith, same, mod-add-div' price n)))
