-- ===== src/Market/Prng.antt =====
-- apps/api/src/market/simulator/prng.ts. A generator is its 64-bit state. A loop of draws has fuel.
pub mod Bounds
pub mod Sampling
use Prim.Native.Nat.{bit_xor}
use exaint.Base.{
  ℕ, zero, suc, ◌+◌, ◌-◌, ◌*◌, ◌/◌, ◌%◌, ◌^◌, Bool, true, false, List, [], ◌∷◌, Option, none, some,
  Result, ok, err, ltb, ◌==◌, if◌then◌else◌, length, get_elem?,
}
use exaint.Base.Int.{ℤ, pos, negsuc, neg, pos_part, ◌+ℤ◌, ◌-ℤ◌, div_ℤ, ltb_ℤ, leb_ℤ, eqb_ℤ}
use exaint.Market.Steps.{Fault, range_error, out_of_draws, Step, pure, throw, ◌>>=◌}

-- `MASK_64 + 1n`; `& MASK_64` is the remainder by it.
abbrev pub word : ℕ
word = 18446744073709551616

abbrev pub golden_gamma : ℕ
golden_gamma = 0x9e3779b97f4a7c15

unfoldable pub mix_64 : ℕ → ℕ
mix_64 input =
    let a = bit_xor input (input / 1073741824) * 0xbf58476d1ce4e5b9 % word in
    let b = bit_xor a (a / 134217728) * 0x94d049bb133111eb % word in
    bit_xor b (b / 2147483648) % word

-- The value and the next state.
unfoldable pub splitmix_64 : ℕ → ℕ × ℕ
unfolding mix_64
splitmix_64 state = let next = (state + golden_gamma) % word in (mix_64 next, next)

-- Over the bytes of the text in UTF-8.
unfoldable pub fnv_loop : ℕ → List ℕ → ℕ
fnv_loop hash [] = hash
fnv_loop hash (byte ∷ bytes) = fnv_loop (bit_xor hash byte * 0x100000001b3 % word) bytes

unfoldable pub fnv1a_64 : List ℕ → ℕ
fnv1a_64 bytes = fnv_loop 0xcbf29ce484222325 bytes

-- `BigInt.asUintN(64, …)`.
unfoldable pub as_uint_64 : ℤ → ℕ
as_uint_64 (pos n) = n % word
as_uint_64 (negsuc n) = word - 1 - n % word

unfoldable pub derive_symbol_seed : ℤ → List ℕ → ℕ
unfolding splitmix_64 fnv1a_64 as_uint_64
derive_symbol_seed market_seed symbol =
    (splitmix_64 (bit_xor (as_uint_64 market_seed) (fnv1a_64 symbol) % word)).0

abbrev pub Draw : Type 0 → Type 0
Draw A = Step ℕ A

abbrev pub next_uint_64 : Draw ℕ
next_uint_64 state = ok (splitmix_64 state)

-- In parts of 2^53.
abbrev pub next_float : Draw ℕ
next_float = do x ← next_uint_64; pure (x / 2048)

abbrev pub next_boolean : Draw Bool
next_boolean = do x ← next_uint_64; pure (x % 2 == 1)

-- The loop of `nextBigIntBelow`: draws until one is below the limit.
unfoldable pub draw_below : ℕ → ℕ → Draw ℕ
draw_below zero limit state = err out_of_draws
draw_below (suc fuel) limit state =
    let (draw, state') = splitmix_64 state in
    elim (ltb draw limit) [ true ↦ ok (draw, state') | false ↦ draw_below fuel limit state' ]

module _ (fuel : ℕ) where
  unfoldable pub next_big_int_below : ℤ → Draw ℕ
  next_big_int_below bound =
      let b = pos_part bound in
      if leb_ℤ bound (pos 0)
      then throw range_error
      else (draw_below fuel (word / b * b) >>= λ draw. pure (draw % b))

  unfoldable pub next_big_int_between : ℤ → ℤ → Draw ℤ
  next_big_int_between low high =
      if ltb_ℤ high low
      then throw range_error
      else (next_big_int_below (high -ℤ low +ℤ pos 1) >>= λ draw. pure (low +ℤ pos draw))

  unfoldable pub next_int_between : ℕ → ℕ → Draw ℕ
  next_int_between low high =
      next_big_int_between (pos low) (pos high) >>= λ draw. pure (pos_part draw)

  -- Three draws, added.
  unfoldable pub next_bell_between : ℤ → Draw ℤ
  next_bell_between span =
      if ltb_ℤ span (pos 0)
      then throw range_error
      else if eqb_ℤ span (pos 0)
      then pure (pos 0)
      else do
        a ← next_big_int_between (neg span) span
        b ← next_big_int_between (neg span) span
        c ← next_big_int_between (neg span) span
        pure (div_ℤ (pos 0 +ℤ a +ℤ b +ℤ c) 3)

  abbrev or_unreachable : {A : Type 0} → Option A → Draw A
  or_unreachable none = throw range_error
  or_unreachable (some a) = pure a

  unfoldable pub pick : {A : Type 0} → List A → Draw A
  pick [] = throw range_error
  pick (v ∷ vs) = next_int_between 0 (length vs) >>= λ i. or_unreachable (get_elem? (v ∷ vs) i)
