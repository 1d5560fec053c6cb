-- ===== src/Web/Socket/Backoff.antt =====
-- backoff.ts: how long a client waits.
use native.Mathlib.Nat.{mul-le-mul_left}
use exaint.Base.{ℕ, zero, suc, ◌+◌, ◌*◌, ◌≤◌, ◌<◌, arith}
use exaint.Web.Socket.{backoff_base, backoff_delay_ms, random_unit}

steps :
    (attempt : ℕ)
    → (backoff_base attempt ≤ 10000) × (backoff_base attempt ≤ backoff_base (suc attempt))
unfolding backoff_base
steps zero = (omega arith, omega arith)
steps (suc zero) = (omega arith, omega arith)
steps (suc (suc zero)) = (omega arith, omega arith)
steps (suc (suc (suc zero))) = (omega arith, omega arith)
steps (suc (suc (suc (suc zero)))) = (omega arith, omega arith)
steps (suc (suc (suc (suc (suc zero))))) = (omega arith, omega arith)
steps (suc (suc (suc (suc (suc (suc n)))))) = (omega arith, omega arith)

-- For any draw below one the delay is within a fifth of the step, which does not fall with the
-- attempts, and so is at most 12 seconds: the client's own bound of 20 never cuts it.
pub backoff_delay_ms_lem :
    (attempt random : ℕ)
    → random < random_unit
    → let delay = backoff_delay_ms attempt random in
      (backoff_base attempt * 4 ≤ delay * 5 + 5)
      × (delay * 5 ≤ backoff_base attempt * 6 + 5)
      × (delay ≤ 12000)
      × (backoff_base attempt ≤ backoff_base (suc attempt))
unfolding backoff_delay_ms
backoff_delay_ms_lem attempt random h =
    let b = backoff_base attempt in
    let low : 8 * random_unit ≤ 8 * random_unit + 4 * random = omega arith in
    let high : 8 * random_unit + 4 * random ≤ 12 * random_unit = omega (arith, h) in
    let above = mul-le-mul_left b low in
    let below = mul-le-mul_left b high in
    let (top, next) = steps attempt in (omega arith, omega arith, omega arith, next)
