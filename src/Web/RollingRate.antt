-- ===== src/Web/RollingRate.antt =====
-- model/rolling-rate.ts: class RollingRate. The clock's reading is an argument of each call.
pub mod Rate
pub mod Window
mod Tests
use exaint.Base.{
  ℕ, ◌+◌, ◌-◌, ◌*◌, ◌/◌, suc, Bool, ◌&&◌, List, [], ◌∷◌, ◌++◌, ltb, length, drop, if◌then◌else◌,
}

abbrev pub window_ms : ℕ
window_ms = 5000

pub record RollingRate : Type 0 where
  pub received_at : List ℕ
  pub head : ℕ

-- A number of frames over a number of seconds.
pub record Hertz : Type 0 where
  pub frames : ℕ
  pub seconds : ℕ

abbrev pub new_rate : RollingRate
new_rate = record { received_at = []; head = 0 }

-- A time lies after the cutoff.
abbrev pub is_recent : ℕ → ℕ → Bool
is_recent now received_at = ltb now (received_at + window_ms)

-- How often the loop of `#prune` moves the head, over the times from the head on.
unfoldable pub expired : ℕ → List ℕ → ℕ
expired now [] = 0
expired now (t ∷ rest) = let others = expired now rest in if is_recent now t then 0 else suc others

-- The end of `#prune`: the times before the head are removed when they are the most.
abbrev pub compact : RollingRate → RollingRate
compact r =
    if ltb 64 r.head && ltb (length r.received_at) (r.head * 2)
    then record { received_at = drop r.head r.received_at; head = 0 }
    else r

unfoldable pub prune : ℕ → RollingRate → RollingRate
prune now r = compact (record r { head = r.head + expired now (drop r.head r.received_at) })

unfoldable pub record_frame : ℕ → RollingRate → RollingRate
record_frame now r =
    let pruned = prune now r in record pruned { received_at = pruned.received_at ++ now ∷ [] }

unfoldable pub hertz : ℕ → RollingRate → Hertz × RollingRate
hertz now r =
    let pruned = prune now r in
    (
      record { frames = length pruned.received_at - pruned.head; seconds = window_ms / 1000 },
      pruned,
    )

unfoldable pub reset : RollingRate → RollingRate
reset r = record r { received_at = []; head = 0 }
