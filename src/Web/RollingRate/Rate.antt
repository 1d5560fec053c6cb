-- ===== src/Web/RollingRate/Rate.antt =====
-- rolling-rate.ts: any calls of a counter, at the readings of a clock that never goes back.
use exaint.Base.{
  ℕ, ◌+◌, ◌*◌, ◌≤◌, ◌≡◌, refl, sym, ◌∙◌, ap, List, [], ◌∷◌, ◌++◌, length, arith, length-drop,
}
use exaint.Web.RollingRate.{RollingRate, Hertz, new_rate, prune, record_frame, hertz, reset}
use exaint.Web.RollingRate.Window.{in_window, Holds, Pruned, prune-Pruned, record_frame-Holds}

pub data RateCall : Type 0 where
  records asks : ℕ → RateCall
  resets : RateCall

unfoldable pub after_calls : List RateCall → RollingRate → RollingRate
after_calls [] r = r
after_calls (records now ∷ cs) r = after_calls cs (record_frame now r)
after_calls (asks now ∷ cs) r = after_calls cs (hertz now r).1
after_calls (resets ∷ cs) r = after_calls cs (reset r)

-- The frames since the last reset, after those of `ts`.
unfoldable pub since_reset : List RateCall → List ℕ → List ℕ
since_reset [] ts = ts
since_reset (records now ∷ cs) ts = since_reset cs (ts ++ now ∷ [])
since_reset (asks now ∷ cs) ts = since_reset cs ts
since_reset (resets ∷ cs) ts = since_reset cs []

-- The times of the calls do not fall, from `last` to `now`.
abbrev pub Rises : ℕ → List RateCall → ℕ → Type 0
Rises last [] now = last ≤ now
Rises last (records t ∷ cs) now = last ≤ t × Rises t cs now
Rises last (asks t ∷ cs) now = last ≤ t × Rises t cs now
Rises last (resets ∷ cs) now = Rises last cs now

reset-Holds : (now : ℕ) (r : RollingRate) → Holds [] now (reset r)
unfolding reset
reset-Holds now r = record {
  fits = omega arith;
  counts = λ later le. refl;
  ascends = tt;
  past = tt;
  room = omega arith;
}

calls-Pruned :
    (cs : List RateCall) (last now : ℕ) (ts : List ℕ) (r : RollingRate)
    → Rises last cs now
    → Holds ts last r
    → Pruned (since_reset cs ts) now (prune now (after_calls cs r))
unfolding since_reset after_calls hertz
calls-Pruned [] last now ts r le h = prune-Pruned ts last now r le h
calls-Pruned (records t ∷ cs) last now ts r (le, rise) h =
    calls-Pruned cs t now (ts ++ t ∷ []) (record_frame t r) rise
      (record_frame-Holds ts last t r le h).holds
calls-Pruned (asks t ∷ cs) last now ts r (le, rise) h =
    calls-Pruned cs t now ts (prune t r) rise (prune-Pruned ts last t r le h).holds
calls-Pruned (resets ∷ cs) last now ts r rise h =
    calls-Pruned cs last now [] (reset r) rise (reset-Holds last r)

at_call :
    (cs : List RateCall) (now : ℕ)
    → Rises 0 cs now
    → Pruned (since_reset cs []) now (prune now (after_calls cs new_rate))
at_call cs now rise =
    calls-Pruned cs 0 now [] new_rate rise (unfold reset in reset-Holds 0 new_rate)

-- After any calls at times that do not fall, the rate asked for at a later time is the number of
-- frames recorded since the last reset whose time plus the window lies after that time, over the
-- window's five seconds.
pub rate_lem :
    (cs : List RateCall) (now : ℕ)
    → Rises 0 cs now
    → (hertz now (after_calls cs new_rate)).0
      ≡ record { frames = in_window now (since_reset cs []); seconds = 5 }
unfolding hertz
rate_lem cs now rise =
    let p = at_call cs now rise in
    let r = prune now (after_calls cs new_rate) in
    ap {B = Hertz} (λ (n : ℕ). record { frames = n; seconds = 5 })
      (sym (length-drop r.head r.received_at) ∙ p.exact)

-- After any calls at times that do not fall, and a question at a later time, the counter keeps no
-- more than 64 times beside twice those in the window.
pub room_lem :
    (cs : List RateCall) (now : ℕ)
    → Rises 0 cs now
    → length (hertz now (after_calls cs new_rate)).1.received_at
      ≤ 2 * in_window now (since_reset cs []) + 64
unfolding hertz
room_lem cs now rise = let p = at_call cs now rise in let m = p.holds.room in omega (arith, p.exact)
