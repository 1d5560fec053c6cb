-- ===== src/Web/RollingRate/Tests.antt =====
-- A counter over four frames, one of them before a reset and one that has left the window.
use exaint.Base.{refl, ◌≡◌, ◌*◌, ◌+◌, ◌≤◌, List, [], ◌∷◌, arith, length}
use exaint.Web.RollingRate.{new_rate, hertz, record_frame, prune, expired, reset}
use exaint.Web.RollingRate.Window.{in_window}
use exaint.Web.RollingRate.Rate.{
  RateCall, records, asks, resets, after_calls, since_reset, Rises, rate_lem, room_lem,
}

abbrev calls : List RateCall
calls = records 100 ∷ resets ∷ records 1000 ∷ records 4000 ∷ asks 6000 ∷ records 7000 ∷ []

has_two : (hertz 8000 (after_calls calls new_rate)).0 ≡ record { frames = 2; seconds = 5 }
unfolding hertz after_calls record_frame prune expired reset
has_two = refl

rises : Rises 0 calls 8000
rises = (omega arith, (omega arith, (omega arith, (omega arith, (omega arith, omega arith)))))

rate_lem_example :
    (hertz 8000 (after_calls calls new_rate)).0
    ≡ record { frames = in_window 8000 (since_reset calls []); seconds = 5 }
rate_lem_example = rate_lem calls 8000 rises

room_lem_example :
    length (hertz 8000 (after_calls calls new_rate)).1.received_at
    ≤ 2 * in_window 8000 (since_reset calls []) + 64
room_lem_example = room_lem calls 8000 rises
