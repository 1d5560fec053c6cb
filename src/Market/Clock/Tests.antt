-- ===== src/Market/Clock/Tests.antt =====
-- A clock whose timer fires late, on a market that lists the timestamps of its ticks.
use exaint.Base.{ℕ, ◌≡◌, none, some, List, [], ◌∷◌, ◌++◌, arith}
use exaint.Market.Clock.{LogicalClock, owed_ticks, run_ticks, pump_all}
use exaint.Market.Clock.CatchUp.{pump_all-run_ticks}

abbrev clock : LogicalClock
clock = record { tick_ms = 100; start_time = 5000; tick = 0 }

abbrev note : ℕ → List ℕ → List ℕ
note timestamp seen = timestamp ∷ seen

pump_all-run_ticks_example :
    pump_all note ((5120, some 4) ∷ (5730, some 2) ∷ [] ++ (6000, none) ∷ []) clock []
    ≡ run_ticks note (owed_ticks 6000 clock) clock []
pump_all-run_ticks_example =
    pump_all-run_ticks note ((5120, some 4) ∷ (5730, some 2) ∷ []) 6000 clock [] (omega arith)
      (omega arith, (omega arith, tt))
