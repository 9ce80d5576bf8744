-- ===== src/Timeline/Tests.antt =====
-- Runs of a Timeline.
use gef_engine.Prelude.{◌+◌, ◌≤◌, ◌≡◌, refl, false, some, arith}
use gef_engine.Timeline.{Timeline, derived, now, pause, unpause, set_speed_multiplier}
use gef_engine.Timeline.Valid.{IsValid}
use gef_engine.Timeline.Exact.{
  exact_scale, exact_bank, exact_rate, exact_speed, exact_pause, exact_unpause,
}
use gef_engine.Timeline.Changes.{speed, exact_change}
use gef_engine.Timeline.Ranges.{Fits}
use gef_engine.Timeline.Histories.{
  ChangeFits, change, Clocked, run, call, Reach, start, next, IsClocked, now-change,
  Reach-monotonic, unpause-pause,
}

-- Sixty ticks a second on a microsecond clock that started at 100.
abbrev sixty : Timeline
sixty = record {
  source_start = 100;
  banked_ticks = 0;
  remainder = 0;
  rate_num = 3;
  rate_den = 50_000;
  ticks_per_second = 60;
  speed_num = 1;
  speed_den = 1;
  paused = false;
}

derived-sixty : derived 100 1_000_000 60 ≡ sixty
unfolding derived
derived-sixty = refl

sixty-IsValid : IsValid 1_000_000 sixty
sixty-IsValid = omega arith

-- The readings in a pause from 10_100 to 500_000, and 7_000 later.
pause_Fits :
    Fits 10_100 sixty
    × Fits (10_100 + 7_000) sixty
    × Fits 500_000 (exact_pause 10_100 sixty)
    × Fits (500_000 + 7_000) (exact_unpause 500_000 (exact_pause 10_100 sixty))
unfolding exact_scale exact_bank exact_pause exact_unpause
pause_Fits = (omega arith, omega arith, omega arith, omega arith)

unpause-pause_example :
    now (500_000 + 7_000) (unpause 500_000 (pause 10_100 sixty)) ≡ now (10_100 + 7_000) sixty
unpause-pause_example =
    unpause-pause 1_000_000 10_100 500_000 7_000 sixty sixty-IsValid refl (omega arith)
      (omega arith) pause_Fits.0 pause_Fits.1 pause_Fits.2 pause_Fits.3

-- Half speed, in the middle of a tick.
half_Fits : ChangeFits 30_100 1_000_000 (speed (some 500_000)) sixty
unfolding exact_scale exact_bank exact_rate exact_speed exact_change
half_Fits = ((omega arith, omega arith), omega arith, omega arith)

now-change_example :
    now 30_100 (change 30_100 1_000_000 (speed (some 500_000)) sixty) ≡ now 30_100 sixty
now-change_example =
    now-change 30_100 1_000_000 (speed (some 500_000)) sixty (omega arith) (omega arith)
      sixty-IsValid half_Fits

half_speed : (set_speed_multiplier (some 500_000) 30_100 1_000_000 sixty).rate_den ≡ 100_000
unfolding set_speed_multiplier
half_speed = refl

abbrev begun : Clocked
begun = record { source = 100; source_rate = 1_000_000; line = sixty }

begun-IsClocked : IsClocked begun
begun-IsClocked = record {
  rate = omega arith;
  valid = sixty-IsValid;
  started = omega arith;
  fits = unfold exact_scale in omega arith;
}

abbrev slowed : Clocked
slowed = record {
  source = 90_100;
  source_rate = 1_000_000;
  line = change 30_100 1_000_000 (speed (some 500_000)) sixty;
}

start_Fits : Fits 30_100 sixty
unfolding exact_scale
start_Fits = omega arith

slowed_Fits : Fits 90_100 slowed.line
unfolding change exact_scale set_speed_multiplier
slowed_Fits = omega arith

slowed-Reach : Reach begun slowed
slowed-Reach =
    next
      (next (next start (run begun 30_100 (omega arith) start_Fits))
        (call (record begun { source = 30_100 }) (speed (some 500_000)) (omega arith) half_Fits))
      (run _ 90_100 (omega arith) slowed_Fits)

Reach-monotonic_example : IsClocked slowed × (now 100 sixty ≤ now 90_100 slowed.line)
Reach-monotonic_example = Reach-monotonic begun slowed begun-IsClocked slowed-Reach
