-- ===== src/Stepper/Tests.antt =====
-- Runs of a Stepper.
use gef_engine.Prelude.{◌≡◌, refl, [], ◌∷◌, arith}
use gef_engine.Stepper.{Stepper, stepper, frame}
use gef_engine.Stepper.Frames.{after, frame_lem}

abbrev at_ten : Stepper
at_ten = record { consumed = 10; target = 10; dropped = 0; budget = 0; max_steps = 3 }

-- Five ticks are due and three may run: 11 and 12 are dropped.
frame_lem_example :
    ((frame 15 at_ten).0 ≡ after 12 3)
    × ((frame 15 at_ten).1.consumed ≡ 15)
    × ((frame 15 at_ten).1.dropped ≡ 2)
    × ((frame 15 at_ten).1.max_steps ≡ 3)
frame_lem_example = frame_lem 15 at_ten (omega arith)

stepper_run : (frame 15 (stepper 13 5)).0 ≡ 14 ∷ 15 ∷ []
unfolding frame stepper
stepper_run = refl
