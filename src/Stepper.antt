-- ===== src/Stepper.antt =====
-- timeline.cpp: Stepper. The reading of its timeline is an argument.
pub mod Frames
pub mod Tests
use gef_engine.Prelude.{
  ℕ, zero, suc, ◌+◌, ◌-◌, Bool, true, false, ◌||◌, List, [], ◌∷◌, if◌then◌else◌, ltb, leb, ◌==◌,
}

pub record Stepper : Type 0 where
  pub consumed : ℕ
  pub target : ℕ
  pub dropped : ℕ
  pub budget : ℕ
  pub max_steps : ℕ

-- The cap of steps is not negative.
unfoldable pub stepper : ℕ → ℕ → Stepper
stepper timeline_now max_steps_per_frame = record {
  consumed = timeline_now;
  target = timeline_now;
  dropped = 0;
  budget = 0;
  max_steps = max_steps_per_frame;
}

unfoldable pub begin_frame : ℕ → Stepper → Stepper
begin_frame timeline_now s =
    let t = record s { target = timeline_now; budget = s.max_steps } in
    let pending = t.target - t.consumed in
    let lost = pending - t.max_steps in
    if ltb t.max_steps pending
    then record t { consumed = t.consumed + lost; dropped = t.dropped + lost }
    else t

unfoldable pub step : Stepper → Bool × Stepper
step s =
    if s.budget == 0 || leb s.target s.consumed
    then (false, s)
    else (true, record s { budget = s.budget - 1; consumed = s.consumed + 1 })

-- `while(stepper.step()) {... tickIndex() ...}`: the indices of the ticks that run. The fuel is the
-- number of rounds allowed; `budget` rounds and one more are enough.
unfoldable pub run_steps : ℕ → Stepper → List ℕ × Stepper
run_steps zero s = ([], s)
run_steps (suc fuel) s = elim (step s).0 [
  | true ↦ let rest = run_steps fuel (step s).1 in ((step s).1.consumed ∷ rest.0, rest.1)
  | false ↦ ([], (step s).1)
]

-- One frame.
unfoldable pub frame : ℕ → Stepper → List ℕ × Stepper
unfolding begin_frame run_steps step
frame timeline_now s = let begun = begin_frame timeline_now s in run_steps (suc begun.budget) begun
