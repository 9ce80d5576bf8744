-- ===== src/Stepper/Frames.antt =====
-- timeline.cpp: what a frame of a Stepper runs.
use gef_engine.Prelude.{
  ℕ, zero, suc, ◌+◌, ◌-◌, ◌<◌, ◌≤◌, ◌≡◌, refl, sym, ap, ap₂, ◌∙◌, inl, inr, true, false, ◌||◌, List,
  [], ◌∷◌, min, arith, leb, ◌==◌, Bool-cases,
}
use gef_engine.Stepper.{Stepper, begin_frame, step, run_steps, frame}

-- `n` numbers from `from + 1` on.
abbrev pub after : ℕ → ℕ → List ℕ
after from zero = []
after from (suc n) = (from + 1) ∷ after (from + 1) n

step_done : (s : Stepper) → (s.budget == 0 || leb s.target s.consumed) ≡ true → step s ≡ (false, s)
unfolding step
step_done s e = rw e

abbrev stepped : Stepper → Stepper
stepped s = record s { budget = s.budget - 1; consumed = s.consumed + 1 }

step_more :
    (s : Stepper) → (s.budget == 0 || leb s.target s.consumed) ≡ false → step s ≡ (true, stepped s)
unfolding step
step_more s e = rw e

run_steps_done : (fuel : ℕ) (s : Stepper) → step s ≡ (false, s) → run_steps (suc fuel) s ≡ ([], s)
unfolding run_steps
run_steps_done fuel s e = ground (arith, e)

run_steps_more :
    (fuel : ℕ) (s t : Stepper)
    → step s ≡ (true, t)
    → run_steps (suc fuel) s ≡ (t.consumed ∷ (run_steps fuel t).0, (run_steps fuel t).1)
unfolding run_steps
run_steps_more fuel s t e = ground (arith, e)

-- What a loop of steps comes to: the ticks that it ran, the stepper behind it, and that it ended by
-- its own test.
abbrev pub Runs : Stepper → List ℕ × Stepper → Type 0
Runs s r =
    let n = min s.budget (s.target - s.consumed) in
    (r.0 ≡ after s.consumed n)
    × (r.1 ≡ record s { budget = s.budget - n; consumed = s.consumed + n })
    × ((step r.1).0 ≡ false)

Runs-step :
    (s : Stepper) (r : List ℕ × Stepper)
    → 0 < s.budget
    → s.consumed < s.target
    → Runs (stepped s) r
    → Runs s ((s.consumed + 1) ∷ r.0, r.1)
Runs-step s r b t h =
    let n = min (s.budget - 1) (s.target - (s.consumed + 1)) in
    let one_more : min s.budget (s.target - s.consumed) ≡ suc n = omega arith in
    let left : s.budget - 1 - n ≡ s.budget - suc n = omega arith in
    let reached : s.consumed + 1 + n ≡ s.consumed + suc n = omega arith in
    rw one_more (
      ap (◌∷◌ (s.consumed + 1)) h.0,
      h.1 ∙ ap₂ (λ x y. record s { budget = x; consumed = y }) left reached,
      h.2,
    )

-- The loop ends by its test, within one round more than the budget, and has run every tick up to the
-- target or the budget.
pub run_steps-Runs :
    (fuel : ℕ) (s : Stepper) → s.budget < fuel → s.consumed ≤ s.target → Runs s (run_steps fuel s)
run_steps-Runs zero s h le = absurd (omega arith)
run_steps-Runs (suc fuel) s h le = elim (Bool-cases (s.budget == 0 || leb s.target s.consumed)) [
  | inl done ↦
      let none_left : min s.budget (s.target - s.consumed) ≡ 0 = ground arith in
      let same : s.budget - 0 ≡ s.budget = omega arith in
      let there : s.consumed + 0 ≡ s.consumed = omega arith in
      rw (run_steps_done fuel s (step_done s done), none_left)
        (
          refl,
          sym (ap₂ (λ x y. record s { budget = x; consumed = y }) same there),
          ap (λ p. p.0) (step_done s done),
        )
  | inr more ↦ rw (run_steps_more fuel s (stepped s) (step_more s more)) (
      Runs-step s (run_steps fuel (stepped s)) (ground arith) (ground arith)
        (run_steps-Runs fuel (stepped s) (ground arith) (ground arith)))
]

begin_frame_lem :
    (timeline_now : ℕ) (s : Stepper)
    → begin_frame timeline_now s ≡ record s {
      consumed = s.consumed + (timeline_now - s.consumed - s.max_steps);
      target = timeline_now;
      dropped = s.dropped + (timeline_now - s.consumed - s.max_steps);
      budget = s.max_steps;
    }
unfolding begin_frame
begin_frame_lem timeline_now s = ground arith

-- A frame runs every tick behind the last one consumed up to the timeline's reading, each once and in
-- order, but for the oldest ones beyond the cap, which are counted as dropped.
pub frame_lem :
    (timeline_now : ℕ) (s : Stepper)
    → s.consumed ≤ timeline_now
    → let pending = timeline_now - s.consumed in
      let lost = pending - s.max_steps in
      ((frame timeline_now s).0 ≡ after (s.consumed + lost) (min pending s.max_steps))
      × ((frame timeline_now s).1.consumed ≡ timeline_now)
      × ((frame timeline_now s).1.dropped ≡ s.dropped + lost)
      × ((frame timeline_now s).1.max_steps ≡ s.max_steps)
unfolding frame
frame_lem timeline_now s le =
    let lost = timeline_now - s.consumed - s.max_steps in
    let begun = record s {
      consumed = s.consumed + lost;
      target = timeline_now;
      dropped = s.dropped + lost;
      budget = s.max_steps;
    } in
    let ran = run_steps-Runs (suc s.max_steps) begun (omega arith) (omega arith) in
    let count : min s.max_steps (timeline_now - (s.consumed + lost))
        ≡ min (timeline_now - s.consumed) s.max_steps =
      omega arith in
    rw (begin_frame_lem timeline_now s) (
      ran.0 ∙ ap (after (s.consumed + lost)) count,
      ap (λ (x : Stepper). x.consumed) ran.1 ∙ omega arith,
      ap (λ (x : Stepper). x.dropped) ran.1,
      ap (λ (x : Stepper). x.max_steps) ran.1,
    )
