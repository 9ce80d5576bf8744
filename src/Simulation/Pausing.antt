-- ===== src/Simulation/Pausing.antt =====
-- src/simulationThread.cpp: what a pause does to the frames of the sim and of a subsystem.
use gef_engine.Prelude.{
  ℕ, zero, suc, ◌<◌, ◌≡◌, sym, ap, subst, ◌∙◌, ◌⊎◌, inl, inr, true, false, List, [], ◌∷◌, ◌++◌,
  some, length, take, All, arith, Bool-cases,
}
use gef_engine.Timeline.{Timeline, now}
use gef_engine.Stepper.{Stepper, stepper, begin_frame, step, run_steps, frame}
use gef_engine.Simulation.Threads.{Look, Ended, finished, run_subsystem, subsystem_frame}

abbrev pub Goes : Look → Type 0
Goes l = (l.time.paused ≡ false) × (l.throws ≡ false)

step_stops : (st : Stepper) → (step st).0 ≡ false → (step st).1 ≡ st
unfolding step
step_stops st e = ground arith

step_goes : (st : Stepper) → (step st).0 ≡ true → suc (step st).1.budget ≡ st.budget
unfolding step
step_goes st e = ground arith

run_more :
    (fuel : ℕ) (st : Stepper)
    → (step st).0 ≡ true
    → run_steps (suc fuel) st
      ≡ ((step st).1.consumed ∷ (run_steps fuel (step st).1).0, (run_steps fuel (step st).1).1)
unfolding run_steps
run_more fuel st e = rw (e, run_steps)

run_less : (fuel : ℕ) (st : Stepper) → (step st).0 ≡ false → run_steps (suc fuel) st ≡ ([], st)
unfolding run_steps
run_less fuel st e =
    rw (e, run_steps) (ap (λ s. let r : List ℕ × Stepper = ([], s) in r) (step_stops st e))

module _ (max_steps : ℕ) where
  -- One round that goes on, by the outcome of the step.
  goes_lem :
      (l : Look) (ls : List Look) (st : Stepper)
      → Goes l
      → (step st).0 ≡ true
      → run_subsystem max_steps (l ∷ ls) st ≡ (
        (step st).1.consumed ∷ (run_subsystem max_steps ls (step st).1).0,
        (run_subsystem max_steps ls (step st).1).1,
        (run_subsystem max_steps ls (step st).1).2,
      )
  unfolding run_subsystem
  goes_lem l ls st g e = rw (g.0, e, g.1)

  rests_lem :
      (l : Look) (ls : List Look) (st : Stepper)
      → Goes l
      → (step st).0 ≡ false
      → run_subsystem max_steps (l ∷ ls) st ≡ ([], st, finished)
  unfolding run_subsystem
  rests_lem l ls st g e =
      rw (g.0, e)
        (ap (λ s. let r : List ℕ × Stepper × Ended = ([], s, finished) in r) (step_stops st e))

  paused_lem :
      (l : Look) (ls : List Look) (st : Stepper)
      → l.time.paused ≡ true
      → run_subsystem max_steps (l ∷ ls) st
        ≡ ([], stepper (now l.reading l.time) max_steps, finished)
  unfolding run_subsystem
  paused_lem l ls st p = simp p

  -- Rounds that go on, then any others of which it is known what they come to.
  pub run_subsystem-append :
      (before rest : List Look) (fuel : ℕ) (st : Stepper)
      → All Goes before
      → st.budget < fuel
      → ((s : Stepper) → (run_subsystem max_steps rest s).0 ≡ [])
      → (run_subsystem max_steps (before ++ rest) st).0 ≡ take (length before) (run_steps fuel st).0
  run_subsystem-append [] rest fuel st g b none_more = none_more st
  run_subsystem-append (l ∷ ls) rest zero st g b none_more = absurd (omega arith)
  run_subsystem-append (l ∷ ls) rest (suc fuel) st g b none_more = elim (Bool-cases (step st).0) [
    | inl more ↦
        let left : (step st).1.budget < fuel = (let e = step_goes st more in omega arith) in
        let ih = run_subsystem-append ls rest fuel (step st).1 g.1 left none_more in
        ap (λ r. r.0) (goes_lem l (ls ++ rest) st g.0 more)
        ∙ (ap (◌∷◌ (step st).1.consumed) ih
            ∙ sym (ap (λ r. take (suc (length ls)) r.0) (run_more fuel st more)))
    | inr less ↦
        ap (λ r. r.0) (rests_lem l (ls ++ rest) st g.0 less)
        ∙ sym (ap (λ r. take (suc (length ls)) r.0) (run_less fuel st less))
  ]

  -- Either the loop has come to the pause, or it had ended before, as the loop of a Stepper does.
  AtPause : Look → List ℕ × Stepper → List ℕ × Stepper × Ended → Type 0
  AtPause l ran out =
      (out.1 ≡ stepper (now l.reading l.time) max_steps) ⊎ (out ≡ (ran.0, ran.1, finished))

  AtPause-more :
      (l : Look) (t : ℕ) (ran : List ℕ × Stepper) (out : List ℕ × Stepper × Ended)
      → AtPause l ran out
      → AtPause l (t ∷ ran.0, ran.1) (t ∷ out.0, out.1, out.2)
  unfolding AtPause
  AtPause-more l t ran out (inl fresh) = inl fresh
  AtPause-more l t ran out (inr done) =
      inr (ap (λ o. let r : List ℕ × Stepper × Ended = (t ∷ o.0, o.1, o.2) in r) done)

  run_subsystem-AtPause :
      (before : List Look) (l : Look) (rest : List Look) (fuel : ℕ) (st : Stepper)
      → All Goes before
      → l.time.paused ≡ true
      → st.budget < fuel
      → AtPause l (run_steps fuel st) (run_subsystem max_steps (before ++ (l ∷ rest)) st)
  unfolding AtPause
  run_subsystem-AtPause [] l rest fuel st g p b = inl (ap (λ r. r.1) (paused_lem l rest st p))
  run_subsystem-AtPause (k ∷ ks) l rest zero st g p b = absurd (omega arith)
  run_subsystem-AtPause (k ∷ ks) l rest (suc fuel) st g p b = elim (Bool-cases (step st).0) [
    | inl more ↦
        let left : (step st).1.budget < fuel = (let e = step_goes st more in omega arith) in
        let ih = run_subsystem-AtPause ks l rest fuel (step st).1 g.1 p left in
        let out = run_subsystem max_steps (ks ++ (l ∷ rest)) (step st).1 in
        subst (AtPause l (run_steps (suc fuel) st))
          (sym (goes_lem k (ks ++ (l ∷ rest)) st g.0 more))
          (subst (λ r. AtPause l r ((step st).1.consumed ∷ out.0, out.1, out.2))
            (sym (run_more fuel st more))
            (AtPause-more l (step st).1.consumed (run_steps fuel (step st).1) out ih))
    | inr less ↦
        subst (AtPause l (run_steps (suc fuel) st))
          (sym (rests_lem k (ks ++ (l ∷ rest)) st g.0 less))
          (inr (
            ap (λ r. let o : List ℕ × Stepper × Ended = (r.0, r.1, finished) in o)
              (sym (run_less fuel st less))))
  ]

  -- A subsystem's frame during which the timeline is paused, found so for the first time after the
  -- rounds `before`: the ticks whose callbacks ran are the first of those that a Stepper gives for
  -- the timeline at the start of the frame, one for each round before the pause, and none runs
  -- afterwards; then either all of them had run, and the stepper is as that frame leaves it, or the
  -- rest is discarded, with a stepper that starts at the timeline's reading in the pause. No
  -- callback throws.
  pub subsystem_frame_paused :
      (created begun : ℕ) (time : Timeline) (before : List Look) (l : Look) (rest : List Look)
      (st : Stepper)
      → All Goes before
      → l.time.paused ≡ true
      → let ran = frame (now begun time) st in
        let out = subsystem_frame max_steps created begun time (before ++ (l ∷ rest)) (some st) in
        (out.0 ≡ take (length before) ran.0)
        × ((out.1 ≡ stepper (now l.reading l.time) max_steps) ⊎ (out ≡ (ran.0, ran.1, finished)))
  unfolding subsystem_frame frame AtPause
  subsystem_frame_paused created begun time before l rest st g p =
      let ready = begin_frame (now begun time) st in
      (
        run_subsystem-append before (l ∷ rest) (suc ready.budget) ready g (omega arith)
            (λ s. ap (λ r. r.0) (paused_lem l rest s p)),
        run_subsystem-AtPause before l rest (suc ready.budget) ready g p (omega arith),
      )
