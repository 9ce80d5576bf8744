-- ===== src/Simulation/Frames.antt =====
-- src/simulationThread.cpp: what a frame does.
use gef_engine.Prelude.{
  ℕ, zero, suc, ◌+◌, ◌≡◌, ◌≢◌, ◌%◌, ◌^◌, refl, sym, ap, ap₂, ◌⊎◌, ◌∙◌, inl, inr, true, false, List,
  [], ◌∷◌, none, some, length, arith, ◌||◌, Bool-cases,
}
use gef_engine.Timeline.{Timeline, now}
use gef_engine.Stepper.{Stepper, begin_frame, step, run_steps, frame}
use gef_engine.Simulation.{
  Sim, RenderFrame, run_ticks, run_tasks, any_task, finish_frame, step_frame, run_frame,
}

module _ {S K : Type 0} (on_tick : K → K → ℕ → S → S) where
  -- The scene behind ticks: the first sees the keyboard of the tick before as the previous one, all
  -- others the frame's own.
  abbrev pub ticked : K → K → List ℕ → S → S
  ticked keyboard last [] scene = scene
  ticked keyboard last (t ∷ ts) scene = ticked keyboard keyboard ts (on_tick keyboard last t scene)

  abbrev pub last_seen : K → K → List ℕ → K
  last_seen keyboard last [] = last
  last_seen keyboard last (t ∷ ts) = keyboard

  last_seen_same : (keyboard : K) (ts : List ℕ) → last_seen keyboard keyboard ts ≡ keyboard
  last_seen_same keyboard [] = refl
  last_seen_same keyboard (t ∷ ts) = refl

  run_ticks_more :
      (fuel : ℕ) (keyboard : K) (st : Stepper) (scene : S) (last : K) (steps : ℕ)
      → (step st).0 ≡ true
      → run_ticks on_tick (suc fuel) keyboard st scene last steps
        ≡ run_ticks on_tick fuel keyboard
            (step st).1
            (on_tick keyboard last (step st).1.consumed scene)
            keyboard
            (steps + 1)
  unfolding run_ticks
  run_ticks_more fuel keyboard st scene last steps more = rw (more, run_ticks)

  run_steps_more :
      (fuel : ℕ) (st : Stepper)
      → (step st).0 ≡ true
      → run_steps (suc fuel) st
        ≡ ((step st).1.consumed ∷ (run_steps fuel (step st).1).0, (run_steps fuel (step st).1).1)
  unfolding run_steps
  run_steps_more fuel st more = rw (more, run_steps)

  run_ticks_lem :
      (fuel : ℕ) (keyboard : K) (st : Stepper) (scene : S) (last : K) (steps : ℕ)
      → let r = run_steps fuel st in
        run_ticks on_tick fuel keyboard st scene last steps
        ≡ (r.1, ticked keyboard last r.0 scene, last_seen keyboard last r.0, steps + length r.0)
  unfolding run_ticks run_steps
  run_ticks_lem zero keyboard st scene last steps =
      ap (λ n. let r : Stepper × S × K × ℕ = (st, scene, last, n) in r)
        (let e : steps ≡ steps + 0 = omega arith in e)
  run_ticks_lem (suc fuel) keyboard st scene last steps = elim (Bool-cases (step st).0) [
    | inl more ↦
        let t = (step st).1 in
        let joined : K → ℕ → Stepper × S × K × ℕ = λ k n. (
          (run_steps fuel t).1,
          ticked keyboard keyboard (run_steps fuel t).0 (on_tick keyboard last t.consumed scene),
          k,
          n,
        ) in
        let rest =
          run_ticks_lem fuel keyboard t (on_tick keyboard last t.consumed scene) keyboard
            (steps + 1) in
        let ran = run_steps fuel t in
        let final : List ℕ × Stepper → Stepper × S × K × ℕ = λ r.
          (r.1, ticked keyboard last r.0 scene, last_seen keyboard last r.0, steps + length r.0) in
        run_ticks_more fuel keyboard st scene last steps more
        ∙ (rest
            ∙ (ap₂ joined (last_seen_same keyboard ran.0)
                  (let e : steps + 1 + length ran.0 ≡ steps + suc (length ran.0) = omega arith in e)
                ∙ sym (ap final (run_steps_more fuel st more))))
    | inr done ↦
        rw (done, run_ticks, run_steps)
          (ap (λ n. let r : Stepper × S × K × ℕ = ((step st).1, scene, last, n) in r)
            (let e : steps ≡ steps + 0 = omega arith in e))
  ]

  abbrev pub frame_of : Timeline → Stepper → S → List ℕ → Sim S K → RenderFrame S
  frame_of time st scene ticks sim = record {
    scene = scene;
    tick = st.consumed;
    paused = time.paused;
    dropped = st.dropped;
    frame = (sim.frames_published + 1) % 2 ^ 64;
    steps_last_frame = length ticks;
  }

  -- The end of a frame, on what its ticks came to.
  finish_frame_lem :
      (tasks : List (S × Timeline → S × Timeline)) (keyboard last : K) (time : Timeline)
      (st : Stepper) (scene : S) (ticks : List ℕ) (sim : Sim S K)
      → let out =
          finish_frame on_tick
            (any_task on_tick tasks || false)
            keyboard
            time
            (st, scene, last, length ticks)
            sim in
        (out.0.scene ≡ scene)
        × (out.0.stepper ≡ some st)
        × (out.2 ≡ length ticks)
        × (out.0.time ≡ time)
        × (out.0.frame_keyboard ≡ keyboard)
        × (out.0.last_tick_keyboard ≡ last)
        × (((out.1 ≡ none)
              × (out.0.frames_published ≡ sim.frames_published)
              × (tasks ≡ [])
              × (ticks ≡ []))
            ⊎ ((out.1 ≡ some (frame_of time st scene ticks sim))
                × (out.0.frames_published ≡ (sim.frames_published + 1) % 2 ^ 64)
                × ((tasks ≢ []) ⊎ (ticks ≢ []))))
  unfolding finish_frame
  finish_frame_lem [] keyboard last time st scene [] sim =
      (refl, refl, refl, refl, refl, refl, inl (refl, refl, refl, refl))
  finish_frame_lem [] keyboard last time st scene (t ∷ ts) sim =
      (refl, refl, refl, refl, refl, refl, inr (ground arith, ground arith, inr (λ e. absurd cc)))
  finish_frame_lem (x ∷ xs) keyboard last time st scene [] sim =
      (refl, refl, refl, refl, refl, refl, inr (ground arith, ground arith, inl (λ e. absurd cc)))
  finish_frame_lem (x ∷ xs) keyboard last time st scene (t ∷ ts) sim =
      (refl, refl, refl, refl, refl, refl, inr (ground arith, ground arith, inr (λ e. absurd cc)))

  -- A frame behind the first for which a new keyboard was submitted: once the posted tasks have run, in order, the scene is stepped through
  -- exactly the ticks that the stepper gives for the timeline's reading, the first of them with the
  -- keyboard of the tick before and the rest with the frame's own as the previous one; the result is
  -- how many; the keyboard of the last tick is kept for the next frame; and a frame is published, with
  -- the scene, the tick, the pause and the losses as they are then and the next number, which is kept,
  -- exactly if a tick or a task ran.
  pub run_frame_lem :
      (max_steps created begun : ℕ) (tasks : List (S × Timeline → S × Timeline)) (keyboard : K)
      (sim : Sim S K) (st : Stepper)
      → sim.stepper ≡ some st
      → let w = run_tasks on_tick tasks (sim.scene, sim.time) in
        let ran = frame (now begun w.1) st in
        let scene = ticked keyboard sim.last_tick_keyboard ran.0 w.0 in
        let out = run_frame on_tick max_steps created begun tasks (some keyboard) sim in
        (out.0.scene ≡ scene)
        × (out.0.stepper ≡ some ran.1)
        × (out.2 ≡ length ran.0)
        × (out.0.time ≡ w.1)
        × (out.0.frame_keyboard ≡ keyboard)
        × (out.0.last_tick_keyboard ≡ last_seen keyboard sim.last_tick_keyboard ran.0)
        × (((out.1 ≡ none)
              × (out.0.frames_published ≡ sim.frames_published)
              × (tasks ≡ [])
              × (ran.0 ≡ []))
            ⊎ ((out.1 ≡ some (frame_of w.1 ran.1 scene ran.0 sim))
                × (out.0.frames_published ≡ (sim.frames_published + 1) % 2 ^ 64)
                × ((tasks ≢ []) ⊎ (ran.0 ≢ []))))
  unfolding run_frame step_frame frame
  run_frame_lem max_steps created begun tasks keyboard sim st e =
      let w = run_tasks on_tick tasks (sim.scene, sim.time) in
      let ready = begin_frame (now begun w.1) st in
      let ran = run_steps (suc ready.budget) ready in
      let last = last_seen keyboard sim.last_tick_keyboard ran.0 in
      let scene = ticked keyboard sim.last_tick_keyboard ran.0 w.0 in
      let ticks = run_ticks_lem (suc ready.budget) keyboard ready w.0 sim.last_tick_keyboard 0 in
      let zero_more : 0 + length ran.0 ≡ length ran.0 = omega arith in
      rw (e, run_frame, ticks, zero_more)
        (finish_frame_lem tasks keyboard last w.1 ran.1 scene ran.0 sim)
