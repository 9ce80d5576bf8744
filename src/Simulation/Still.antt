-- ===== src/Simulation/Still.antt =====
-- src/simulationThread.cpp: the sim's frames while the timeline is paused.
use gef_engine.Prelude.{
  ℕ, ◌+◌, ◌-◌, ◌≤◌, ◌≡◌, refl, sym, ap, ◌∙◌, inl, inr, true, List, [], ◌∷◌, none, some, length,
  arith, min,
}
use gef_engine.Timeline.{Timeline, now, pause, bank_at}
use gef_engine.Stepper.{Stepper, frame}
use gef_engine.Stepper.Frames.{after, frame_lem}
use gef_engine.Simulation.{Sim, run_frame, run_tasks, step_frame, finish_frame}
use gef_engine.Simulation.Frames.{ticked, run_frame_lem}

pause_halts :
    (n : ℕ) (t : Timeline) → ((pause n t).paused ≡ true) × ((pause n t).banked_ticks ≡ now n t)
unfolding pause bank_at now
pause_halts n t = ground arith

module _ {S K : Type 0} (on_tick : K → K → ℕ → S → S) (max_steps : ℕ) where
  -- The timeline is paused and the stepper has seen all of its ticks.
  pub record IsStill (sim : Sim S K) : Type 0 where
    pub halted : sim.time.paused ≡ true
    pub seen : Stepper
    pub has_stepper : sim.stepper ≡ some seen
    pub caught_up : seen.consumed ≡ sim.time.banked_ticks

  now_paused : (n : ℕ) (t : Timeline) → t.paused ≡ true → now n t ≡ t.banked_ticks
  unfolding now
  now_paused n t p = ground arith

  -- The timeline behind a frame is what its tasks make of it.
  run_frame-time :
      (created begun : ℕ) (tasks : List (S × Timeline → S × Timeline)) (keyboard : K)
      (sim : Sim S K) (st : Stepper)
      → sim.stepper ≡ some st
      → (run_frame on_tick max_steps created begun tasks (some keyboard) sim).0.time
        ≡ (run_tasks on_tick tasks (sim.scene, sim.time)).1
  unfolding run_frame step_frame finish_frame
  run_frame-time created begun tasks keyboard sim st e = rw (e, run_frame)

  -- A frame with no task.
  quiet_frame :
      (created begun : ℕ) (keyboard : K) (sim : Sim S K)
      → IsStill sim
      → let out = run_frame on_tick max_steps created begun [] (some keyboard) sim in
        (out.2 ≡ 0) × (out.1 ≡ none) × (out.0.scene ≡ sim.scene) × IsStill out.0
  unfolding run_tasks
  quiet_frame created begun keyboard sim s =
      let st = s.seen in
      let reading = now_paused begun sim.time s.halted in
      let ran = frame (now begun sim.time) st in
      let told = run_frame_lem on_tick max_steps created begun [] keyboard sim st s.has_stepper in
      let there : st.consumed ≡ now begun sim.time = s.caught_up ∙ sym reading in
      let framed = frame_lem (now begun sim.time) st (omega (arith, there)) in
      let no_more : min (now begun sim.time - st.consumed) st.max_steps ≡ 0 =
        omega (arith, there) in
      let none_ran : ran.0 ≡ [] =
        framed.0
        ∙ ap (after (st.consumed + (now begun sim.time - st.consumed - st.max_steps))) no_more in
      let time = run_frame-time created begun [] keyboard sim st s.has_stepper in
      (
        told.2 ∙ ap length none_ran,
        elim told.6 [
          | inl quiet ↦ quiet.0
          | inr (shown, number, busy) ↦ elim busy [
            | inl task ↦ absurd (task refl)
            | inr tick ↦ absurd (tick none_ran)
          ]
        ],
        told.0 ∙ ap (λ ts. ticked on_tick keyboard sim.last_tick_keyboard ts sim.scene) none_ran,
        record {
          halted = ap (λ (t : Timeline). t.paused) time ∙ s.halted;
          seen = ran.1;
          has_stepper = told.1;
          caught_up = framed.1 ∙ reading ∙ sym (ap (λ (t : Timeline). t.banked_ticks) time);
        },
      )

  -- The frame in which a posted pause runs.
  pausing_frame :
      (created begun source_now : ℕ) (keyboard : K) (sim : Sim S K) (st : Stepper)
      → sim.stepper ≡ some st
      → st.consumed ≤ now source_now sim.time
      → IsStill
          (run_frame on_tick max_steps created begun
            ((λ w. (w.0, pause source_now w.1)) ∷ [])
            (some keyboard)
            sim).0
  unfolding run_tasks
  pausing_frame created begun source_now keyboard sim st e le =
      let task : S × Timeline → S × Timeline = λ w. (w.0, pause source_now w.1) in
      let stopped = pause source_now sim.time in
      let halt = pause_halts source_now sim.time in
      let reading = now_paused begun stopped halt.0 in
      let told = run_frame_lem on_tick max_steps created begun (task ∷ []) keyboard sim st e in
      let framed = frame_lem (now begun stopped) st (omega (arith, reading, halt.1)) in
      let time = run_frame-time created begun (task ∷ []) keyboard sim st e in
      record {
        halted = ap (λ (t : Timeline). t.paused) time ∙ halt.0;
        seen = (frame (now begun stopped) st).1;
        has_stepper = told.1;
        caught_up = framed.1 ∙ reading ∙ sym (ap (λ (t : Timeline). t.banked_ticks) time);
      }

  -- Frames with no task, each with its readings and its keyboard: the sim behind them and the ticks
  -- that they ran.
  abbrev pub idle_frames : List (ℕ × ℕ × K) → Sim S K → Sim S K × ℕ
  idle_frames [] sim = (sim, 0)
  idle_frames ((created, begun, keyboard) ∷ fs) sim =
      let out = run_frame on_tick max_steps created begun [] (some keyboard) sim in
      let rest = idle_frames fs out.0 in (rest.0, out.2 + rest.1)

  idle_quiet :
      (fs : List (ℕ × ℕ × K)) (sim : Sim S K)
      → IsStill sim
      → ((idle_frames fs sim).1 ≡ 0) × ((idle_frames fs sim).0.scene ≡ sim.scene)
  idle_quiet [] sim s = (refl, refl)
  idle_quiet ((created, begun, keyboard) ∷ fs) sim s =
      let one = quiet_frame created begun keyboard sim s in
      let rest =
        idle_quiet fs (run_frame on_tick max_steps created begun [] (some keyboard) sim).0 one.3 in
      (omega (arith, one.0, rest.0), rest.1 ∙ one.2)

  -- Once a frame has run a posted pause, the frames that follow it run no tick and leave the scene as
  -- that frame left it, however long they take, as long as no task is posted; the stepper is not
  -- ahead of the timeline when the pause runs, and a keyboard is submitted for each frame.
  pub paused_frames :
      (created begun source_now : ℕ) (keyboard : K) (fs : List (ℕ × ℕ × K)) (sim : Sim S K)
      (st : Stepper)
      → sim.stepper ≡ some st
      → st.consumed ≤ now source_now sim.time
      → let out =
          run_frame on_tick max_steps created begun
            ((λ w. (w.0, pause source_now w.1)) ∷ [])
            (some keyboard)
            sim in
        ((idle_frames fs out.0).1 ≡ 0) × ((idle_frames fs out.0).0.scene ≡ out.0.scene)
  paused_frames created begun source_now keyboard fs sim st e le =
      idle_quiet fs _ (pausing_frame created begun source_now keyboard sim st e le)
