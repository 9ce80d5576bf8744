-- ===== src/Simulation/Tests.antt =====
-- Runs of a SimulationThread.
use gef_engine.Prelude.{
  ℕ, ◌%◌, ◌^◌, ◌≡◌, ◌≢◌, ◌≤◌, ◌++◌, true, false, take, refl, ◌⊎◌, List, [], ◌∷◌, none, some, length,
  arith,
}
use gef_engine.Timeline.{Timeline, root, now, pause}
use gef_engine.Stepper.{Stepper, stepper, step, frame}
use gef_engine.Simulation.Threads.{Look, finished, subsystem_frame}
use gef_engine.Simulation.Pausing.{Goes, subsystem_frame_paused}
use gef_engine.Simulation.Still.{idle_frames, paused_frames}
use gef_engine.Simulation.{
  ThreadState, not_started, join_all, start, sim_fails, sim_gives_up, sim_ends, subsystem_ends,
  add_subsystem_thread, stop, Sim, run_tasks, run_frame,
}
use gef_engine.Simulation.Lifecycle.{
  IsManaged, add, starts, sim_throws, sim_requests, sim_stops, subsystem_stops, stops, origin, next,
  Reach-IsManaged,
}
use gef_engine.Simulation.Frames.{ticked, last_seen, frame_of, run_frame_lem}

-- One subsystem; the sim fails, the subsystem ends and the owner stops.
abbrev up : ThreadState
up = start (add_subsystem_thread not_started)

abbrev failed_sim : ThreadState
failed_sim = sim_ends (sim_gives_up (sim_fails 4 up))

Reach-IsManaged_example : IsManaged (stop (subsystem_ends failed_sim))
unfolding start add_subsystem_thread not_started sim_ends sim_gives_up sim_fails join_all
Reach-IsManaged_example = Reach-IsManaged (stop (subsystem_ends failed_sim)) (
    next
      (next
        (next
          (next
            (next (next (next origin (add not_started)) (starts (add_subsystem_thread not_started)))
              (sim_throws up 4 refl refl))
            (sim_requests (sim_fails 4 up) refl))
          (sim_stops (sim_gives_up (sim_fails 4 up)) refl refl refl))
        (subsystem_stops failed_sim (omega arith) refl))
      (stops (subsystem_ends failed_sim)))

-- A scene is the list of the ticks that it saw.
abbrev see : ℕ → ℕ → ℕ → List ℕ → List ℕ
see keyboard previous tick scene = tick ∷ scene

abbrev at_ten : Stepper
at_ten = record { consumed = 10; target = 10; dropped = 0; budget = 0; max_steps = 5 }

abbrev a_sim : Sim (List ℕ) ℕ
a_sim = record {
  scene = [];
  time = root 0 60;
  stepper = some at_ten;
  frame_keyboard = 0;
  last_tick_keyboard = 0;
  frames_published = 3;
}

run_frame_lem_example :
    let ran = frame (now 12 (root 0 60)) at_ten in
    let out = run_frame see 5 0 12 [] (some 1) a_sim in
    (out.0.scene ≡ ticked see 1 0 ran.0 [])
    × (out.0.stepper ≡ some ran.1)
    × (out.2 ≡ length ran.0)
    × (out.0.time ≡ root 0 60)
    × (out.0.frame_keyboard ≡ 1)
    × (out.0.last_tick_keyboard ≡ last_seen see 1 0 ran.0)
    × (((out.1 ≡ none)
          × (out.0.frames_published ≡ 3)
          × (◌≡◌ {A = List (List ℕ × Timeline → List ℕ × Timeline)} [] [])
          × (ran.0 ≡ []))
        ⊎ ((out.1 ≡ some (frame_of see (root 0 60) ran.1 (ticked see 1 0 ran.0 []) ran.0 a_sim))
            × (out.0.frames_published ≡ 4 % 2 ^ 64)
            × ((◌≢◌ {A = List (List ℕ × Timeline → List ℕ × Timeline)} [] []) ⊎ (ran.0 ≢ []))))
unfolding run_tasks
run_frame_lem_example = run_frame_lem see 5 0 12 [] 1 a_sim at_ten refl

abbrev paused_time : Timeline
paused_time = pause 12 (root 0 60)

-- Two looks while it runs, then one in a pause, in a frame with five ticks due.
abbrev running_look : Look
running_look = record { time = root 0 60; reading = 15; throws = false }

abbrev paused_look : Look
paused_look = record { time = paused_time; reading = 15; throws = false }

look-Goes : Goes running_look
unfolding root
look-Goes = (refl, refl)

paused_look_stops : paused_look.time.paused ≡ true
unfolding pause root
paused_look_stops = refl

ten_due : at_ten.consumed ≤ now 13 a_sim.time
unfolding now root
ten_due = omega arith

subsystem_frame_paused_example :
    let ran = frame (now 15 (root 0 60)) at_ten in
    let out =
      subsystem_frame 5 0 15
        (root 0 60)
        ((running_look ∷ running_look ∷ []) ++ (paused_look ∷ []))
        (some at_ten) in
    (out.0 ≡ take 2 ran.0)
    × ((out.1 ≡ stepper (now 15 paused_time) 5) ⊎ (out ≡ (ran.0, ran.1, finished)))
subsystem_frame_paused_example =
    subsystem_frame_paused 5 0 15 (root 0 60) (running_look ∷ running_look ∷ []) paused_look []
      at_ten (look-Goes, (look-Goes, tt)) paused_look_stops

two_ticks :
    (subsystem_frame 5 0 15
      (root 0 60)
      ((running_look ∷ running_look ∷ []) ++ (paused_look ∷ []))
      (some at_ten)).0
    ≡ 11 ∷ 12 ∷ []
unfolding subsystem_frame now root step pause
two_ticks = refl

paused_frames_example :
    let out = run_frame see 5 0 14 ((λ w. (w.0, pause 13 w.1)) ∷ []) (some 1) a_sim in
    ((idle_frames see 5 ((0, 30, 2) ∷ (0, 90, 3) ∷ []) out.0).1 ≡ 0)
    × ((idle_frames see 5 ((0, 30, 2) ∷ (0, 90, 3) ∷ []) out.0).0.scene ≡ out.0.scene)
paused_frames_example =
    paused_frames see 5 0 14 13 1 ((0, 30, 2) ∷ (0, 90, 3) ∷ []) a_sim at_ten refl ten_due
