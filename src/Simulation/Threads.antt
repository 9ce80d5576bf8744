-- ===== src/Simulation/Threads.antt =====
-- src/simulationThread.cpp: the methods by which other threads reach the sim, the sim's frame behind
-- its mailboxes, and the frame of a subsystem thread.
use gef_engine.Prelude.{ℕ, Bool, true, false, List, [], ◌∷◌, Option, none, some, if◌then◌else◌}
use gef_engine.Mailbox.{LatestValue, publish, take_latest, ThreadSafeQueue, push, drain_all}
use gef_engine.Timeline.{
  Timeline, now, pause as pause_at, unpause as unpause_at, set_speed_multiplier,
}
use gef_engine.Stepper.{Stepper, stepper, begin_frame, step}
use gef_engine.Simulation.{Sim, RenderFrame, run_frame}

-- The mailboxes of a SimulationThread and what its frames work on.
pub record Machine (S K : Type 0) : Type 0 where
  pub sim : Sim S K
  pub tasks : ThreadSafeQueue (S × Timeline → S × Timeline)
  pub keyboards : LatestValue K
  pub frames : LatestValue (RenderFrame S)

abbrev pub published :
    {S : Type 0}
    → Option (RenderFrame S)
    → LatestValue (RenderFrame S)
    → LatestValue (RenderFrame S)
published none l = l
published (some shown) l = publish shown l

module _ {S K : Type 0} where
  unfoldable pub submit_keyboard : K → Machine S K → Machine S K
  submit_keyboard keyboard m = record m { keyboards = publish keyboard m.keyboards }

  unfoldable pub post : (S × Timeline → S × Timeline) → Machine S K → Machine S K
  post task m = record m { tasks = push task m.tasks }

  -- `source_now` is the reading of the timeline's source when the task runs.
  unfoldable pub pause : ℕ → Machine S K → Machine S K
  unfolding post
  pause source_now = post λ w. (w.0, pause_at source_now w.1)

  unfoldable pub unpause : ℕ → Machine S K → Machine S K
  unfolding post
  unpause source_now = post λ w. (w.0, unpause_at source_now w.1)

  unfoldable pub toggle_pause : ℕ → Machine S K → Machine S K
  unfolding post
  toggle_pause source_now =
      post λ w. (w.0, if w.1.paused then unpause_at source_now w.1 else pause_at source_now w.1)

  unfoldable pub set_speed : Option ℕ → ℕ → ℕ → Machine S K → Machine S K
  unfolding post
  set_speed multiplier source_now source_rate =
      post λ w. (w.0, set_speed_multiplier multiplier source_now source_rate w.1)

  unfoldable pub take_render_frame : Machine S K → Option (RenderFrame S) × Machine S K
  take_render_frame m = let taken = take_latest m.frames in (taken.0, record m { frames = taken.1 })

  -- runFrame with the mailboxes: the tasks are drained, the keyboard is taken, the frame published.
  unfoldable pub run_machine : (K → K → ℕ → S → S) → ℕ → ℕ → ℕ → Machine S K → Machine S K × ℕ
  unfolding run_frame
  run_machine on_tick max_steps created begun m =
      let drained = drain_all m.tasks in
      let keyboard = take_latest m.keyboards in
      let ran = run_frame on_tick max_steps created begun drained.0 keyboard.0 m.sim in
      (
        record {
          sim = ran.0;
          tasks = drained.1;
          keyboards = keyboard.1;
          frames = published ran.1 m.frames;
        },
        ran.2,
      )

-- What a subsystem thread finds each time it has locked the timeline: the sim's thread may have
-- changed it in between. `reading` is that of its source, and `throws` whether the callback does.
pub record Look : Type 0 where
  pub time : Timeline
  pub reading : ℕ
  pub throws : Bool

-- How the loop of runSubsystemFrame stands: waiting for the lock, ended, or left by an exception.
pub data Ended : Type 0 where
  locked_out finished threw : Ended

-- The loop: the ticks whose callback was called, the stepper and how it stands.
unfoldable pub run_subsystem : ℕ → List Look → Stepper → List ℕ × Stepper × Ended
run_subsystem max_steps [] st = ([], st, locked_out)
run_subsystem max_steps (l ∷ ls) st = elim l.time.paused [
  | true ↦ ([], stepper (now l.reading l.time) max_steps, finished)
  | false ↦ elim (step st).0 [
    | false ↦ ([], (step st).1, finished)
    | true ↦ elim l.throws [
      | true ↦ ((step st).1.consumed ∷ [], (step st).1, threw)
      | false ↦
          let rest = run_subsystem max_steps ls (step st).1 in
          ((step st).1.consumed ∷ rest.0, rest.1, rest.2)
    ]
  ]
]

-- runSubsystemFrame, on the timeline as it is at its start. `created` and `begun` are the readings of
-- its source where the stepper is made, if there is none, and at beginFrame.
unfoldable pub subsystem_frame :
    ℕ → ℕ → ℕ → Timeline → List Look → Option Stepper → List ℕ × Stepper × Ended
unfolding run_subsystem begin_frame
subsystem_frame max_steps created begun time looks none =
    run_subsystem max_steps looks
      (begin_frame (now begun time) (stepper (now created time) max_steps))
subsystem_frame max_steps created begun time looks (some st) =
    run_subsystem max_steps looks (begin_frame (now begun time) st)
