-- ===== src/Simulation.antt =====
-- src/simulationThread.cpp: the life of a SimulationThread, and one frame of its sim. A thread is
-- what its loop may still do: `sim` and `subsystems` count those that have not returned. The scene,
-- the keyboard and what a task does are the game's, so a frame is modelled for any of them.
pub mod Lifecycle
pub mod Frames
pub mod Threads
pub mod Pausing
pub mod Still
pub mod Tests
use gef_engine.Prelude.{
  ℕ, zero, suc, ◌+◌, ◌-◌, ◌%◌, ◌^◌, Bool, true, false, not, ◌||◌, ◌&&◌, List, [], ◌∷◌, Option, none,
  some, ltb, ◌==◌, if◌then◌else◌,
}
use gef_engine.Mailbox.{LatestValue, publish, take_latest, ThreadSafeQueue, drain_all}
use gef_engine.Timeline.{Timeline, now}
use gef_engine.Stepper.{Stepper, stepper, begin_frame, step}

-- The flags and threads of the object. An exception is a number. A thread is alive up to the last line
-- of its main function, and failing between the two parts of recordFailure.
pub record ThreadState : Type 0 where
  pub started : Bool
  pub running : Bool
  pub stop_requested : Bool
  pub failure : Option ℕ
  pub subsystems : ℕ
  pub sim_alive : Bool
  pub subsystems_alive : ℕ
  pub sim_failing : Bool
  pub subsystems_failing : ℕ

unfoldable pub not_started : ThreadState
not_started = record {
  started = false;
  running = false;
  stop_requested = false;
  failure = none;
  subsystems = 0;
  sim_alive = false;
  subsystems_alive = 0;
  sim_failing = false;
  subsystems_failing = 0;
}

unfoldable pub add_subsystem_thread : ThreadState → ThreadState
add_subsystem_thread l = if l.started then l else record l { subsystems = l.subsystems + 1 }

-- joinAll returns once every thread has ended; one that fails has then requested a stop.
unfoldable pub join_all : ThreadState → ThreadState
join_all l = record l {
  stop_requested = l.stop_requested || (l.sim_failing || ltb 0 l.subsystems_failing);
  running = l.running && not l.sim_alive;
  sim_alive = false;
  subsystems_alive = 0;
  sim_failing = false;
  subsystems_failing = 0;
}

unfoldable pub start : ThreadState → ThreadState
unfolding join_all
start l = if l.running then l else record (join_all l) {
  failure = none;
  stop_requested = false;
  started = true;
  running = true;
  sim_alive = true;
  subsystems_alive = l.subsystems;
}

unfoldable pub request_stop : ThreadState → ThreadState
request_stop l = record l { stop_requested = true }

-- stop, whose threads see the request and end while it waits; the sim's ends by its own last line.
unfoldable pub stop : ThreadState → ThreadState
unfolding join_all request_stop
stop l = record (join_all (request_stop l)) { running = false }

-- advanceFrame: whether it runs a frame.
unfoldable pub advance_frame : ThreadState → Bool × ThreadState
unfolding join_all
advance_frame l = if l.running then (false, l) else (true, record (join_all l) { started = true })

-- The part of recordFailure under its lock.
unfoldable pub record_failure : ℕ → ThreadState → ThreadState
record_failure error l = record l {
  failure = elim l.failure [ none ↦ some error | some first ↦ some first ];
}

-- An exception leaves the loop of threadMain.
unfoldable pub sim_fails : ℕ → ThreadState → ThreadState
unfolding record_failure
sim_fails error l = record (record_failure error l) { sim_failing = true }

-- The last line of recordFailure.
unfoldable pub sim_gives_up : ThreadState → ThreadState
sim_gives_up l = record l { stop_requested = true; sim_failing = false }

-- The last line of threadMain.
unfoldable pub sim_ends : ThreadState → ThreadState
sim_ends l = record l { running = false; sim_alive = false }

-- The same of subsystemMain, whose end changes no flag.
unfoldable pub subsystem_fails : ℕ → ThreadState → ThreadState
unfolding record_failure
subsystem_fails error l = record (record_failure error l) {
  subsystems_failing = l.subsystems_failing + 1;
}

unfoldable pub subsystem_gives_up : ThreadState → ThreadState
subsystem_gives_up l = record l {
  stop_requested = true;
  subsystems_failing = l.subsystems_failing - 1;
}

unfoldable pub subsystem_ends : ThreadState → ThreadState
subsystem_ends l = record l { subsystems_alive = l.subsystems_alive - 1 }

-- What a frame works on: the scene is an `S`, the keyboard a `K`.
pub record Sim (S K : Type 0) : Type 0 where
  pub scene : S
  pub time : Timeline
  pub stepper : Option Stepper
  pub frame_keyboard : K
  pub last_tick_keyboard : K
  pub frames_published : ℕ

-- SimStatus, less the reading of the speed, with the scene.
pub record RenderFrame (S : Type 0) : Type 0 where
  pub scene : S
  pub tick : ℕ
  pub paused : Bool
  pub dropped : ℕ
  pub frame : ℕ
  pub steps_last_frame : ℕ

module _ {S K : Type 0} (on_tick : K → K → ℕ → S → S) where
  -- The loop `while (stepper_->step())`, with the rounds left: what it leaves of the stepper, the
  -- scene and the keyboard of the last tick, and the steps that it ran.
  unfoldable pub run_ticks : ℕ → K → Stepper → S → K → ℕ → Stepper × S × K × ℕ
  run_ticks zero keyboard st scene last steps = (st, scene, last, steps)
  run_ticks (suc fuel) keyboard st scene last steps = elim (step st).0 [
    | true ↦
        run_ticks fuel keyboard (step st).1 (on_tick keyboard last (step st).1.consumed scene)
          keyboard (steps + 1)
    | false ↦ ((step st).1, scene, last, steps)
  ]

  -- The tasks run in the order in which they were posted.
  unfoldable pub run_tasks : List (S × Timeline → S × Timeline) → S × Timeline → S × Timeline
  run_tasks [] w = w
  run_tasks (t ∷ ts) w = run_tasks ts (t w)

  -- The end of runFrame, behind the ticks: `due` if a task ran or the frame is the first.
  unfoldable pub finish_frame :
      Bool → K → Timeline → Stepper × S × K × ℕ → Sim S K → Sim S K × Option (RenderFrame S) × ℕ
  finish_frame due keyboard time (st, scene, last, steps) sim =
      let shown = ltb 0 steps || due in
      let frames = if shown then (sim.frames_published + 1) % 2 ^ 64 else sim.frames_published in
      (
        record {
          scene = scene;
          time = time;
          stepper = some st;
          frame_keyboard = keyboard;
          last_tick_keyboard = last;
          frames_published = frames;
        },
        if shown
            then some (record {
              scene = scene;
              tick = st.consumed;
              paused = time.paused;
              dropped = st.dropped;
              frame = frames;
              steps_last_frame = steps;
            })
            else none,
        steps,
      )

  abbrev pub any_task : List (S × Timeline → S × Timeline) → Bool
  any_task [] = false
  any_task (_ ∷ _) = true

  -- runFrame from the stepper on.
  unfoldable pub step_frame :
      Bool
      → ℕ
      → List (S × Timeline → S × Timeline)
      → K
      → Stepper
      → Sim S K
      → Sim S K × Option (RenderFrame S) × ℕ
  unfolding run_ticks run_tasks begin_frame finish_frame
  step_frame first begun tasks keyboard st sim =
      let w = run_tasks tasks (sim.scene, sim.time) in
      let ready = begin_frame (now begun w.1) st in
      finish_frame (any_task tasks || first) keyboard w.1
        (run_ticks (suc ready.budget) keyboard ready w.0 sim.last_tick_keyboard 0) sim

  abbrev pub keyboard_of : Option K → Sim S K → K
  keyboard_of none sim = sim.frame_keyboard
  keyboard_of (some k) sim = k

  -- runFrame, on the tasks and the keyboard that it takes from their mailboxes. `created` and `begun`
  -- are the readings of the timeline's source where the stepper is made and at beginFrame.
  -- `max_steps` is of the configuration.
  unfoldable pub run_frame :
      ℕ
      → ℕ
      → ℕ
      → List (S × Timeline → S × Timeline)
      → Option K
      → Sim S K
      → Sim S K × Option (RenderFrame S) × ℕ
  unfolding step_frame
  run_frame max_steps created begun tasks keyboard sim = elim sim.stepper [
    | none ↦
        step_frame true begun tasks (keyboard_of keyboard sim)
          (stepper (now created sim.time) max_steps) sim
    | some st ↦ step_frame false begun tasks (keyboard_of keyboard sim) st sim
  ]
