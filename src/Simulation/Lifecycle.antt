-- ===== src/Simulation/Lifecycle.antt =====
-- src/simulationThread.cpp: what holds between any two calls and parts of threads.
use gef_engine.Prelude.{ℕ, ◌<◌, ◌≤◌, ◌≡◌, ◌≢◌, ◌⊎◌, true, false, none, arith}
use gef_engine.Simulation.{
  ThreadState, not_started, add_subsystem_thread, join_all, start, request_stop, stop,
  advance_frame, record_failure, sim_fails, sim_gives_up, sim_ends, subsystem_fails,
  subsystem_gives_up, subsystem_ends,
}

-- The owner's calls and the parts of threads. A thread ends by itself only once a stop is requested.
pub data Step : ThreadState → ThreadState → Type 0 where
  add : (l : ThreadState) → Step l (add_subsystem_thread l)
  starts : (l : ThreadState) → Step l (start l)
  requests : (l : ThreadState) → Step l (request_stop l)
  stops : (l : ThreadState) → Step l (stop l)
  advances : (l : ThreadState) → Step l (advance_frame l).1
  sim_throws :
      (l : ThreadState) (error : ℕ)
      → l.sim_alive ≡ true
      → l.sim_failing ≡ false
      → Step l (sim_fails error l)
  sim_requests : (l : ThreadState) → l.sim_failing ≡ true → Step l (sim_gives_up l)
  sim_stops :
      (l : ThreadState)
      → l.sim_alive ≡ true
      → l.sim_failing ≡ false
      → l.stop_requested ≡ true
      → Step l (sim_ends l)
  subsystem_throws :
      (l : ThreadState) (error : ℕ)
      → l.subsystems_failing < l.subsystems_alive
      → Step l (subsystem_fails error l)
  subsystem_requests : (l : ThreadState) → 0 < l.subsystems_failing → Step l (subsystem_gives_up l)
  subsystem_stops :
      (l : ThreadState)
      → l.subsystems_failing < l.subsystems_alive
      → l.stop_requested ≡ true
      → Step l (subsystem_ends l)

pub data Reach (s : ThreadState) : ThreadState → Type 0 where
  origin : Reach s s
  next : {t u : ThreadState} → Reach s t → Step t u → Reach s u

pub record IsManaged (l : ThreadState) : Type 0 where
  pub begun : l.running ≡ true → l.started ≡ true
  pub alive : l.running ≡ true → l.sim_alive ≡ true
  pub idle : l.running ≡ false → l.sim_alive ≡ false
  pub fixed : l.started ≡ false → (l.sim_alive ≡ false) × (l.subsystems_alive ≡ 0)
  pub bounded : l.subsystems_alive ≤ l.subsystems
  pub failing : l.subsystems_failing ≤ l.subsystems_alive
  pub sim_failing : l.sim_failing ≡ true → l.sim_alive ≡ true
  -- A failure is on record.
  pub failed :
      l.failure ≢ none
      → (l.stop_requested ≡ true) ⊎ (l.sim_failing ≡ true) ⊎ (0 < l.subsystems_failing)
  pub stopping : 0 < l.subsystems_alive → l.running ≡ false → l.stop_requested ≡ true

Step-IsManaged : {l m : ThreadState} → Step l m → IsManaged l → IsManaged m
unfolding add_subsystem_thread join_all start request_stop stop advance_frame record_failure
    sim_fails sim_gives_up sim_ends subsystem_fails subsystem_gives_up subsystem_ends
Step-IsManaged (add l) o = ground (arith, o.fixed, o.begun)
Step-IsManaged (starts l) o = ground (
  arith, o.begun, o.alive, o.idle, o.fixed, o.bounded, o.failing, o.sim_failing, o.failed,
  o.stopping,
)
Step-IsManaged (requests l) o = ground (
  arith, o.begun, o.alive, o.idle, o.fixed, o.bounded, o.failing, o.sim_failing, o.failed,
  o.stopping,
)
Step-IsManaged (stops l) o = ground (
  arith, o.begun, o.alive, o.idle, o.fixed, o.bounded, o.failing, o.sim_failing, o.failed,
  o.stopping,
)
Step-IsManaged (advances l) o = ground (
  arith, o.begun, o.alive, o.idle, o.fixed, o.bounded, o.failing, o.sim_failing, o.failed,
  o.stopping,
)
Step-IsManaged (sim_throws l error a n) o = ground (
  arith, o.begun, o.alive, o.idle, o.fixed, o.bounded, o.failing, o.sim_failing, o.failed,
  o.stopping,
)
Step-IsManaged (sim_requests l a) o = ground (
  arith, o.begun, o.alive, o.idle, o.fixed, o.bounded, o.failing, o.sim_failing, o.failed,
  o.stopping,
)
Step-IsManaged (sim_stops l a n r) o = ground (
  arith, o.begun, o.alive, o.idle, o.fixed, o.bounded, o.failing, o.sim_failing, o.failed,
  o.stopping,
)
Step-IsManaged (subsystem_throws l error a) o = ground (
  arith, o.begun, o.alive, o.idle, o.fixed, o.bounded, o.failing, o.sim_failing, o.failed,
  o.stopping,
)
Step-IsManaged (subsystem_requests l a) o = ground (
  arith, o.begun, o.alive, o.idle, o.fixed, o.bounded, o.failing, o.sim_failing, o.failed,
  o.stopping,
)
Step-IsManaged (subsystem_stops l a r) o = ground (
  arith, o.begun, o.alive, o.idle, o.fixed, o.bounded, o.failing, o.sim_failing, o.failed,
  o.stopping,
)

-- However the owner's calls and the parts of threads follow one another, from a new object on: the sim
-- thread has its last line before it exactly while `running()` says so, and no thread is there before
-- a first start or frame; a failure on record means that a stop is requested, or that a thread that
-- is about to request it is still there; and subsystem threads that are left once the sim has ended
-- have been told to stop, so that a join of them ends.
pub Reach-IsManaged : (l : ThreadState) → Reach not_started l → IsManaged l
unfolding not_started
Reach-IsManaged l origin = ground arith
Reach-IsManaged l (next {t} r s) = Step-IsManaged s (Reach-IsManaged t r)
