-- ===== src/Server/Threads.antt =====
-- src/networking/sessionServer.cpp: start and stop, and the threads that they begin and join. The
-- other threads go on while stop waits, so it is given by its parts.
use gef_engine.Prelude.{ℕ, Bool, true, false, not, ◌||◌, List, [], ◌∷◌, ◌++◌, Map, if◌then◌else◌}
use gef_engine.Server.{ClientSlot, Server, init}
use gef_engine.Server.Methods.{watchdog_round}

-- `join_runs` and `watchdog_runs` are the two threads. `stage` counts the parts of stop that are
-- done; `finished` is the watchdog's local list and `slots` that of stop. `joined` has the slots
-- whose threads were joined.
pub record Host : Type 0 where
  pub server : Server
  pub started : Bool
  pub stopped : Bool
  pub join_runs : Bool
  pub watchdog_runs : Bool
  pub stage : ℕ
  pub finished : List ClientSlot
  pub slots : List ClientSlot
  pub joined : List ClientSlot

-- The constructor.
unfoldable pub host : Host
host = record {
  server = init;
  started = false;
  stopped = false;
  join_runs = false;
  watchdog_runs = false;
  stage = 0;
  finished = [];
  slots = [];
  joined = [];
}

unfoldable pub start : Host → Host
start h =
    if h.started then h else record h { started = true; join_runs = true; watchdog_runs = true }

-- joinSlot on each: the handler is stopped and its thread joined.
unfoldable pub join_each : List ClientSlot → List ClientSlot
join_each [] = []
join_each (slot ∷ slots) = record slot { stopped = true } ∷ join_each slots

-- The watchdog's round under the lock, and what it does behind it.
unfoldable pub watch : ℕ → Host → Host
watch now h =
    let (swept, finished) = watchdog_round now h.server in
    record h { server = swept; finished = finished }

unfoldable pub join_finished : Host → Host
unfolding join_each
join_finished h = record h { finished = []; joined = h.joined ++ join_each h.finished }

-- stop up to the join of the join thread.
unfoldable pub end_joins : Host → Host
end_joins h =
    if not h.started || h.stopped
    then h
    else record h { stopped = true; join_runs = false; stage = 1 }

unfoldable pub end_watchdog : Host → Host
end_watchdog h = record h { watchdog_runs = false; stage = 2 }

unfoldable pub slots_of : Map ClientSlot → List ClientSlot
slots_of [] = []
slots_of ((id, slot) ∷ m) = slot ∷ slots_of m

-- The part of stop under the lock.
unfoldable pub collect_slots : Host → Host
unfolding slots_of
collect_slots h = record h {
  slots = slots_of h.server.clients ++ h.server.retired;
  server = record h.server { clients = []; retired = [] };
  stage = 3;
}

unfoldable pub join_slots : Host → Host
unfolding join_each
join_slots h = record h { slots = []; joined = h.joined ++ join_each h.slots; stage = 4 }
