-- ===== src/Server/Tests.antt =====
-- Runs of sessionServer on a server with one client.
use gef_engine.Prelude.{◌≤◌, ◌≡◌, refl, true, [], ◌∷◌, some, find_key, put_key, length, take, arith}
use gef_engine.Protocol.{RosterEvent, JoinRequest, UpdateRequest, encode_join_request}
use gef_engine.Roster.{replay, apply_event}
use gef_engine.Server.{ClientSlot, Server, init, handle_join, new_slot}
use gef_engine.Server.Exchange.{respond}
use gef_engine.Server.Methods.{watchdog_round}
use gef_engine.Server.Valid.{infos, IsValid}
use gef_engine.Server.Histories.{Reach, join, watch, start, next, Reach-IsValid, Reach-bounded}
use gef_engine.Server.Roster.{respond_roster}

abbrev pub hello_request : JoinRequest
hello_request = record { token = 77; hello = 1 ∷ []; peer_endpoint = [] }

abbrev pub first_slot : ClientSlot
first_slot = record (new_slot 1 5001 1000 hello_request) {
  next_send_seq = 2;
  outbox = record { seq = 1; type = 3; tick = 9; payload = [] } ∷ [];
}

abbrev first_event : RosterEvent
first_event = record { change = 0; client = first_slot.info }

-- Client 1 has joined, and a snapshot was published.
abbrev pub one_client : Server
one_client = record {
  client_timeout = 2000;
  clients = (1, first_slot) ∷ [];
  retired = [];
  next_id = 2;
  roster_log = first_event ∷ [];
  roster_events = first_event ∷ [];
  departed = [];
  states = [];
  inbox = [];
  snapshot = 1 ∷ 0 ∷ 0 ∷ 0 ∷ 0 ∷ [];
  snapshot_tick = 60;
  snapshot_version = 1;
}

pub one_client-IsValid : IsValid one_client
unfolding replay apply_event put_key find_key
one_client-IsValid = record {
  book = record {
    ordered = omega arith;
    below = omega arith;
    first = omega arith;
    last = omega arith;
    keyed = (refl, tt);
    replayed = refl;
    logged = (omega arith, tt);
    bounded = omega arith;
  };
  live = λ k h. refl;
}

abbrev pub an_update : UpdateRequest
an_update = record {
  kind = 2;
  id = 1;
  tick = 5;
  ack_seq = 1;
  roster_version = 0;
  has_state = true;
  state = 4 ∷ [];
  messages = record { seq = 1; type = 6; tick = 5; payload = 8 ∷ [] } ∷ [];
}

abbrev a_leave : UpdateRequest
a_leave = record an_update { kind = 3 }

pub found : find_key 1 one_client.clients ≡ some first_slot
unfolding find_key
found = refl

abbrev a_history : Server
a_history =
    (watchdog_round 5000
      (handle_join (some 5001) 1000 (encode_join_request hello_request) init).0).0

a_history-Reach : Reach init a_history
a_history-Reach =
    next (next start (join init (some 5001) 1000 (encode_join_request hello_request)))
      (watch _ 5000)

Reach-IsValid_example : IsValid a_history
Reach-IsValid_example = Reach-IsValid a_history a_history-Reach

Reach-bounded_example : (a_history.next_id ≤ 256) × (length a_history.roster_log ≤ 510)
Reach-bounded_example = Reach-bounded a_history a_history-Reach

respond_roster_example :
    (replay
        (respond 1 1500 an_update one_client).1.roster_events
        (replay (take 0 one_client.roster_log) [])
      ≡ infos one_client.clients)
    × ((respond 1 1500 an_update one_client).1.roster_version ≡ length one_client.roster_log)
respond_roster_example =
    respond_roster 1 1500 an_update first_slot one_client one_client-IsValid refl found
