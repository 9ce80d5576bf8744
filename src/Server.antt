-- ===== src/Server.antt =====
-- src/networking/sessionServer.cpp: the state that `mutex` guards, and what every handler and method
-- does to it. Each takes the mutex for its whole body, so an interleaving of threads is a sequence
-- of these operations. The clock, the port of a new socket and the encoded scene are arguments.
pub mod Exchange
pub mod Methods
pub mod Valid
pub mod Steps
pub mod Handling
pub mod Histories
pub mod Joining
pub mod Updating
pub mod Leaving
pub mod Roster
pub mod World
pub mod Applied
pub mod Threads
pub mod Moves
pub mod Stopping
pub mod Hosted
pub mod Ended
pub mod WorldTests
pub mod StopTests
pub mod Tests
use gef_engine.Prelude.{
  ℕ, ◌+◌, ◌%◌, ◌^◌, Bool, true, false, List, [], ◌∷◌, ◌++◌, Option, none, some, Map, find_key,
  put_key, erase_key, ltb, ◌==◌, if◌then◌else◌,
}
use gef_engine.Codec.{Bytes}
use gef_engine.Protocol.{
  ClientId, ClientInfo, RosterEvent, ReceivedMessage, ReceivedState, WireMessage, JoinRequest,
  JoinReply, rejected_join, ok_status, joined_change, left_change, encode_join_reply,
}
use gef_engine.Protocol.Decode.{decode_join_request}

abbrev pub max_client_id_per_run : ℕ
max_client_id_per_run = 255

-- `port` is that of the slot's own `responseHandler`, `stopped` whether its `stop` was called.
pub record ClientSlot : Type 0 where
  pub info : ClientInfo
  pub token : ℕ
  pub port : ℕ
  pub stopped : Bool
  pub last_seen : ℕ
  pub last_received_seq : ℕ
  pub next_send_seq : ℕ
  pub outbox : List WireMessage
  pub sent_snapshot_version : ℕ
  pub updates : ℕ
  pub state_updates : ℕ
  pub snapshots_sent : ℕ

-- `client_timeout` is in milliseconds, as the clock is.
pub record Server : Type 0 where
  pub client_timeout : ℕ
  pub clients : Map ClientSlot
  pub retired : List ClientSlot
  pub next_id : ClientId
  pub roster_log : List RosterEvent
  pub roster_events : List RosterEvent
  pub departed : List ClientId
  pub states : Map ReceivedState
  pub inbox : List ReceivedMessage
  pub snapshot : Bytes
  pub snapshot_tick : ℕ
  pub snapshot_version : ℕ

-- The members as they are initialised.
unfoldable pub init : Server
init = record {
  client_timeout = 2000;
  clients = [];
  retired = [];
  next_id = 1;
  roster_log = [];
  roster_events = [];
  departed = [];
  states = [];
  inbox = [];
  snapshot = [];
  snapshot_tick = 0;
  snapshot_version = 0;
}

-- addRosterEventLocked
unfoldable pub add_roster_event : ℕ → ClientInfo → Server → Server
add_roster_event change client s =
    let event : RosterEvent = record { change = change; client = client } in
    record s {
      roster_log = s.roster_log ++ (event ∷ []);
      roster_events = s.roster_events ++ (event ∷ []);
    }

-- The part of retireLocked behind the search.
unfoldable pub retire_slot : ClientId → ClientSlot → Server → Server
unfolding add_roster_event
retire_slot id slot s =
    let gone =
      add_roster_event left_change slot.info (record s { clients = erase_key id s.clients }) in
    record gone {
      departed = gone.departed ++ (id ∷ []);
      states = erase_key id gone.states;
      retired = gone.retired ++ (record slot { stopped = true } ∷ []);
    }

-- retireLocked
unfoldable pub retire : ClientId → Server → Server
unfolding retire_slot
retire id s = elim (find_key id s.clients) [ none ↦ s | some slot ↦ retire_slot id slot s ]

-- The loop of handleJoin over `clients`: a retried join is known by its token.
unfoldable pub find_token : ℕ → Map ClientSlot → Option (ClientId × ClientSlot)
find_token token [] = none
find_token token ((id, slot) ∷ m) =
    if slot.token == token then some (id, slot) else find_token token m

abbrev pub new_slot : ClientId → ℕ → ℕ → JoinRequest → ClientSlot
new_slot id port now req = record {
  info = record { id = id; hello = req.hello; peer_endpoint = req.peer_endpoint };
  token = req.token;
  port = port;
  stopped = false;
  last_seen = now;
  last_received_seq = 0;
  next_send_seq = 1;
  outbox = [];
  sent_snapshot_version = 0;
  updates = 0;
  state_updates = 0;
  snapshots_sent = 0;
}

abbrev pub accepted_join : ClientId → ℕ → JoinReply
accepted_join id port = record { status = ok_status; id = id; update_port = port }

-- The end of handleJoin: a client with the next id, on a socket bound to `port`.
unfoldable pub add_client : ℕ → ℕ → JoinRequest → Server → Server × JoinReply
unfolding add_roster_event
add_client port now req s =
    let slot = new_slot s.next_id port now req in
    let logged =
      add_roster_event joined_change slot.info (record s { next_id = (s.next_id + 1) % 2 ^ 32 }) in
    (
      record logged { clients = put_key s.next_id slot logged.clients },
      accepted_join s.next_id port,
    )

-- `socket` is `none` where binding the new client's socket throws.
unfoldable pub admit : Option ℕ → ℕ → JoinRequest → Server → Server × JoinReply
unfolding add_client
admit socket now req s = elim (find_token req.token s.clients) [
  | some (id, slot) ↦ (s, accepted_join id slot.port)
  | none ↦
      if ltb max_client_id_per_run s.next_id
      then (s, rejected_join)
      else elim socket [ none ↦ (s, rejected_join) | some port ↦ add_client port now req s ]
]

-- handleJoin
unfoldable pub handle_join : Option ℕ → ℕ → Bytes → Server → Server × Bytes
unfolding admit
handle_join socket now request s = elim (decode_join_request request) [
  | none ↦ (s, encode_join_reply rejected_join)
  | some req ↦ let (s', reply) = admit socket now req s in (s', encode_join_reply reply)
]
