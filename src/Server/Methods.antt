-- ===== src/Server/Methods.antt =====
-- src/networking/sessionServer.cpp: the watchdog and the methods that the game calls.
use gef_engine.Prelude.{
  Bool, leb, ◌||◌, ℕ, ◌+◌, ◌%◌, ◌^◌, List, [], ◌∷◌, none, some, Map, find_key, put_key, ltb,
  if◌then◌else◌,
}
use gef_engine.Codec.{Bytes}
use gef_engine.Channel.{enqueue}
use gef_engine.Protocol.{ClientId, ClientInfo, RosterEvent, ReceivedMessage, ReceivedState}
use gef_engine.Server.{ClientSlot, Server, retire}

-- Whether a client that was last seen at `seen` is too late at `now`. The timeout is the bit pattern of
-- an int, and a negative one is always over. The clock never runs back, so that the comparison of
-- `now - seen` with a timeout that is not negative is one with a sum.
abbrev pub timed_out : ℕ → ℕ → ℕ → Bool
timed_out timeout seen now = leb (2 ^ 31) timeout || ltb (seen + timeout) now

-- The clients that the watchdog finds silent at `now`.
unfoldable pub silent : ℕ → ℕ → Map ClientSlot → List ClientId
silent timeout now [] = []
silent timeout now ((id, slot) ∷ m) =
    if timed_out timeout slot.last_seen now then id ∷ silent timeout now m else silent timeout now m

unfoldable pub retire_each : List ClientId → Server → Server
retire_each [] s = s
retire_each (id ∷ ids) s = retire_each ids (retire id s)

-- One round of the watchdog. The slots that it gives are joined outside the lock.
unfoldable pub watchdog_round : ℕ → Server → Server × List ClientSlot
unfolding silent
watchdog_round now s =
    let swept = retire_each (silent s.client_timeout now s.clients) s in
    (record swept { retired = [] }, swept.retired)

unfoldable pub set_client_timeout : ℕ → Server → Server
set_client_timeout milliseconds s = record s { client_timeout = milliseconds }

-- A slot with one more message to its client.
unfoldable pub push_message : ℕ → Bytes → ℕ → ClientSlot → ClientSlot
unfolding enqueue
push_message type payload tick slot =
    let out =
      enqueue type payload tick (record { next_seq = slot.next_send_seq; outbox = slot.outbox }) in
    record slot { next_send_seq = out.next_seq; outbox = out.outbox }

unfoldable pub send : ClientId → ℕ → Bytes → ℕ → Server → Server
unfolding push_message
send to type payload tick s = elim (find_key to s.clients) [
  | none ↦ s
  | some slot ↦ record s { clients = put_key to (push_message type payload tick slot) s.clients }
]

unfoldable pub push_to_all : ℕ → Bytes → ℕ → Map ClientSlot → Map ClientSlot
push_to_all type payload tick [] = []
push_to_all type payload tick ((id, slot) ∷ m) =
    (id, push_message type payload tick slot) ∷ push_to_all type payload tick m

unfoldable pub broadcast : ℕ → Bytes → ℕ → Server → Server
broadcast type payload tick s = record s { clients = push_to_all type payload tick s.clients }

unfoldable pub drain_messages : Server → Server × List ReceivedMessage
drain_messages s = (record s { inbox = [] }, s.inbox)

unfoldable pub drain_roster_events : Server → Server × List RosterEvent
drain_roster_events s = (record s { roster_events = [] }, s.roster_events)

unfoldable pub roster : Map ClientSlot → List ClientInfo
roster [] = []
roster ((id, slot) ∷ m) = slot.info ∷ roster m

pub record ClientStats : Type 0 where
  pub id : ClientId
  pub updates : ℕ
  pub state_updates : ℕ
  pub snapshots_sent : ℕ

unfoldable pub stats : Map ClientSlot → List ClientStats
stats [] = []
stats ((id, slot) ∷ m) =
    record {
      id = id;
      updates = slot.updates;
      state_updates = slot.state_updates;
      snapshots_sent = slot.snapshots_sent;
    }
    ∷ stats m

-- publishScene, with the scene encoded by the replicator.
unfoldable pub publish_scene : Bytes → ℕ → Server → Server
publish_scene encoded tick s = record s {
  snapshot = encoded;
  snapshot_tick = tick;
  snapshot_version = (s.snapshot_version + 1) % 2 ^ 64;
}

unfoldable pub state_list : Map ReceivedState → List ReceivedState
state_list [] = []
state_list ((id, state) ∷ m) = state ∷ state_list m

unfoldable pub drain_states : Server → Server × List ReceivedState
unfolding state_list
drain_states s = (record s { states = [] }, state_list s.states)

-- The second lock of applyClientStates.
unfoldable pub take_departed : Server → Server × List ClientId
take_departed s = (record s { departed = [] }, s.departed)
