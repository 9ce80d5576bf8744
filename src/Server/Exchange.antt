-- ===== src/Server/Exchange.antt =====
-- src/networking/sessionServer.cpp: handleUpdate, one exchange with a client.
use gef_engine.Prelude.{
  ℕ, ◌+◌, ◌%◌, ◌^◌, Bool, true, not, ◌&&◌, List, [], ◌∷◌, none, some, Map, find_key, put_key,
  length, drop, ◌==◌, if◌then◌else◌,
}
use gef_engine.Codec.{Bytes}
use gef_engine.Channel.{Intake, take_in, drop_acked}
use gef_engine.Protocol.{
  ClientId, RosterEvent, ReceivedState, UpdateRequest, UpdateReply, blank_reply, ok_status,
  rejected_status, unknown_client_status, joined_change, leave_kind, encode_update_reply,
}
use gef_engine.Protocol.Decode.{decode_update_request}
use gef_engine.Server.{ClientSlot, Server, retire}

-- Every client as a Joined event, for a client that has no roster yet.
unfoldable pub full_roster : Map ClientSlot → List RosterEvent
full_roster [] = []
full_roster ((id, slot) ∷ m) = record { change = joined_change; client = slot.info } ∷ full_roster m

-- The events that bring a roster of version `version` up to date.
unfoldable pub roster_since : ℕ → Server → List RosterEvent
unfolding full_roster
roster_since version s = if version == 0 then full_roster s.clients else drop version s.roster_log

-- The client's slot behind the state, the messages and the acknowledgement of a request.
unfoldable pub updated_slot : ℕ → UpdateRequest → Intake → ClientSlot → ClientSlot
updated_slot now req intake slot = record slot {
  last_seen = now;
  updates = (slot.updates + 1) % 2 ^ 64;
  state_updates = if req.has_state then (slot.state_updates + 1) % 2 ^ 64 else slot.state_updates;
  last_received_seq = intake.last;
  outbox = drop_acked req.ack_seq slot.outbox;
}

unfoldable pub with_state : ClientId → UpdateRequest → Map ReceivedState → Map ReceivedState
with_state id req states =
    if req.has_state
    then put_key id (record { from = id; tick = req.tick; payload = req.state }) states
    else states

-- What of the request goes into the server, up to the reply.
unfoldable pub absorb : ClientId → ℕ → UpdateRequest → ClientSlot → Server → Server
unfolding updated_slot with_state
absorb id now req slot s =
    let intake =
      take_in id req.messages (record { last = slot.last_received_seq; inbox = s.inbox }) in
    record s {
      clients = put_key id (updated_slot now req intake slot) s.clients;
      states = with_state id req s.states;
      inbox = intake.inbox;
    }

-- The reply before a snapshot, made from the client's updated slot.
unfoldable pub base_reply : UpdateRequest → ClientSlot → Server → UpdateReply
unfolding roster_since
base_reply req slot s = record blank_reply {
  status = ok_status;
  ack_seq = slot.last_received_seq;
  roster_version = length s.roster_log % 2 ^ 32;
  roster_events = roster_since req.roster_version s;
  messages = slot.outbox;
}

-- Whether this client is yet to be sent the newest snapshot.
unfoldable pub snapshot_due : ClientSlot → Server → Bool
snapshot_due slot s =
    not (s.snapshot_version == 0) && not (slot.sent_snapshot_version == s.snapshot_version)

unfoldable pub mark_sent : ClientSlot → Server → ClientSlot
mark_sent slot s = record slot {
  sent_snapshot_version = s.snapshot_version;
  snapshots_sent = (slot.snapshots_sent + 1) % 2 ^ 64;
}

unfoldable pub attach_snapshot : ClientId → ClientSlot → UpdateReply → Server → Server × UpdateReply
unfolding snapshot_due mark_sent
attach_snapshot id slot reply s =
    if snapshot_due slot s
    then (
      record s { clients = put_key id (mark_sent slot s) s.clients },
      record reply { has_snapshot = true; snapshot_tick = s.snapshot_tick; snapshot = s.snapshot },
    )
    else (s, reply)

-- The exchange behind the reply's first fields, with the client's updated slot.
unfoldable pub answer : ClientId → UpdateRequest → ClientSlot → Server → Server × UpdateReply
unfolding base_reply attach_snapshot retire
answer id req slot s =
    if req.kind == leave_kind
    then (retire id s, base_reply req slot s)
    else attach_snapshot id slot (base_reply req slot s) s

-- handleUpdate once the request is decoded and its slot found.
unfoldable pub exchange : ClientId → ℕ → UpdateRequest → ClientSlot → Server → Server × UpdateReply
unfolding absorb answer
exchange id now req slot s =
    let intake =
      take_in id req.messages (record { last = slot.last_received_seq; inbox = s.inbox }) in
    answer id req (updated_slot now req intake slot) (absorb id now req slot s)

-- handleUpdate once the request is decoded.
unfoldable pub respond : ClientId → ℕ → UpdateRequest → Server → Server × UpdateReply
unfolding exchange
respond id now req s =
    if req.id == id
    then (elim (find_key id s.clients) [
      | none ↦ (s, record blank_reply { status = unknown_client_status })
      | some slot ↦ exchange id now req slot s
    ])
    else (s, record blank_reply { status = rejected_status })

-- handleUpdate
unfoldable pub handle_update : ClientId → ℕ → Bytes → Server → Server × Bytes
unfolding respond
handle_update id now request s = elim (decode_update_request request) [
  | none ↦ (s, encode_update_reply (record blank_reply { status = rejected_status }))
  | some req ↦ let (s', reply) = respond id now req s in (s', encode_update_reply reply)
]
