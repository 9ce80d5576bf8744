-- ===== src/Protocol.antt =====
-- sessionProtocol.hpp and session.hpp: the messages of a session and their wire format. A field
-- holds its unsigned value, a tick and a port the bit pattern of the signed integer. An enumeration
-- is the number on the wire, since a read takes any number into it.
pub mod Decode
pub mod Reading
pub mod Writing
pub mod RoundTrip
pub mod Updates
pub mod Tests
use gef_engine.Prelude.{ℕ, ◌%◌, ◌^◌, Bool, true, false, List, [], ◌∷◌, length, if◌then◌else◌}
use gef_engine.Codec.{Bytes, put, put_bytes, put_string}

abbrev pub ClientId : Type 0
ClientId = ℕ

abbrev pub server_id : ClientId
server_id = 0

-- RequestKind
abbrev pub join_kind : ℕ
join_kind = 1

abbrev pub update_kind : ℕ
update_kind = 2

abbrev pub leave_kind : ℕ
leave_kind = 3

-- ReplyStatus
abbrev pub ok_status : ℕ
ok_status = 0

abbrev pub rejected_status : ℕ
rejected_status = 1

abbrev pub unknown_client_status : ℕ
unknown_client_status = 2

-- RosterChange, whose underlying type is a 4-byte `int`.
abbrev pub joined_change : ℕ
joined_change = 0

abbrev pub left_change : ℕ
left_change = 1

pub record ClientInfo : Type 0 where
  pub id : ClientId
  pub hello : Bytes
  pub peer_endpoint : Bytes

pub record RosterEvent : Type 0 where
  pub change : ℕ
  pub client : ClientInfo

pub record ReceivedMessage : Type 0 where
  pub from : ClientId
  pub type : ℕ
  pub tick : ℕ
  pub payload : Bytes

pub record ReceivedState : Type 0 where
  pub from : ClientId
  pub tick : ℕ
  pub payload : Bytes

pub record WireMessage : Type 0 where
  pub seq : ℕ
  pub type : ℕ
  pub tick : ℕ
  pub payload : Bytes

pub record JoinRequest : Type 0 where
  pub token : ℕ
  pub hello : Bytes
  pub peer_endpoint : Bytes

pub record JoinReply : Type 0 where
  pub status : ℕ
  pub id : ClientId
  pub update_port : ℕ

pub record UpdateRequest : Type 0 where
  pub kind : ℕ
  pub id : ClientId
  pub tick : ℕ
  pub ack_seq : ℕ
  pub roster_version : ℕ
  pub has_state : Bool
  pub state : Bytes
  pub messages : List WireMessage

pub record UpdateReply : Type 0 where
  pub status : ℕ
  pub ack_seq : ℕ
  pub roster_version : ℕ
  pub roster_events : List RosterEvent
  pub messages : List WireMessage
  pub has_snapshot : Bool
  pub snapshot_tick : ℕ
  pub snapshot : Bytes

-- A default-initialised reply, on which the handlers set their fields.
abbrev pub blank_reply : UpdateReply
blank_reply = record {
  status = ok_status;
  ack_seq = 0;
  roster_version = 0;
  roster_events = [];
  messages = [];
  has_snapshot = false;
  snapshot_tick = 0;
  snapshot = [];
}

abbrev pub rejected_join : JoinReply
rejected_join = record { status = rejected_status; id = server_id; update_port = 0 }

-- `static_cast<std::uint8_t>` of a `bool`.
abbrev pub flag : Bool → ℕ
flag true = 1
flag false = 0

unfoldable pub put_message : WireMessage → Bytes → Bytes
put_message m out = put_bytes m.payload (put 8 m.tick (put 2 m.type (put 4 m.seq out)))

unfoldable pub put_message_loop : List WireMessage → Bytes → Bytes
put_message_loop [] out = out
put_message_loop (m ∷ ms) out = put_message_loop ms (put_message m out)

unfoldable pub put_messages : List WireMessage → Bytes → Bytes
put_messages ms out = put_message_loop ms (put 4 (length ms % 2 ^ 32) out)

unfoldable pub put_event : RosterEvent → Bytes → Bytes
put_event e out =
    put_string e.client.peer_endpoint
      (put_bytes e.client.hello (put 4 e.client.id (put 4 e.change out)))

unfoldable pub put_event_loop : List RosterEvent → Bytes → Bytes
put_event_loop [] out = out
put_event_loop (e ∷ es) out = put_event_loop es (put_event e out)

unfoldable pub encode_join_request : JoinRequest → Bytes
encode_join_request r =
    put_string r.peer_endpoint (put_bytes r.hello (put 8 r.token (put 1 join_kind [])))

unfoldable pub encode_join_reply : JoinReply → Bytes
encode_join_reply r = put 4 r.update_port (put 4 r.id (put 1 r.status []))

unfoldable pub encode_update_request : UpdateRequest → Bytes
encode_update_request r =
    let head =
      put 4 r.roster_version (put 4 r.ack_seq (put 8 r.tick (put 4 r.id (put 1 r.kind [])))) in
    let flagged = put 1 (flag r.has_state) head in
    put_messages r.messages (if r.has_state then put_bytes r.state flagged else flagged)

unfoldable pub encode_update_reply : UpdateReply → Bytes
encode_update_reply r =
    let head = put 4 r.roster_version (put 4 r.ack_seq (put 1 r.status [])) in
    let events = put_event_loop r.roster_events (put 4 (length r.roster_events % 2 ^ 32) head) in
    let flagged = put 1 (flag r.has_snapshot) (put_messages r.messages events) in
    if r.has_snapshot then put_bytes r.snapshot (put 8 r.snapshot_tick flagged) else flagged

unfoldable pub encode_snapshot : ℕ → Bytes → Bytes
encode_snapshot tick payload = put_bytes payload (put 8 tick [])
