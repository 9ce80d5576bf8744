-- ===== src/Protocol/Decode.antt =====
-- sessionProtocol.hpp, the decoders. The caller's variable is fresh, and dropped when `decode` is
-- false, so a decoder gives the record or `none`.
use gef_engine.Prelude.{
  ℕ, zero, suc, Bool, true, false, not, ◌&&◌, ◌||◌, List, [], ◌∷◌, ◌++◌, Option, none, some,
  if◌then◌else◌, ◌==◌,
}
use gef_engine.Codec.{
  Bytes, Reader, reader, Read, ◌>>=◌, return, get, get_bytes, get_string, at_end,
}
use gef_engine.Protocol.{
  server_id, join_kind, update_kind, leave_kind, ok_status, rejected_status, RosterEvent,
  ReceivedState, WireMessage, JoinRequest, JoinReply, UpdateRequest, UpdateReply,
}

-- `in.ok() && in.atEnd()` and a test of what was read.
unfoldable pub accept : {A : Type 0} → (A → Bool) → A × Reader → Option A
accept test (a, r) = if r.ok && at_end r && test a then some a else none

abbrev pub any_value : {A : Type 0} → A → Bool
any_value a = true

unfoldable pub get_message : Read WireMessage
get_message = do
  seq ← get 4 0
  type ← get 2 0
  tick ← get 8 0
  payload ← get_bytes []
  return (record { seq = seq; type = type; tick = tick; payload = payload })

-- `for(i = 0; i < count && in.ok(); ++i)`, with the rounds left.
unfoldable pub get_message_loop : ℕ → List WireMessage → Read (List WireMessage)
get_message_loop zero messages r = (messages, r)
get_message_loop (suc n) messages r = elim r.ok [
  | true ↦ let (m, r') = get_message r in get_message_loop n (messages ++ (m ∷ [])) r'
  | false ↦ (messages, r)
]

unfoldable pub get_messages : List WireMessage → Read (List WireMessage)
get_messages old r =
    let counted = get 4 0 r in
    if counted.1.ok then get_message_loop counted.0 [] counted.1 else (old, counted.1)

unfoldable pub get_event : Read RosterEvent
get_event = do
  change ← get 4 0
  id ← get 4 server_id
  hello ← get_bytes []
  peer_endpoint ← get_string []
  return (record {
    change = change;
    client = record { id = id; hello = hello; peer_endpoint = peer_endpoint };
  })

unfoldable pub get_event_loop : ℕ → List RosterEvent → Read (List RosterEvent)
get_event_loop zero events r = (events, r)
get_event_loop (suc n) events r = elim r.ok [
  | true ↦ let (e, r') = get_event r in get_event_loop n (events ++ (e ∷ [])) r'
  | false ↦ (events, r)
]

unfoldable pub read_join_request : Read (ℕ × JoinRequest)
read_join_request = do
  kind ← get 1 0
  token ← get 8 0
  hello ← get_bytes []
  peer_endpoint ← get_string []
  return (kind, record { token = token; hello = hello; peer_endpoint = peer_endpoint })

abbrev pub is_join : ℕ × JoinRequest → Bool
is_join (kind, r) = kind == join_kind

abbrev pub drop_kind : Option (ℕ × JoinRequest) → Option JoinRequest
drop_kind none = none
drop_kind (some (kind, r)) = some r

unfoldable pub decode_join_request : Bytes → Option JoinRequest
decode_join_request bytes = drop_kind (accept is_join (read_join_request (reader bytes)))

unfoldable pub read_join_reply : Read JoinReply
read_join_reply = do
  status ← get 1 rejected_status
  id ← get 4 server_id
  update_port ← get 4 0
  return (record { status = status; id = id; update_port = update_port })

unfoldable pub decode_join_reply : Bytes → Option JoinReply
decode_join_reply bytes = accept any_value (read_join_reply (reader bytes))

-- `if(flag) {in.getBytes(run);}`
unfoldable pub get_bytes_if : Bool → Read Bytes
get_bytes_if wanted r = if wanted then get_bytes [] r else ([], r)

unfoldable pub get_if : Bool → ℕ → ℕ → Read ℕ
get_if wanted n old r = if wanted then get n old r else (old, r)

unfoldable pub read_update_request : Read UpdateRequest
read_update_request = do
  kind ← get 1 update_kind
  id ← get 4 server_id
  tick ← get 8 0
  ack_seq ← get 4 0
  roster_version ← get 4 0
  has_state ← get 1 0
  state ← get_bytes_if (not (has_state == 0))
  messages ← get_messages []
  return (record {
    kind = kind;
    id = id;
    tick = tick;
    ack_seq = ack_seq;
    roster_version = roster_version;
    has_state = not (has_state == 0);
    state = state;
    messages = messages;
  })

abbrev pub is_update : UpdateRequest → Bool
is_update r = r.kind == update_kind || r.kind == leave_kind

unfoldable pub decode_update_request : Bytes → Option UpdateRequest
decode_update_request bytes = accept is_update (read_update_request (reader bytes))

unfoldable pub read_update_reply : Read UpdateReply
read_update_reply = do
  status ← get 1 ok_status
  ack_seq ← get 4 0
  roster_version ← get 4 0
  event_count ← get 4 0
  roster_events ← get_event_loop event_count []
  messages ← get_messages []
  has_snapshot ← get 1 0
  snapshot_tick ← get_if (not (has_snapshot == 0)) 8 0
  snapshot ← get_bytes_if (not (has_snapshot == 0))
  return (record {
    status = status;
    ack_seq = ack_seq;
    roster_version = roster_version;
    roster_events = roster_events;
    messages = messages;
    has_snapshot = not (has_snapshot == 0);
    snapshot_tick = snapshot_tick;
    snapshot = snapshot;
  })

unfoldable pub decode_update_reply : Bytes → Option UpdateReply
decode_update_reply bytes = accept any_value (read_update_reply (reader bytes))

unfoldable pub read_snapshot : Read ReceivedState
read_snapshot = do
  tick ← get 8 0
  payload ← get_bytes []
  return (record { from = server_id; tick = tick; payload = payload })

unfoldable pub decode_snapshot : Bytes → Option ReceivedState
decode_snapshot bytes = accept any_value (read_snapshot (reader bytes))
