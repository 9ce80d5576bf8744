-- ===== src/Client.antt =====
-- src/networking/sessionClient.cpp: the state of a client and what every method and every part of
-- the update thread does to it. The part of `updateLoop` under the mutex, the exchange and the part
-- after it are operations of their own, since other threads run between them. What the update socket
-- answers is an argument: `none` where `requestHandler::send` says that no reply is valid.
pub mod Loop
pub mod Flags
pub mod Lifecycle
pub mod Joined
pub mod Exchanges
pub mod Pending
pub mod Tests
use gef_engine.Prelude.{
  ℕ, ◌+◌, Bool, true, false, not, ◌&&◌, ◌||◌, List, [], ◌∷◌, ◌++◌, Option, none, some,
  if◌then◌else◌, ◌==◌,
}
use gef_engine.Codec.{Bytes}
use gef_engine.Protocol.{
  ClientId, server_id, RosterEvent, ReceivedMessage, ReceivedState, WireMessage, JoinRequest,
  JoinReply, UpdateRequest, UpdateReply, ok_status, unknown_client_status, leave_kind,
  encode_join_request, encode_update_request,
}
use gef_engine.Protocol.Decode.{decode_join_reply, decode_update_reply}
use gef_engine.Channel.{Intake, take_in, Outlet, enqueue, drop_acked}
use gef_engine.Mailbox.{LatestValue, empty_slot, publish, take_latest}

-- requestHandler::kDefaultReplyTimeoutMs
abbrev pub default_reply_timeout : ℕ
default_reply_timeout = 1000

-- `updater` is the update socket's own timeout, `none` before there is a socket; `join_timeout` that
-- of the join socket. `replicator` is the id that the replicator was made with.
pub record Client : Type 0 where
  pub token : ℕ
  pub hello : Bytes
  pub peer_endpoint : Bytes
  pub join_timeout : ℕ
  pub reply_timeout : ℕ
  pub applied_reply_timeout : ℕ
  pub heartbeat : ℕ
  pub id : ClientId
  pub update_port : ℕ
  pub replicator : Option ClientId
  pub updater : Option ℕ
  pub stopping : Bool
  pub connected : Bool
  pub started : Bool
  pub left : Bool
  pub pending_state : Option ReceivedState
  pub poll_requested : Bool
  pub last_tick : ℕ
  pub next_send_seq : ℕ
  pub outbox : List WireMessage
  pub last_received_seq : ℕ
  pub roster_version : ℕ
  pub inbox : List ReceivedMessage
  pub roster_events : List RosterEvent
  pub latest_snapshot : LatestValue ReceivedState

-- The constructor, on the token that `randomToken` gives.
unfoldable pub client : ℕ → Bytes → Bytes → Client
client token hello peer_endpoint = record {
  token = token;
  hello = hello;
  peer_endpoint = peer_endpoint;
  join_timeout = default_reply_timeout;
  reply_timeout = default_reply_timeout;
  applied_reply_timeout = default_reply_timeout;
  heartbeat = 250;
  id = server_id;
  update_port = 0;
  replicator = none;
  updater = none;
  stopping = false;
  connected = false;
  started = false;
  left = false;
  pending_state = none;
  poll_requested = false;
  last_tick = 0;
  next_send_seq = 1;
  outbox = [];
  last_received_seq = 0;
  roster_version = 0;
  inbox = [];
  roster_events = [];
  latest_snapshot = empty_slot;
}

-- buildRequestLocked
unfoldable pub build_request : ℕ → Client → UpdateRequest
build_request kind c = record {
  kind = kind;
  id = c.id;
  tick = c.last_tick;
  ack_seq = c.last_received_seq;
  roster_version = c.roster_version;
  has_state = false;
  state = [];
  messages = c.outbox;
}

pub data ExchangeResult : Type 0 where
  ok : ExchangeResult
  failed : ExchangeResult
  dropped : ExchangeResult

-- The head of exchange: a new timeout is given to the socket first.
unfoldable pub apply_timeout : Client → Client
apply_timeout c =
    if c.reply_timeout == c.applied_reply_timeout
    then c
    else record c { updater = some c.reply_timeout; applied_reply_timeout = c.reply_timeout }

unfoldable pub snapshot_received :
    UpdateReply → LatestValue ReceivedState → LatestValue ReceivedState
unfolding publish
snapshot_received reply latest =
    if reply.has_snapshot
    then publish (record { from = server_id; tick = reply.snapshot_tick; payload = reply.snapshot })
        latest
    else latest

-- The part of exchange under the mutex.
unfoldable pub apply_reply : UpdateReply → Client → Client
unfolding snapshot_received
apply_reply reply c =
    let intake =
      take_in server_id reply.messages (record { last = c.last_received_seq; inbox = c.inbox }) in
    record c {
      outbox = drop_acked reply.ack_seq c.outbox;
      inbox = intake.inbox;
      last_received_seq = intake.last;
      roster_events = c.roster_events ++ reply.roster_events;
      roster_version = reply.roster_version;
      latest_snapshot = snapshot_received reply c.latest_snapshot;
    }

-- exchange behind the decoding of a reply.
unfoldable pub settle_reply : UpdateReply → Client → ExchangeResult × Client
unfolding apply_reply
settle_reply reply c =
    if reply.status == unknown_client_status
    then (dropped, c)
    else if reply.status == ok_status
    then (ok, apply_reply reply c)
    else (failed, c)

-- exchange once the socket has answered.
unfoldable pub receive : Option Bytes → Client → ExchangeResult × Client
unfolding settle_reply
receive answer c = elim answer [
  | none ↦ (failed, c)
  | some bytes ↦ elim (decode_update_reply bytes) [
    | none ↦ (failed, c)
    | some reply ↦ settle_reply reply c
  ]
]

-- exchange: what is sent, and what is made of the answer.
unfoldable pub exchange : UpdateRequest → (Bytes → Option Bytes) → Client → ExchangeResult × Client
unfolding apply_timeout receive
exchange request network c = receive (network (encode_update_request request)) (apply_timeout c)

-- join, on what the join socket answers.
unfoldable pub join : (Bytes → Option Bytes) → Client → Bool × Client
join network c =
    let req : JoinRequest = record {
      token = c.token;
      hello = c.hello;
      peer_endpoint = c.peer_endpoint;
    } in
    if not (c.id == server_id) then (true, c) else (elim (network (encode_join_request req)) [
      | none ↦ (false, c)
      | some bytes ↦ elim (decode_join_reply bytes) [
        | none ↦ (false, c)
        | some reply ↦
            if reply.status == ok_status
            then (
              true,
              record c {
                update_port = reply.update_port;
                replicator = some reply.id;
                id = reply.id;
              },
            )
            else (false, c)
      ]
    ])

-- start; `made` is false where the constructor of the update socket's requestHandler throws.
unfoldable pub start : Bool → Client → Client
start made c =
    if c.id == server_id || (c.started || c.left)
    then c
    else if made
    then record c { started = true; updater = some default_reply_timeout; connected = true }
    else record c { started = true }

-- `updater` is not null.
abbrev pub has_updater : Option ℕ → Bool
has_updater none = false
has_updater (some t) = true

-- leave up to its request, with an update socket: the update thread has ended when this returns.
unfoldable pub stop_updates : Client → Client
stop_updates c = record c {
  left = true;
  stopping = true;
  updater = elim c.updater [ none ↦ some default_reply_timeout | some t ↦ some t ];
}

-- leave, `made` as for start; the result of its exchange does not matter.
unfoldable pub leave : Bool → (Bytes → Option Bytes) → Client → Client
unfolding stop_updates exchange build_request
leave made network c =
    let stopped = stop_updates c in
    let told = record (exchange (build_request leave_kind stopped) network stopped).1 {
      connected = false;
    } in
    if c.id == server_id || c.left
    then c
    else if made || has_updater c.updater
    then told
    else record c { left = true; stopping = true }

unfoldable pub set_reply_timeout : ℕ → Client → Client
set_reply_timeout milliseconds c = record c {
  reply_timeout = milliseconds;
  join_timeout = milliseconds;
}

unfoldable pub set_heartbeat : ℕ → Client → Client
set_heartbeat milliseconds c = record c { heartbeat = milliseconds }

-- send
unfoldable pub send : ℕ → Bytes → ℕ → Client → Client
send type payload tick c =
    let sent =
      enqueue type payload tick (record { next_seq = c.next_send_seq; outbox = c.outbox }) in
    record c { outbox = sent.outbox; next_send_seq = sent.next_seq }

unfoldable pub drain_messages : Client → List ReceivedMessage × Client
drain_messages c = (c.inbox, record c { inbox = [] })

unfoldable pub drain_roster_events : Client → List RosterEvent × Client
drain_roster_events c = (c.roster_events, record c { roster_events = [] })

-- submitScene, on what `encodeOwned` gives.
unfoldable pub submit_scene : Bytes → ℕ → Client → Client
submit_scene state tick c = record c {
  pending_state = some (record { from = c.id; tick = tick; payload = state });
  last_tick = tick;
}

unfoldable pub request_snapshot : ℕ → Client → Client
request_snapshot tick c = record c { poll_requested = true; last_tick = tick }

-- applySnapshot: the payload that goes to the replicator, as a snapshot of the server's.
unfoldable pub apply_snapshot : Client → Option Bytes × Client
unfolding take_latest
apply_snapshot c =
    let taken = take_latest c.latest_snapshot in
    (
      elim taken.0 [ none ↦ none | some snapshot ↦ some snapshot.payload ],
      record c { latest_snapshot = taken.1 },
    )
