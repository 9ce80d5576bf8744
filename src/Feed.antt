-- ===== src/Feed.antt =====
-- src/networking/publisher.cpp and subscriber.cpp with their headers, and the listener thread and
-- publishScene of peerSession.cpp. What a socket, which belongs to ZeroMQ, answers is an argument.
pub mod Listening
pub mod Tests
use gef_engine.Prelude.{
  ℕ, Bool, true, false, not, ◌||◌, List, [], ◌∷◌, length, Option, none, some, ◌==◌, if◌then◌else◌,
}
use gef_engine.Codec.{Bytes}
use gef_engine.Protocol.{encode_snapshot}
use gef_engine.Mailbox.{LatestValue, publish as publish_latest}
use gef_engine.Replicator.{Replicator}
use gef_engine.Replicator.Encoding.{encode}
use gef_engine.Scene.{Scene}
use gef_engine.Snapshot.{EntityRecord}
use gef_engine.Responses.{Frame, ReceivedStatus, success, no_message, invalid_size, closed}

-- `publisher::send`: the frames that go out, and whether it returns. Nothing catches what a send
-- throws. `topic_sent` and `body_sent` say whether the two calls return.
unfoldable pub publish_frames : Bool → Bool → Bytes → Bytes → List Frame × Bool
publish_frames topic_sent body_sent body topic =
    if not topic_sent
    then ([], false)
    else if not body_sent
    then ((topic, true) ∷ [], false)
    else ((topic, true) ∷ (body, false) ∷ [], true)

-- What recv gives: a frame and its `more()`, an empty optional, a zmq::error_t of EINTR, another one.
pub data Caught : Type 0 where
  part : Bytes → Bool → Caught
  quiet interrupted broken : Caught

-- The second recv of receive, into `old`.
unfoldable pub receive_update : Caught → Bytes → ReceivedStatus × Bytes
receive_update (part b more) old = (success, b)
receive_update quiet old = (no_message, old)
receive_update interrupted old = (no_message, old)
receive_update broken old = (closed, old)

unfoldable pub receive_parts : Caught → Caught → Bytes → ReceivedStatus × Bytes
unfolding receive_update
receive_parts (part topic more) second old =
    if not more then (invalid_size, old) else receive_update second old
receive_parts quiet second old = (no_message, old)
receive_parts interrupted second old = (no_message, old)
receive_parts broken second old = (closed, old)

-- `receive(data)`: the status, what `data` holds, and the flag `running_`, which another thread that
-- listens has set.
unfoldable pub receive : Bool → Caught → Caught → Bytes → (ReceivedStatus × Bytes) × Bool
unfolding receive_parts
receive running first second old =
    if running then ((no_message, old), true) else (receive_parts first second old, false)

unfoldable pub fitted : ℕ → Bytes → ReceivedStatus × Bytes → ReceivedStatus × Bytes
fitted size old (success, b) = if not (length b == size) then (invalid_size, old) else (success, b)
fitted size old (status, b) = (status, old)

-- `receive(data, size)`
unfoldable pub receive_sized : ℕ → Bool → Caught → Caught → Bytes → (ReceivedStatus × Bytes) × Bool
unfolding receive fitted
receive_sized size running first second old =
    let got = receive running first second [] in (fitted size old got.0, got.1)

-- `listenBytes(message)`, and `listenBytes()`, which starts from an empty message.
unfoldable pub listen_into : Bool → Caught → Caught → Bytes → (ReceivedStatus × Bytes) × Bool
unfolding receive
listen_into running first second old = receive running first second old

unfoldable pub listen_bytes : Bool → Caught → Caught → Bytes × Bool
unfolding listen_into
listen_bytes running first second =
    let got = listen_into running first second [] in (got.0.1, got.1)

abbrev pub assigned : Bytes → ReceivedStatus × Bytes → ReceivedStatus × Bytes
assigned old (success, b) = (success, b)
assigned old (status, b) = (status, old)

-- `listen(message)` into a text, and `listen()`.
unfoldable pub listen_text_into : Bool → Caught → Caught → Bytes → (ReceivedStatus × Bytes) × Bool
unfolding receive
listen_text_into running first second old =
    let got = receive running first second [] in (assigned old got.0, got.1)

unfoldable pub listen_text : Bool → Caught → Caught → Bytes × Bool
unfolding listen_text_into
listen_text running first second =
    let got = listen_text_into running first second [] in (got.0.1, got.1)

abbrev pub is_success : ReceivedStatus → Bool
is_success success = true
is_success status = false

-- `listenT<T>()` for a type of `size` bytes, where `initial` are the bytes of `T{}`.
unfoldable pub listen_typed : ℕ → Bytes → Bool → Caught → Caught → (Bytes × Bool) × Bool
unfolding receive_sized
listen_typed size initial running first second =
    let got = receive_sized size running first second initial in
    ((got.0.1, is_success got.0.0), got.1)

-- A round of a peer's listener: whether `stop` is set when it is tested, and what comes in.
pub record Round : Type 0 where
  pub stopped : Bool
  pub first : Caught
  pub second : Caught

-- The loop of peerSlot::listen, whose thread alone uses its subscriber: the states that it publishes
-- to the slot's `latest`, and whether it has ended.
unfoldable pub listen_loop : List Round → Bytes → List Bytes × Bool
unfolding listen_into
listen_loop [] held = ([], false)
listen_loop (r ∷ rs) held = elim r.stopped [
  | true ↦ ([], true)
  | false ↦
      let got = (listen_into false r.first r.second held).0 in
      elim got.0 [
        | closed ↦ ([], true)
        | success ↦ let rest = listen_loop rs got.1 in (got.1 ∷ rest.0, rest.1)
        | no_message ↦ listen_loop rs got.1
        | invalid_size ↦ listen_loop rs got.1
      ]
]

-- peerSlot::listen: nothing if the subscriber cannot be made or set up.
unfoldable pub listen : Bool → List Round → List Bytes × Bool
unfolding listen_loop
listen made rounds = if made then listen_loop rounds [] else ([], true)

-- The states go to `latest` one after another.
unfoldable pub publish_each : List Bytes → LatestValue Bytes → LatestValue Bytes
publish_each [] l = l
publish_each (b ∷ bs) l = publish_each bs (publish_latest b l)

-- kPeerTopic, "peer/".
abbrev pub peer_topic : Bytes
peer_topic = 112 ∷ 101 ∷ 101 ∷ 114 ∷ 47 ∷ []

-- publishScene, up to the session's requestSnapshot: what the publisher sends.
unfoldable pub publish_scene_frames :
    (List EntityRecord → Bytes) → Bool → Bool → Replicator → Scene → ℕ → List Frame × Bool
unfolding publish_frames
publish_scene_frames write_json topic_sent body_sent replicator scene tick =
    publish_frames topic_sent body_sent
      (encode_snapshot tick (encode write_json true replicator scene)) peer_topic
