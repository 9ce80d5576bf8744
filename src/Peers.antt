-- ===== src/Peers.antt =====
-- src/networking/peerSession.cpp: the peers of a peerSession, its roster, and what applyUpdates and
-- leave do to them. A listener thread publishes to its slot's `latest`; disconnect joins it, so that
-- a slot that is gone publishes no more.
pub mod Tuned
pub mod Tests
use gef_engine.Prelude.{
  ℕ, Bool, true, false, not, ◌||◌, List, [], ◌∷◌, Option, none, some, Map, find_key, put_key,
  erase_key, has_key, ◌==◌, if◌then◌else◌,
}
use gef_engine.Codec.{Bytes}
use gef_engine.Protocol.{ClientId, ClientInfo, RosterEvent, ReceivedState, joined_change}
use gef_engine.Protocol.Decode.{decode_snapshot}
use gef_engine.Mailbox.{LatestValue, empty_slot, take_latest}
use gef_engine.Roster.{apply_event}
use gef_engine.Scene.{Scene}
use gef_engine.Snapshot.{EntityRecord}
use gef_engine.Replicator.{Replicator}
use gef_engine.Replicator.Receiving.{apply, drop_owner}

pub record PeerSlot : Type 0 where
  pub endpoint : Bytes
  pub latest : LatestValue Bytes

pub record PeerSession : Type 0 where
  pub peers : Map PeerSlot
  pub roster : Map ClientInfo
  pub left : Bool

abbrev pub is_empty_text : Bytes → Bool
is_empty_text [] = true
is_empty_text (_ ∷ _) = false

unfoldable pub connect : ClientId → Bytes → PeerSession → PeerSession
connect id endpoint s = if is_empty_text endpoint || has_key id s.peers then s else record s {
  peers = put_key id (record { endpoint = endpoint; latest = empty_slot }) s.peers;
}

unfoldable pub disconnect : ClientId → PeerSession → PeerSession
disconnect id s = record s { peers = erase_key id s.peers }

-- The body of applyUpdates' loop over the roster events: the peers, and the entities that go with one
-- that left.
unfoldable pub follow_event :
    ClientId → RosterEvent → PeerSession × (Replicator × Scene) → PeerSession × (Replicator × Scene)
unfolding connect disconnect apply_event
follow_event self event (s, world) =
    let peer = event.client.id in
    let known = record s { roster = apply_event event s.roster } in
    if peer == self
    then (known, world)
    else if event.change == joined_change
    then (connect peer event.client.peer_endpoint known, world)
    else (disconnect peer known, drop_owner peer world)

unfoldable pub follow_events :
    ClientId
    → List RosterEvent
    → PeerSession × (Replicator × Scene)
    → PeerSession × (Replicator × Scene)
unfolding follow_event
follow_events self [] w = w
follow_events self (e ∷ es) w = follow_events self es (follow_event self e w)

-- The body of the loop over the peers: a peer's newest state is applied, if there is one that can be
-- read. `none` where applying it throws.
unfoldable pub apply_state :
    (Bytes → Option (List EntityRecord))
    → ClientId
    → PeerSlot
    → Replicator × Scene
    → Option (Replicator × Scene)
apply_state read_json peer slot world = elim (take_latest slot.latest).0 [
  | none ↦ some world
  | some bytes ↦ elim (decode_snapshot bytes) [
    | none ↦ some world
    | some state ↦ elim (apply read_json state.payload peer world) [
      | none ↦ none
      | some (done, world') ↦ some world'
    ]
  ]
]

-- The loop: the peers with their newest state taken, and the world.
unfoldable pub apply_states :
    (Bytes → Option (List EntityRecord))
    → Map PeerSlot
    → Replicator × Scene
    → Option (Map PeerSlot × (Replicator × Scene))
unfolding apply_state take_latest
apply_states read_json [] world = some ([], world)
apply_states read_json ((peer, slot) ∷ peers) world = elim (apply_state read_json peer slot world) [
  | none ↦ none
  | some world' ↦ elim (apply_states read_json peers world') [
    | none ↦ none
    | some (rest, world'') ↦
        some ((peer, record slot { latest = (take_latest slot.latest).1 }) ∷ rest, world'')
  ]
]

-- applyUpdates, on the events and the server's snapshot that the session gives.
unfoldable pub apply_updates :
    (Bytes → Option (List EntityRecord))
    → ClientId
    → List RosterEvent
    → Option Bytes
    → PeerSession × (Replicator × Scene)
    → Option (PeerSession × (Replicator × Scene))
unfolding follow_events apply_states
apply_updates read_json self events snapshot w =
    let (s, world) = follow_events self events w in
    let served : Option (Replicator × Scene) = elim snapshot [
      | none ↦ some world
      | some payload ↦ elim (apply read_json payload 0 world) [
        | none ↦ none
        | some (done, world') ↦ some world'
      ]
    ] in
    elim served [
      | none ↦ none
      | some world' ↦ elim (apply_states read_json s.peers world') [
        | none ↦ none
        | some (peers, world'') ↦ some (record s { peers = peers }, world'')
      ]
    ]

-- leave, up to the session's own: the loop disconnects the first peer until there is none.
unfoldable pub disconnect_all : Map PeerSlot → PeerSession → PeerSession
unfolding disconnect
disconnect_all [] s = s
disconnect_all ((id, _) ∷ peers) s = disconnect_all peers (disconnect id s)

unfoldable pub leave_peers : PeerSession → PeerSession
unfolding disconnect_all
leave_peers s = if s.left then s else disconnect_all s.peers (record s { left = true })
