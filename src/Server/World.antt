-- ===== src/Server/World.antt =====
-- src/networking/sessionServer.cpp: applyClientStates, on the server's replicator and scene.
use gef_engine.Prelude.{List, [], ◌∷◌, Option, none, some}
use gef_engine.Codec.{Bytes}
use gef_engine.Protocol.{ClientId, ReceivedState}
use gef_engine.Scene.{Scene}
use gef_engine.Snapshot.{EntityRecord}
use gef_engine.Replicator.{Replicator}
use gef_engine.Replicator.Receiving.{apply, drop_owner}
use gef_engine.Server.{Server}
use gef_engine.Server.Methods.{drain_states, take_departed}

-- Its first loop; `none` where applying a state throws.
unfoldable pub apply_each :
    (Bytes → Option (List EntityRecord))
    → List ReceivedState
    → Replicator × Scene
    → Option (Replicator × Scene)
apply_each read_json [] world = some world
apply_each read_json (state ∷ states) world =
    elim (apply read_json state.payload state.from world) [
      | none ↦ none
      | some (done, world') ↦ apply_each read_json states world'
    ]

unfoldable pub drop_owners : List ClientId → Replicator × Scene → Replicator × Scene
drop_owners [] world = world
drop_owners (id ∷ ids) world = drop_owners ids (drop_owner id world)

-- `between` is what the other threads do to the server while no lock is held.
unfoldable pub apply_client_states :
    (Bytes → Option (List EntityRecord))
    → (Server → Server)
    → Server
    → Replicator × Scene
    → Option (Server × (Replicator × Scene))
unfolding apply_each drop_owners drain_states take_departed
apply_client_states read_json between s world =
    elim (apply_each read_json (drain_states s).1 world) [
      | none ↦ none
      | some world' ↦
          let taken = take_departed (between (drain_states s).0) in
          some (taken.0, drop_owners taken.1 world')
    ]
