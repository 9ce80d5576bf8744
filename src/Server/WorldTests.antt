-- ===== src/Server/WorldTests.antt =====
-- A run of applyClientStates: client 3 has sent an entity and left.
use gef_engine.Prelude.{◌≡◌, ◌≢◌, refl, [], ◌∷◌, none, some, find_key, arith}
use gef_engine.Codec.{
  put_bytes, put, to_bytes, get, reader, of_bytes, ◌>>=◌, return, get_bytes, get_run, at_end,
}
use gef_engine.Scene.{NetId, owner_of, Scene}
use gef_engine.Snapshot.{put_record, get_record, write_binary, read_binary}
use gef_engine.Replicator.{Replicator, replicator}
use gef_engine.Replicator.Receiving.{parse}
use gef_engine.Replicator.Tests.{scene, sent, no_json}
use gef_engine.Replicator.Applying.{IsWorld, Spares}
use gef_engine.Replicator.Dropped.{In}
use gef_engine.Server.{Server}
use gef_engine.Server.Tests.{one_client}
use gef_engine.Server.Methods.{drain_states}
use gef_engine.Server.World.{apply_client_states}
use gef_engine.Server.Applied.{states_count, apply_client_states_lem}

-- The server's replicator, whose scene has two entities without ids.
host-IsWorld : IsWorld (replicator 0) scene
unfolding find_key replicator
host-IsWorld = record {
  paired = record {
    back = λ id e h. absurd cc;
    forth = λ e id h. absurd cc;
    known = λ e id h. absurd cc;
    used = λ id e h o. absurd cc;
  };
  below = omega arith;
  remote = λ from. tt;
}

abbrev one_state : Server
one_state = record one_client {
  states = (3, record { from = 3; tick = 5; payload = write_binary (sent ∷ []) }) ∷ [];
}

sent_parsed : parse no_json (write_binary (sent ∷ [])) ≡ some (sent ∷ [])
unfolding parse write_binary read_binary put_record put_bytes put to_bytes get reader of_bytes
    get_record ◌>>=◌ return get_bytes get_run at_end
sent_parsed = refl

waiting : states_count no_json (drain_states one_state).1 ≡ 1
unfolding drain_states
waiting = rw sent_parsed refl

-- Client 3 goes between the two locks.
abbrev leaving : Server → Server
leaving s = record s { departed = 3 ∷ [] }

apply_client_states_lem_example :
    (server' : Server) × (q : Replicator) × (t : Scene) × (apply_client_states no_json leaving
        one_state
        (replicator 0, scene)
      ≡ some (server', (q, t)))
    × IsWorld q t
    × Spares (replicator 0) scene q t
    × (server'.departed ≡ [])
    × ((id : NetId)
        → owner_of id ≢ (replicator 0).self
        → In (owner_of id) (leaving (drain_states one_state).0).departed
        → find_key id q.entities ≡ none)
apply_client_states_lem_example =
    apply_client_states_lem no_json leaving one_state (replicator 0) scene host-IsWorld
      (omega (arith, waiting))
