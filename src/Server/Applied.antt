-- ===== src/Server/Applied.antt =====
-- src/networking/sessionServer.cpp: what applyClientStates makes of the server's scene.
use gef_engine.Prelude.{
  ℕ, ◌+◌, ◌^◌, ◌<◌, ◌≤◌, ◌≡◌, ◌≢◌, refl, ◌∙◌, inl, inr, List, [], ◌∷◌, Option, none, some, find_key,
  arith, ap,
}
use gef_engine.Codec.{Bytes}
use gef_engine.Protocol.{ReceivedState, ClientId}
use gef_engine.Scene.{NetId, owner_of, Scene}
use gef_engine.Snapshot.{EntityRecord}
use gef_engine.Replicator.{Replicator}
use gef_engine.Replicator.Receiving.{parse, drop_owner}
use gef_engine.Replicator.Applying.{IsWorld, Spares, Spares-refl, Spares-trans}
use gef_engine.Replicator.Safety.{apply-Spares}
use gef_engine.Replicator.Calls.{drop_owner-IsWorld}
use gef_engine.Replicator.Spared.{record_count, apply_within, drop_owner-Spares}
use gef_engine.Replicator.Dropped.{In, drop_owner-gone, drop_owner-none, drop_owner-self}
use gef_engine.Server.{Server}
use gef_engine.Server.Methods.{drain_states, take_departed}
use gef_engine.Server.World.{apply_each, drop_owners, apply_client_states}

-- The entities that the waiting states can ask for.
abbrev pub states_count : (Bytes → Option (List EntityRecord)) → List ReceivedState → ℕ
states_count read_json [] = 0
states_count read_json (state ∷ states) =
    record_count (parse read_json state.payload) + states_count read_json states

apply_each_lem :
    (read_json : Bytes → Option (List EntityRecord)) (states : List ReceivedState) (p : Replicator)
    (s : Scene)
    → IsWorld p s
    → s.next_id + states_count read_json states < 2 ^ 32
    → (q : Replicator) × (t : Scene) × (apply_each read_json states (p, s) ≡ some (q, t))
      × IsWorld q t
      × Spares p s q t
unfolding apply_each
apply_each_lem read_json [] p s w room = (p, s, refl, w, Spares-refl p s)
apply_each_lem read_json (state ∷ states) p s w room =
    let n = record_count (parse read_json state.payload) in
    let a =
      apply-Spares read_json state.payload state.from p s w
        (λ rs e. omega (arith, room, ap record_count e)) in
    let b = apply_within read_json state.payload state.from p s w (omega arith) in
    let few : a.2.next_id ≤ s.next_id + n = ground (arith, a.3, b.3, b.4) in
    let rest = apply_each_lem read_json states a.1 a.2 a.4 (omega (arith, few, room)) in
    (rest.0, rest.1, rw (a.3, apply_each) rest.2, rest.3, Spares-trans a.5 rest.4)

drop_owners-Spares :
    (ids : List ClientId) (p : Replicator) (s : Scene)
    → IsWorld p s
    → IsWorld (drop_owners ids (p, s)).0 (drop_owners ids (p, s)).1
      × Spares p s (drop_owners ids (p, s)).0 (drop_owners ids (p, s)).1
unfolding drop_owners
drop_owners-Spares [] p s w = (w, Spares-refl p s)
drop_owners-Spares (id ∷ ids) p s w =
    let next = drop_owner id (p, s) in
    let rest = drop_owners-Spares ids next.0 next.1 (drop_owner-IsWorld id p s w) in
    (rest.0, Spares-trans (drop_owner-Spares id p s w) rest.1)

drop_owners-none :
    (i : NetId) (ids : List ClientId) (p : Replicator) (s : Scene)
    → find_key i p.entities ≡ none
    → find_key i (drop_owners ids (p, s)).0.entities ≡ none
unfolding drop_owners
drop_owners-none i [] p s h = h
drop_owners-none i (id ∷ ids) p s h =
    drop_owners-none i ids (drop_owner id (p, s)).0 (drop_owner id (p, s)).1
      (drop_owner-none i id p s h)

drop_owners-gone :
    (i : NetId) (ids : List ClientId) (p : Replicator) (s : Scene)
    → owner_of i ≢ p.self
    → In (owner_of i) ids
    → find_key i (drop_owners ids (p, s)).0.entities ≡ none
unfolding drop_owners
drop_owners-gone i [] p s other h = absurd h
drop_owners-gone i (id ∷ ids) p s other (inl e) =
    drop_owners-none i ids (drop_owner id (p, s)).0 (drop_owner id (p, s)).1
      (drop_owner-gone i id p s (λ own. other (e ∙ own)) e)
drop_owners-gone i (id ∷ ids) p s other (inr h) =
    drop_owners-gone i ids (drop_owner id (p, s)).0 (drop_owner id (p, s)).1
      (λ own. other (own ∙ drop_owner-self id p s)) h

-- On a replicator and a scene that belong together, with entity ids left for all that the waiting
-- states hold, whatever other threads do to the server between the two locks: applyClientStates
-- does not throw. Replicator and scene still belong together, the server's own entities and those
-- without an id are untouched, the list of departed clients is taken, and no id of a client on it,
-- unless that is the replicator's own owner, stands for an entity any more.
pub apply_client_states_lem :
    (read_json : Bytes → Option (List EntityRecord)) (between : Server → Server) (server : Server)
    (p : Replicator) (s : Scene)
    → IsWorld p s
    → s.next_id + states_count read_json (drain_states server).1 < 2 ^ 32
    → (server' : Server) × (q : Replicator) × (t : Scene) × (apply_client_states read_json between
          server
          (p, s)
        ≡ some (server', (q, t)))
      × IsWorld q t
      × Spares p s q t
      × (server'.departed ≡ [])
      × ((id : NetId)
          → owner_of id ≢ p.self
          → In (owner_of id) (between (drain_states server).0).departed
          → find_key id q.entities ≡ none)
unfolding apply_client_states take_departed
apply_client_states_lem read_json between server p s w room =
    let a = apply_each_lem read_json (drain_states server).1 p s w room in
    let taken = take_departed (between (drain_states server).0) in
    let b = drop_owners-Spares taken.1 a.0 a.1 a.3 in
    (
      taken.0,
      (drop_owners taken.1 (a.0, a.1)).0,
      (drop_owners taken.1 (a.0, a.1)).1,
      rw (a.2, apply_client_states) refl,
      b.0,
      Spares-trans a.4 b.1,
      refl,
      λ id other h. drop_owners-gone id taken.1 a.0 a.1 (λ own. other (own ∙ a.4.self)) h,
    )
