-- ===== src/Replicator.antt =====
-- src/networking/sceneReplicator.cpp: sceneReplicator. The JSON format stands on a library, so what
-- writes and reads it is an argument. A set of ids is a map to nothing; a call that throws gives
-- `none`. Each owner has room for its local parts, as `track` asserts.
pub mod Encoding
pub mod Receiving
pub mod Paired
pub mod Binding
pub mod Applying
pub mod Records
pub mod Loop
pub mod Safety
pub mod Others
pub mod Shown
pub mod Sending
pub mod Mirror
pub mod Dropped
pub mod Spared
pub mod Calls
pub mod Histories
pub mod Tests
use gef_engine.Prelude.{
  ℕ, ◌+◌, ◌%◌, ◌^◌, Bool, true, false, not, ◌&&◌, ◌||◌, List, [], ◌∷◌, ◌++◌, Option, none, some,
  Map, find_key, put_key, erase_key, has_key, ltb, leb, ◌==◌, if◌then◌else◌,
}
use gef_engine.Prelude.MapLaws.{map_values}
use gef_engine.Codec.{Bytes}
use gef_engine.Protocol.{ClientId}
use gef_engine.Scene.{
  EntityId, NetId, make_net_id, owner_of, local_of, Scene, Shape, has_entity, create_entity,
  destroy_entity, set_transform, add_rigid_body, add_collider, add_shape, remove_rigid_body,
  remove_collider, remove_shape,
}
use gef_engine.Snapshot.{
  EntityRecord, blank_record, rigid_body_bit, collider_bit, shape_bit, extra_bit, has_bit,
  write_binary, read_binary,
}

abbrev pub IdSet : Type 0
IdSet = Map (Unit {0})

pub record Replicator : Type 0 where
  pub self : ClientId
  pub json : Bool
  pub next_local : ℕ
  pub entities : Map EntityId
  pub net_ids : Map NetId
  pub extras : Map Bytes
  pub received_from : Map IdSet

unfoldable pub replicator : ClientId → Replicator
replicator self = record {
  self = self;
  json = false;
  next_local = 0;
  entities = [];
  net_ids = [];
  extras = [];
  received_from = [];
}

-- The new pair of track.
unfoldable pub track_new : EntityId → Replicator → NetId × Replicator
track_new entity p =
    let id = make_net_id p.self p.next_local in
    (
      id,
      record p {
        next_local = (p.next_local + 1) % 2 ^ 32;
        entities = put_key id entity p.entities;
        net_ids = put_key entity id p.net_ids;
      },
    )

unfoldable pub track : EntityId → Replicator → NetId × Replicator
unfolding track_new
track entity p = elim (find_key entity p.net_ids) [ some id ↦ (id, p) | none ↦ track_new entity p ]

unfoldable pub untrack : EntityId → Replicator → Replicator
untrack entity p = elim (find_key entity p.net_ids) [
  | none ↦ p
  | some id ↦ record p {
    entities = erase_key id p.entities;
    extras = erase_key id p.extras;
    net_ids = erase_key entity p.net_ids;
  }
]

unfoldable pub set_extra : NetId → Bytes → Replicator → Replicator
set_extra id extra p = record p { extras = put_key id extra p.extras }

-- The two lookups of bind, which part the id and the entity from what they stood for.
unfoldable pub unbind_id : NetId → Replicator → Replicator
unbind_id id p = elim (find_key id p.entities) [
  | none ↦ p
  | some old ↦ record p { net_ids = erase_key old p.net_ids }
]

unfoldable pub unbind_entity : EntityId → Replicator → Replicator
unbind_entity entity p = elim (find_key entity p.net_ids) [
  | none ↦ p
  | some old ↦ record p { entities = erase_key old p.entities }
]

-- The end of bind.
unfoldable pub bind_pair : NetId → EntityId → Replicator → Replicator
bind_pair id entity p = record p {
  entities = put_key id entity p.entities;
  net_ids = put_key entity id p.net_ids;
  next_local =
      if owner_of id == p.self && leb p.next_local (local_of id)
      then local_of id + 1
      else p.next_local;
}

unfoldable pub bind : NetId → EntityId → Replicator → Replicator
unfolding unbind_id unbind_entity bind_pair
bind id entity p = bind_pair id entity (unbind_entity entity (unbind_id id p))

-- forget
unfoldable pub forget_entity : NetId → EntityId → Replicator × Scene → Replicator × Scene
forget_entity id entity (p, s) = (
  record p { net_ids = erase_key entity p.net_ids; entities = erase_key id p.entities },
  destroy_entity entity s,
)

unfoldable pub forget : NetId → Replicator × Scene → Replicator × Scene
unfolding forget_entity
forget id (p, s) =
    let gone : Replicator × Scene = elim (find_key id p.entities) [
      | none ↦ (p, s)
      | some entity ↦ forget_entity id entity (p, s)
    ] in
    (record gone.0 { extras = erase_key id gone.0.extras }, gone.1)
