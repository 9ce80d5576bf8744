-- ===== src/Replicator/Receiving.antt =====
-- src/networking/sceneReplicator.cpp: apply and dropOwner, which follow what other owners send.
use gef_engine.Prelude.{
  Bool, true, false, not, List, [], ◌∷◌, Option, none, some, Map, find_key, put_key, erase_key,
  has_key, ◌==◌, if◌then◌else◌,
}
use gef_engine.Prelude.MapLaws.{map_values}
use gef_engine.Codec.{Bytes}
use gef_engine.Protocol.{ClientId}
use gef_engine.Scene.{
  EntityId, NetId, owner_of, Scene, Shape, has_entity, create_entity, set_transform, add_rigid_body,
  add_collider, add_shape, remove_rigid_body, remove_collider, remove_shape,
}
use gef_engine.Snapshot.{
  EntityRecord, rigid_body_bit, collider_bit, shape_bit, extra_bit, has_bit, read_binary,
}
use gef_engine.Replicator.{IdSet, Replicator, forget}

-- A new entity for a remote id.
unfoldable pub spawn : NetId → Replicator × Scene → EntityId × (Replicator × Scene)
spawn id (p, s) =
    let (entity, t) = create_entity s in
    (
      entity,
      (
        record p { entities = put_key id entity p.entities; net_ids = put_key entity id p.net_ids },
        t,
      ),
    )

-- The entity that a record is applied to.
unfoldable pub entity_for : NetId → Replicator × Scene → EntityId × (Replicator × Scene)
unfolding spawn has_entity
entity_for id (p, s) = elim (find_key id p.entities) [
  | none ↦ spawn id (p, s)
  | some entity ↦
      if has_entity entity s
      then (entity, (p, s))
      else spawn id (record p { net_ids = erase_key entity p.net_ids }, s)
]

-- The shape of a record keeps the texture that the local shape has.
abbrev pub shape_of : EntityRecord → EntityId → Scene → Shape
shape_of r entity s = record {
  size = r.shape_size;
  color = r.shape_color;
  tiled = not (r.shape_tiled == 0);
  texture = elim (find_key entity s.shapes) [ none ↦ none | some local ↦ local.texture ];
}

infixl 5 ◌>>=◌
abbrev pub ◌>>=◌ : {A B : Type 0} → Option A → (A → Option B) → Option B
none >>= f = none
some a >>= f = f a

-- The components of a record, given to an entity.
unfoldable pub give_components : EntityRecord → EntityId → Scene → Option Scene
unfolding set_transform add_rigid_body add_collider add_shape remove_rigid_body remove_collider
    remove_shape has_bit
give_components r entity s = do
  moved ← set_transform entity r.transform s
  bodied ←
      if has_bit r.mask rigid_body_bit
      then add_rigid_body entity r.rigid_body moved
      else some (remove_rigid_body entity moved)
  collided ←
      if has_bit r.mask collider_bit
      then add_collider entity r.collider bodied
      else some (remove_collider entity bodied)
  if has_bit r.mask shape_bit
      then add_shape entity (shape_of r entity collided) collided
      else some (remove_shape entity collided)

unfoldable pub give_extra : EntityRecord → Replicator → Replicator
unfolding has_bit
give_extra r p = record p {
  extras =
      if has_bit r.mask extra_bit then put_key r.id r.extra p.extras else erase_key r.id p.extras;
}

-- The body of apply's loop, for a record of another owner.
unfoldable pub apply_record : EntityRecord → Replicator × Scene → Option (Replicator × Scene)
unfolding entity_for give_components give_extra
apply_record r world =
    let (entity, (p, s)) = entity_for r.id world in
    elim (give_components r entity s) [ none ↦ none | some t ↦ some (give_extra r p, t) ]

-- The loop, with the ids that it has seen.
unfoldable pub apply_records :
    List EntityRecord → IdSet → Replicator × Scene → Option (IdSet × (Replicator × Scene))
unfolding apply_record
apply_records [] seen world = some (seen, world)
apply_records (r ∷ rs) seen world =
    let own = apply_records rs seen world in
    let other : Option (IdSet × (Replicator × Scene)) = elim (apply_record r world) [
      | none ↦ none
      | some world' ↦ apply_records rs (put_key r.id tt seen) world'
    ] in
    if owner_of r.id == world.0.self then own else other

-- Entities received before that are not in the snapshot are destroyed.
unfoldable pub despawn : IdSet → IdSet → Replicator × Scene → Replicator × Scene
unfolding forget
despawn [] seen world = world
despawn ((id, _) ∷ previous) seen world =
    let kept = despawn previous seen world in
    let left = despawn previous seen (forget id world) in if has_key id seen then kept else left

abbrev pub ids_from : ClientId → Map IdSet → IdSet
ids_from from received = elim (find_key from received) [ none ↦ [] | some ids ↦ ids ]

-- apply behind the loop.
unfoldable pub settle : ClientId → IdSet → Replicator × Scene → Replicator × Scene
unfolding despawn
settle from seen (p, s) =
    let (q, t) = despawn (ids_from from p.received_from) seen (p, s) in
    (record q { received_from = put_key from seen q.received_from }, t)

-- The snapshot's records: JSON starts with `{`.
unfoldable pub parse : (Bytes → Option (List EntityRecord)) → Bytes → Option (List EntityRecord)
parse read_json [] = read_binary []
parse read_json (b ∷ bs) = if b == b'{' then read_json (b ∷ bs) else read_binary (b ∷ bs)

-- apply: `false` for a malformed snapshot; `none` where it throws.
unfoldable pub apply :
    (Bytes → Option (List EntityRecord))
    → Bytes
    → ClientId
    → Replicator × Scene
    → Option (Bool × (Replicator × Scene))
unfolding parse apply_records settle
apply read_json snapshot from world = elim (parse read_json snapshot) [
  | none ↦ some (false, world)
  | some records ↦ elim (apply_records records [] world) [
    | none ↦ none
    | some (seen, world') ↦ some (true, settle from seen world')
  ]
]

-- The ids of dropOwner's first loop.
unfoldable pub owned_by : ClientId → Map EntityId → List NetId
owned_by owner [] = []
owned_by owner ((id, _) ∷ m) =
    let rest = owned_by owner m in if owner_of id == owner then id ∷ rest else rest

unfoldable pub drop_each : List NetId → Replicator × Scene → Replicator × Scene
unfolding forget
drop_each [] world = world
drop_each (id ∷ ids) world =
    let (p, s) = forget id world in
    drop_each ids (record p { received_from = map_values (erase_key id) p.received_from }, s)

unfoldable pub drop_owner : ClientId → Replicator × Scene → Replicator × Scene
unfolding owned_by drop_each
drop_owner owner (p, s) =
    if owner == p.self
    then (p, s)
    else let (q, t) = drop_each (owned_by owner p.entities) (p, s) in
      (record q { received_from = erase_key owner q.received_from }, t)
