-- ===== src/Replicator/Encoding.antt =====
-- src/networking/sceneReplicator.cpp: encode, from the tracked entities to records.
use gef_engine.Prelude.{
  ◌+◌, Bool, not, ◌&&◌, List, [], ◌∷◌, Option, none, some, Map, find_key, ◌==◌, if◌then◌else◌,
}
use gef_engine.Codec.{Bytes}
use gef_engine.Scene.{EntityId, NetId, owner_of, Scene}
use gef_engine.Snapshot.{
  EntityRecord, blank_record, rigid_body_bit, collider_bit, shape_bit, extra_bit, write_binary,
}
use gef_engine.Replicator.{Replicator}

-- The parts of a record for the components that an entity has.
unfoldable pub record_body : EntityId → Scene → EntityRecord → EntityRecord
record_body entity s r = elim (find_key entity s.rigid_bodies) [
  | none ↦ r
  | some body ↦ record r { mask = r.mask + rigid_body_bit; rigid_body = body }
]

unfoldable pub record_collider : EntityId → Scene → EntityRecord → EntityRecord
record_collider entity s r = elim (find_key entity s.colliders) [
  | none ↦ r
  | some collider ↦ record r { mask = r.mask + collider_bit; collider = collider }
]

unfoldable pub record_shape : EntityId → Scene → EntityRecord → EntityRecord
record_shape entity s r = elim (find_key entity s.shapes) [
  | none ↦ r
  | some shape ↦ record r {
    mask = r.mask + shape_bit;
    shape_size = shape.size;
    shape_color = shape.color;
    shape_tiled = if shape.tiled then 1 else 0;
  }
]

unfoldable pub record_extra : NetId → Replicator → EntityRecord → EntityRecord
record_extra id p r = elim (find_key id p.extras) [
  | none ↦ r
  | some extra ↦ record r { mask = r.mask + extra_bit; extra = extra }
]

-- The body of encode's loop: `none` for an entity that is passed over. Each bit is set once, so `|=`
-- adds it.
unfoldable pub record_of : Bool → NetId → EntityId → Replicator → Scene → Option EntityRecord
unfolding record_body record_collider record_shape record_extra blank_record
record_of owned_only id entity p s =
    if owned_only && not (owner_of id == p.self)
    then none
    else (elim (find_key entity s.transforms) [
      | none ↦ none
      | some transform ↦ some (
          record_extra id p (
            record_shape entity s (
              record_collider entity s
                (record_body entity s (record blank_record { id = id; transform = transform })))))
    ])

unfoldable pub collect : Bool → Map EntityId → Replicator → Scene → List EntityRecord
unfolding record_of
collect owned_only [] p s = []
collect owned_only ((id, entity) ∷ m) p s =
    let rest = collect owned_only m p s in
    elim (record_of owned_only id entity p s) [ none ↦ rest | some r ↦ r ∷ rest ]

-- encode: encodeOwned with `true`, encodeAll with `false`.
unfoldable pub encode : (List EntityRecord → Bytes) → Bool → Replicator → Scene → Bytes
unfolding collect
encode write_json owned_only p s =
    let records = collect owned_only p.entities p s in
    if p.json then write_json records else write_binary records
