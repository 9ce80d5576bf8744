-- ===== src/Replicator/Tests.antt =====
-- Runs of a replicator.
use gef_engine.Prelude.{
  ◌≡◌, refl, ◌⊎◌, Bool, true, false, List, [], ◌∷◌, Option, none, some, find_key, arith, All,
  length, sym, ap, subst,
}
use gef_engine.Codec.{
  Bytes, put_bytes, put, to_bytes, get, reader, of_bytes, ◌>>=◌, return, get_bytes, get_run, at_end,
}
use gef_engine.Scene.{
  Scene, empty_scene, create_entity, default_transform, owner_of, local_of, zero_vec, default_color,
  NetId, EntityId, Transform,
}
use gef_engine.Snapshot.{EntityRecord, has_bit, put_record, get_record, write_binary, read_binary}
use gef_engine.Snapshot.Tests.{plain, full}
use gef_engine.Replicator.{Replicator, replicator, track, bind}
use gef_engine.Replicator.Encoding.{collect, encode}
use gef_engine.Replicator.Receiving.{drop_owner, parse, apply}
use gef_engine.Replicator.Histories.{Reach-IsWorld, start, next, create, tracks, binds, drops}
use gef_engine.Replicator.Applying.{IsWorld, Spares}
use gef_engine.Replicator.Safety.{apply-Spares}
use gef_engine.Replicator.Sending.{Mirrored}
use gef_engine.Replicator.Mirror.{apply-encode_owned}
use gef_engine.Snapshot.RoundTrip.{RecordFits}

-- Client 2, whose entity 1 has its id 0, in a scene with one more entity.
abbrev pub second : Replicator
second = record {
  self = 2;
  json = false;
  next_local = 1;
  entities = (33554432, 1) ∷ [];
  net_ids = (1, 33554432) ∷ [];
  extras = [];
  received_from = [];
}

abbrev pub scene : Scene
scene = record {
  next_id = 3;
  transforms = (1, default_transform) ∷ (2, default_transform) ∷ [];
  rigid_bodies = [];
  colliders = [];
  shapes = [];
  others = [];
}

second-IsWorld : IsWorld second scene
unfolding find_key owner_of local_of
second-IsWorld = record {
  paired = record {
    back = λ id e h. ground arith;
    forth = λ e id h. ground arith;
    known = λ e id h. ground arith;
    used = λ id e h o. ground arith;
  };
  below = omega arith;
  remote = λ from. tt;
}

-- What reads JSON, where none comes.
abbrev pub no_json : Bytes → Option (List EntityRecord)
no_json bytes = none

abbrev two : List EntityRecord
two = plain ∷ full ∷ []

two_parsed : parse no_json (write_binary two) ≡ some two
unfolding parse write_binary read_binary put_record put_bytes put to_bytes get reader of_bytes
    get_record ◌>>=◌ return get_bytes get_run at_end
two_parsed = refl

apply-Spares_example :
    (done : Bool) × (q : Replicator) × (t : Scene) × (apply no_json
        (write_binary two)
        0
        (second, scene)
      ≡ some (done, (q, t)))
    × IsWorld q t
    × Spares second scene q t
    × (((done ≡ false) × (parse no_json (write_binary two) ≡ none) × (q ≡ second) × (t ≡ scene))
        ⊎ ((done ≡ true)
            × ((rs : List EntityRecord) × (parse no_json (write_binary two) ≡ some rs))))
apply-Spares_example =
    apply-Spares no_json (write_binary two) 0 second scene second-IsWorld
      (λ rs h. ground (arith, two_parsed, h))

-- An entity is created and tracked, then another that is bound, and then client 3's are dropped.
abbrev begun : Replicator × Scene
begun = (replicator 2, (create_entity (create_entity empty_scene).1).1)

abbrev tracked : Replicator
tracked = (track 1 begun.0).1

abbrev ended : Replicator × Scene
ended = drop_owner 3 (bind 50331648 2 tracked, begun.1)

Reach-IsWorld_example : IsWorld ended.0 ended.1
unfolding replicator create_entity empty_scene bind track
Reach-IsWorld_example = Reach-IsWorld no_json 2 ended (
    next
      (next
        (next
          (next (next start (create (replicator 2) empty_scene (omega arith)))
            (create (replicator 2) (create_entity empty_scene).1 (omega arith)))
          (tracks begun.0 begun.1 1 (omega arith) (omega arith) (omega arith)))
        (binds tracked begun.1 50331648 2 (omega arith)))
      (drops (bind 50331648 2 tracked) begun.1 3))

-- Client 3, whose entity 4 falls and is square, under its id 1.
abbrev third : Replicator
third = record second { self = 3; entities = (50331649, 4) ∷ []; net_ids = (4, 50331649) ∷ [] }

abbrev third_scene : Scene
third_scene = record scene {
  next_id = 5;
  transforms = (4, default_transform) ∷ [];
  rigid_bodies = (4, record { velocity = record { x = 7; y = 8 } }) ∷ [];
  shapes =
      (4, record { size = zero_vec; color = default_color; texture = none; tiled = true }) ∷ [];
}

abbrev pub sent : EntityRecord
sent = record plain {
  id = 50331649;
  mask = 5;
  rigid_body = record { velocity = record { x = 7; y = 8 } };
  shape_tiled = 1;
}

sent-Fits : RecordFits sent
unfolding has_bit
sent-Fits = record {
  id = omega arith;
  mask = omega arith;
  position = omega arith;
  scale = omega arith;
  velocity = omega arith;
  size = omega arith;
  shape_size = omega arith;
  shape_color = omega arith;
  shape_tiled = omega arith;
  extra = omega arith;
  no_body = λ e. absurd cc;
  no_collider = λ e. refl;
  no_size = λ e. refl;
  no_color = λ e. refl;
  no_tiled = λ e. absurd cc;
  no_extra = λ e. refl;
}

third_sends : collect true third.entities third third_scene ≡ sent ∷ []
unfolding collect find_key owner_of
third_sends = refl

apply-encode_owned_example :
    (q : Replicator) × (t : Scene) × (apply no_json
        (encode write_binary true third third_scene)
        3
        (second, scene)
      ≡ some (true, (q, t)))
    × ((id : NetId) (entity : EntityId) (x : Transform)
        → find_key id third.entities ≡ some entity
        → owner_of id ≡ 3
        → find_key entity third_scene.transforms ≡ some x
        → Mirrored id entity third third_scene q t)
apply-encode_owned_example =
    apply-encode_owned write_binary no_json third third_scene second scene refl
      (λ e. absurd (omega (arith, e))) (omega arith, tt)
      (subst (All RecordFits) (sym third_sends) (sent-Fits, tt))
      (omega (arith, ap length third_sends)) second-IsWorld
