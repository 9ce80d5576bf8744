-- ===== src/Replicator/Histories.antt =====
-- Every history of a replicator and the scene that it works on.
use gef_engine.Prelude.{
  ◌+◌, ◌^◌, ◌<◌, ◌≤◌, ◌≡◌, subst, Bool, List, Option, some, find_key, length, arith,
}
use gef_engine.Prelude.MapLaws.{erase-Under}
use gef_engine.Codec.{Bytes}
use gef_engine.Protocol.{ClientId}
use gef_engine.Scene.{EntityId, NetId, Scene, empty_scene, create_entity, destroy_entity}
use gef_engine.Snapshot.{EntityRecord}
use gef_engine.Replicator.{Replicator, replicator, track, untrack, set_extra, bind}
use gef_engine.Replicator.Receiving.{drop_owner, parse, apply}
use gef_engine.Replicator.Binding.{bind-IsPaired}
use gef_engine.Replicator.Paired.{track-IsPaired, untrack-IsPaired}
use gef_engine.Replicator.Calls.{
  repaired, track-SameBase, untrack-SameBase, bind-SameBase, drop_owner-IsWorld, create-IsWorld,
}
use gef_engine.Replicator.Applying.{IsWorld}
use gef_engine.Replicator.Safety.{apply-Spares}

abbrev pub World : Type 0
World = Replicator × Scene

-- The calls of a game, with what they ask of it: entities that the scene made, local parts and
-- entity ids that do not run out.
pub data Step (read_json : Bytes → Option (List EntityRecord)) : World → World → Type 0 where
  create :
      (p : Replicator) (s : Scene)
      → s.next_id + 1 < 2 ^ 32
      → Step read_json (p, s) (p, (create_entity s).1)
  destroy :
      (p : Replicator) (s : Scene) (e : EntityId) → Step read_json (p, s) (p, destroy_entity e s)
  tracks :
      (p : Replicator) (s : Scene) (e : EntityId)
      → p.self ≤ 255
      → p.next_local < 2 ^ 24
      → e < s.next_id
      → Step read_json (p, s) ((track e p).1, s)
  untracks : (p : Replicator) (s : Scene) (e : EntityId) → Step read_json (p, s) (untrack e p, s)
  binds :
      (p : Replicator) (s : Scene) (id : NetId) (e : EntityId)
      → e < s.next_id
      → Step read_json (p, s) (bind id e p, s)
  extra :
      (p : Replicator) (s : Scene) (id : NetId) (bytes : Bytes)
      → Step read_json (p, s) (set_extra id bytes p, s)
  receives :
      (p q : Replicator) (s t : Scene) (snapshot : Bytes) (from : ClientId) (done : Bool)
      → ((rs : List EntityRecord)
          → parse read_json snapshot ≡ some rs
          → s.next_id + length rs < 2 ^ 32)
      → apply read_json snapshot from (p, s) ≡ some (done, (q, t))
      → Step read_json (p, s) (q, t)
  drops :
      (p : Replicator) (s : Scene) (owner : ClientId)
      → Step read_json (p, s) (drop_owner owner (p, s))

pub data Reach (read_json : Bytes → Option (List EntityRecord)) (w : World) : World → Type 0 where
  start : Reach read_json w w
  next : {x y : World} → Reach read_json w x → Step read_json x y → Reach read_json w y

Step-IsWorld :
    (read_json : Bytes → Option (List EntityRecord)) {x y : World}
    → Step read_json x y
    → IsWorld x.0 x.1
    → IsWorld y.0 y.1
unfolding set_extra destroy_entity
Step-IsWorld read_json (create p s room) w = create-IsWorld p s room w
Step-IsWorld read_json (destroy p s e) w = record {
  paired = record {
    back = w.paired.back;
    forth = w.paired.forth;
    known = w.paired.known;
    used = w.paired.used;
  };
  below = erase-Under s.next_id e s.transforms w.below;
  remote = w.remote;
}
Step-IsWorld read_json (tracks p s e own room lt) w =
    repaired p (track e p).1 s (track-SameBase e p) (track-IsPaired p s e own room lt w.paired) w
Step-IsWorld read_json (untracks p s e) w =
    repaired p (untrack e p) s (untrack-SameBase e p) (untrack-IsPaired p s e w.paired) w
Step-IsWorld read_json (binds p s id e lt) w =
    repaired p (bind id e p) s (bind-SameBase id e p) (bind-IsPaired p s id e lt w.paired) w
Step-IsWorld read_json (extra p s id bytes) w = record {
  paired = record {
    back = w.paired.back;
    forth = w.paired.forth;
    known = w.paired.known;
    used = w.paired.used;
  };
  below = w.below;
  remote = w.remote;
}
Step-IsWorld read_json (receives p q s t snapshot from done room e) w =
    let a = apply-Spares read_json snapshot from p s w room in
    let same : ◌≡◌ {A = World} (a.1, a.2) (q, t) = ground (arith, a.3, e) in
    subst (λ (x : World). IsWorld x.0 x.1) same a.4
Step-IsWorld read_json (drops p s owner) w = drop_owner-IsWorld owner p s w

-- Whatever calls a game makes of a new replicator whose id is at most 255 when it tracks, and of an
-- empty scene, tracking and binding only entities that the scene has made, and whatever snapshots
-- come in, as long as entity ids and local parts do not run out: the maps from ids to entities and back are
-- inverse to each other, an id of this owner's in use is never handed out again, entities with an
-- id are of this scene, and only ids of other owners are on record as received.
pub Reach-IsWorld :
    (read_json : Bytes → Option (List EntityRecord)) (self : ClientId) (w : World)
    → Reach read_json (replicator self, empty_scene) w
    → IsWorld w.0 w.1
unfolding replicator empty_scene find_key
Reach-IsWorld read_json self w start = record {
  paired = record {
    back = λ id e h. absurd cc;
    forth = λ e id h. absurd cc;
    known = λ e id h. absurd cc;
    used = λ id e h o. absurd cc;
  };
  below = tt;
  remote = λ from. tt;
}
Reach-IsWorld read_json self w (next {x} r step) =
    Step-IsWorld read_json step (Reach-IsWorld read_json self x r)
