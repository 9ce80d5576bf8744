-- ===== src/Replicator/Records.antt =====
-- src/networking/sceneReplicator.cpp: what a record of another owner does.
use gef_engine.Prelude.{
  ◌+◌, ◌^◌, ◌<◌, ◌≤◌, ◌≡◌, ◌≢◌, refl, sym, subst, ◌∙◌, inl, inr, true, none, some, find_key,
  put_key, erase_key, has_key, Under, arith, Bool-cases, Option-cases,
}
use gef_engine.Prelude.MapLaws.{find-put, find-erase, put-Under, Under-mono}
use gef_engine.Scene.{
  EntityId, NetId, owner_of, Scene, default_transform, has_entity, create_entity,
}
use gef_engine.Snapshot.{EntityRecord}
use gef_engine.Replicator.{Replicator}
use gef_engine.Replicator.Receiving.{spawn, entity_for, shape_of, give_extra, apply_record}
use gef_engine.Replicator.Paired.{
  spawn-IsPaired, erase_pair-IsPaired, replaced-IsPaired, put_over_erase,
}
use gef_engine.Replicator.Applying.{
  IsWorld, Spares, IsLocal, Spares-refl, Spares-trans, spawn-Spares, born, given,
  give_components_lem,
}

-- What the loop needs of the entity that it finds or makes for an id.
pub record IsFound (id : NetId) (p : Replicator) (s : Scene) (out : EntityId × (Replicator × Scene))
    : Type 0 where
  pub world : IsWorld out.1.0 out.1.1
  pub spares : Spares p s out.1.0 out.1.1
  pub there : has_key out.0 out.1.1.transforms ≡ true
  pub bound : find_key id out.1.0.entities ≡ some out.0
  pub few : out.1.1.next_id ≤ s.next_id + 1

module _ (id : NetId) (p : Replicator) (s : Scene) (other : owner_of id ≢ p.self)
    (room : s.next_id + 1 < 2 ^ 32) (w : IsWorld p s) where
  spawn-below : Under (spawn id (p, s)).1.1.next_id (spawn id (p, s)).1.1.transforms
  unfolding spawn
  spawn-below =
      subst (λ (t : Scene). Under t.next_id t.transforms) (sym (born id p s other room w))
        (put-Under (s.next_id + 1) s.next_id default_transform s.transforms
          (Under-mono s.next_id (s.next_id + 1) s.transforms w.below (omega arith)) (omega arith))

  spawn-there : has_key s.next_id (spawn id (p, s)).1.1.transforms ≡ true
  unfolding spawn
  spawn-there =
      subst (λ (t : Scene). has_key s.next_id t.transforms ≡ true) (sym (born id p s other room w))
        (ground (arith, find-put s.next_id s.next_id default_transform s.transforms))

  spawn-few : (spawn id (p, s)).1.1.next_id ≤ s.next_id + 1
  unfolding spawn create_entity
  spawn-few = omega arith

  spawn-IsFound : find_key id p.entities ≡ none → IsFound id p s (spawn id (p, s))
  unfolding spawn create_entity
  spawn-IsFound absent = record {
    world = record {
      paired = spawn-IsPaired id p s other w.below room w.paired absent;
      below = spawn-below;
      remote = w.remote;
    };
    spares = spawn-Spares id p s other room w;
    there = spawn-there;
    bound = ground (arith, find-put id id s.next_id p.entities);
    few = spawn-few;
  }

-- The entity that an id stood for is not there any more.
respawn-IsFound :
    (id : NetId) (entity : EntityId) (p : Replicator) (s : Scene)
    → owner_of id ≢ p.self
    → s.next_id + 1 < 2 ^ 32
    → IsWorld p s
    → find_key id p.entities ≡ some entity
    → IsFound id p s (spawn id (record p { net_ids = erase_key entity p.net_ids }, s))
unfolding spawn create_entity
respawn-IsFound id entity p s other room w taken =
    let q : Replicator = record p {
      entities = erase_key id p.entities;
      net_ids = erase_key entity p.net_ids;
    } in
    let wq : IsWorld q s = record {
      paired = erase_pair-IsPaired p s w.paired id entity taken;
      below = w.below;
      remote = w.remote;
    } in
    let found = spawn-IsFound id q s other room wq (ground (arith, find-erase id id p.entities)) in
    let n = s.next_id in
    record {
      world = record {
        paired =
            replaced-IsPaired (spawn id (q, s)).1.0 (spawn id (q, s)).1.1 found.world.paired
              (put_key id n p.entities) (λ i. put_over_erase i id n p.entities);
        below = found.world.below;
        remote = w.remote;
      };
      spares = record {
        self = refl;
        later = found.spares.later;
        own = λ i o. ground (arith, o, find-put i id n p.entities);
        still = λ k lt l i e. l i (
            ground (
              arith,
              e,
              find-put k n id (erase_key entity p.net_ids),
              find-erase k entity p.net_ids,
            ));
        kept = λ k lt l.
            found.spares.kept k lt (λ i e. l i (ground (arith, e, find-erase k entity p.net_ids)));
      };
      there = found.there;
      bound = ground (arith, find-put id id n p.entities);
      few = found.few;
    }

pub entity_for-IsFound :
    (id : NetId) (p : Replicator) (s : Scene)
    → owner_of id ≢ p.self
    → s.next_id + 1 < 2 ^ 32
    → IsWorld p s
    → IsFound id p s (entity_for id (p, s))
unfolding entity_for has_entity
entity_for-IsFound id p s other room w = elim (Option-cases (find_key id p.entities)) [
  | inl e ↦ rw (e, entity_for) (spawn-IsFound id p s other room w e)
  | inr (entity, e) ↦ elim (Bool-cases (has_key entity s.transforms)) [
    | inl there ↦
        rw (e, there, entity_for)
          (record {
            world = w;
            spares = Spares-refl p s;
            there = there;
            bound = e;
            few = omega arith;
          })
    | inr gone ↦ rw (e, gone, entity_for) (respawn-IsFound id entity p s other room w e)
  ]
]

-- A record of another owner is applied without a throw.
pub record IsApplied (p : Replicator) (s : Scene) (q : Replicator) (t : Scene) : Type 0 where
  pub world : IsWorld q t
  pub spares : Spares p s q t
  pub few : t.next_id ≤ s.next_id + 1

pub given-IsApplied :
    (r : EntityRecord) (entity : EntityId) (p : Replicator) (s : Scene)
    → owner_of r.id ≢ p.self
    → IsWorld p s
    → find_key r.id p.entities ≡ some entity
    → IsApplied p s (give_extra r p) (given r entity s)
unfolding give_extra
given-IsApplied r entity p s other w bound =
    let back = w.paired.back r.id entity bound in
    let away : (k : EntityId) → IsLocal k p → k ≢ entity =
      λ k l e. other (l r.id (ground (arith, e, back))) in
    record {
      world = record {
        paired = record {
          back = w.paired.back;
          forth = w.paired.forth;
          known = w.paired.known;
          used = w.paired.used;
        };
        below =
            put-Under s.next_id entity r.transform s.transforms w.below
              (w.paired.known entity r.id back);
        remote = w.remote;
      };
      spares = record {
        self = refl;
        later = omega arith;
        own = λ i o. refl;
        still = λ k lt l. l;
        kept = λ k lt l. record {
          transform = ground (arith, away k l, find-put k entity r.transform s.transforms);
          body = ground (
            arith,
            away k l,
            find-put k entity r.rigid_body s.rigid_bodies,
            find-erase k entity s.rigid_bodies,
          );
          collider = ground (
            arith,
            away k l,
            find-put k entity r.collider s.colliders,
            find-erase k entity s.colliders,
          );
          shape = ground (
            arith,
            away k l,
            find-put k entity (shape_of r entity s) s.shapes,
            find-erase k entity s.shapes,
          );
          other = λ type. refl;
        };
      };
      few = omega arith;
    }

pub apply_record_lem :
    (r : EntityRecord) (p : Replicator) (s : Scene)
    → owner_of r.id ≢ p.self
    → s.next_id + 1 < 2 ^ 32
    → IsWorld p s
    → (q : Replicator) × (t : Scene) × (apply_record r (p, s) ≡ some (q, t)) × IsApplied p s q t
unfolding apply_record
apply_record_lem r p s other room w =
    let out = entity_for r.id (p, s) in
    let f = entity_for-IsFound r.id p s other room w in
    let q = out.1.0 in
    let t = out.1.1 in
    let a = given-IsApplied r out.0 q t (λ e. other (e ∙ f.spares.self)) f.world f.bound in
    (
      give_extra r q,
      given r out.0 t,
      rw (give_components_lem r out.0 t f.there, apply_record),
      record { world = a.world; spares = Spares-trans f.spares a.spares; few = f.few },
    )
