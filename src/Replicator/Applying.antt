-- ===== src/Replicator/Applying.antt =====
-- What apply does to a replicator and its scene.
use gef_engine.Prelude.{
  ℕ, ◌+◌, ◌^◌, ◌<◌, ◌≤◌, ◌≡◌, ◌≢◌, refl, sym, ap, ◌∙◌, inl, inr, true, [], ◌∷◌, some, find_key,
  put_key, erase_key, has_key, Under, arith, Option-cases, if◌then◌else◌,
}
use gef_engine.Prelude.MapLaws.{find-put, find-erase, find_over}
use gef_engine.Protocol.{ClientId}
use gef_engine.Scene.{
  EntityId, NetId, owner_of, Scene, default_transform, has_entity, store_of, create_entity,
  destroy_entity,
}
use gef_engine.Scene.Sound.{create_entity_lem, store_of-erase}
use gef_engine.Snapshot.{EntityRecord, has_bit}
use gef_engine.Replicator.{Replicator, IdSet, forget_entity, forget}
use gef_engine.Replicator.Receiving.{spawn, shape_of, give_components, ids_from}
use gef_engine.Replicator.Paired.{IsPaired}

-- The scene once the components of a record are given to an entity that is there.
abbrev pub given : EntityRecord → EntityId → Scene → Scene
given r entity s = record s {
  transforms = put_key entity r.transform s.transforms;
  rigid_bodies =
      if has_bit r.mask 1
      then put_key entity r.rigid_body s.rigid_bodies
      else erase_key entity s.rigid_bodies;
  colliders =
      if has_bit r.mask 2
      then put_key entity r.collider s.colliders
      else erase_key entity s.colliders;
  shapes =
      if has_bit r.mask 4
      then put_key entity (shape_of r entity s) s.shapes
      else erase_key entity s.shapes;
}

pub give_components_lem :
    (r : EntityRecord) (entity : EntityId) (s : Scene)
    → has_key entity s.transforms ≡ true
    → give_components r entity s ≡ some (given r entity s)
unfolding give_components has_entity
give_components_lem r entity s there =
    let still : has_key entity (put_key entity r.transform s.transforms) ≡ true =
      ground (arith, find-put entity entity r.transform s.transforms) in
    ground (arith, still)

-- Ids of other owners only.
abbrev pub Remote : ClientId → IdSet → Type 0
Remote self [] = Unit {0}
Remote self ((id, x) ∷ ids) = (owner_of id ≢ self) × Remote self ids

pub record IsWorld (p : Replicator) (s : Scene) : Type 0 where
  pub paired : IsPaired p s
  pub below : Under s.next_id s.transforms
  pub remote : (from : ClientId) → Remote p.self (ids_from from p.received_from)

-- What the entity `k` has is the same in both scenes.
pub record IsKept (k : EntityId) (s t : Scene) : Type 0 where
  pub transform : find_key k t.transforms ≡ find_key k s.transforms
  pub body : find_key k t.rigid_bodies ≡ find_key k s.rigid_bodies
  pub collider : find_key k t.colliders ≡ find_key k s.colliders
  pub shape : find_key k t.shapes ≡ find_key k s.shapes
  pub other : (type : ℕ) → find_key k (store_of type t.others) ≡ find_key k (store_of type s.others)

-- An entity of this process: it has no id, or one of this owner's.
abbrev pub IsLocal : EntityId → Replicator → Type 0
IsLocal k p = (id : NetId) → find_key k p.net_ids ≡ some id → owner_of id ≡ p.self

-- From one state to the other this owner's ids stand for the same entities, and no entity of this
-- process has changed.
pub record Spares (p : Replicator) (s : Scene) (q : Replicator) (t : Scene) : Type 0 where
  pub self : q.self ≡ p.self
  pub later : s.next_id ≤ t.next_id
  pub own : (id : NetId) → owner_of id ≡ p.self → find_key id q.entities ≡ find_key id p.entities
  pub still : (k : EntityId) → k < s.next_id → IsLocal k p → IsLocal k q
  pub kept : (k : EntityId) → k < s.next_id → IsLocal k p → IsKept k s t

pub IsKept-trans : {k : EntityId} {s t u : Scene} → IsKept k s t → IsKept k t u → IsKept k s u
IsKept-trans a b = record {
  transform = b.transform ∙ a.transform;
  body = b.body ∙ a.body;
  collider = b.collider ∙ a.collider;
  shape = b.shape ∙ a.shape;
  other = λ type. b.other type ∙ a.other type;
}

pub IsKept-refl : (k : EntityId) (s : Scene) → IsKept k s s
IsKept-refl k s = record {
  transform = refl;
  body = refl;
  collider = refl;
  shape = refl;
  other = λ type. refl;
}

pub Spares-refl : (p : Replicator) (s : Scene) → Spares p s p s
Spares-refl p s = record {
  self = refl;
  later = omega arith;
  own = λ id o. refl;
  still = λ k lt l. l;
  kept = λ k lt l. IsKept-refl k s;
}

pub Spares-trans :
    {p q r : Replicator} {s t u : Scene} → Spares p s q t → Spares q t r u → Spares p s r u
Spares-trans a b = record {
  self = b.self ∙ a.self;
  later = omega (arith, a.later, b.later);
  own = λ id o. b.own id (o ∙ sym a.self) ∙ a.own id o;
  still = λ k lt l. b.still k (omega (arith, a.later)) (a.still k lt l);
  kept =
      λ k lt l. IsKept-trans (a.kept k lt l) (b.kept k (omega (arith, a.later)) (a.still k lt l));
}

-- A remote id is given a new entity.
module _ (id : NetId) (p : Replicator) (s : Scene) (other : owner_of id ≢ p.self)
    (room : s.next_id + 1 < 2 ^ 32) (w : IsWorld p s) where
  pub born : (create_entity s).1 ≡ record s {
    next_id = s.next_id + 1;
    transforms = put_key s.next_id default_transform s.transforms;
  }
  born = create_entity_lem s (find_over s.next_id s.next_id s.transforms w.below (omega arith)) room

  pub spawn-Spares : Spares p s (spawn id (p, s)).1.0 (spawn id (p, s)).1.1
  unfolding spawn create_entity
  spawn-Spares = record {
    self = refl;
    later = omega arith;
    own = λ i o. ground (arith, o, find-put i id s.next_id p.entities);
    still = λ k lt l i e. l i (ground (arith, e, find-put k s.next_id id p.net_ids));
    kept = λ k lt l. record {
      transform =
          ap (λ (t : Scene). find_key k t.transforms) born
          ∙ ground (arith, find-put k s.next_id default_transform s.transforms);
      body = refl;
      collider = refl;
      shape = refl;
      other = λ type. refl;
    };
  }

-- A remote id and its entity are forgotten.
pub forget-Spares :
    (id : NetId) (p : Replicator) (s : Scene)
    → owner_of id ≢ p.self
    → IsPaired p s
    → Spares p s (forget id (p, s)).0 (forget id (p, s)).1
unfolding forget forget_entity destroy_entity
forget-Spares id p s other h = elim (Option-cases (find_key id p.entities)) [
  | inl e ↦
      rw (e, forget)
        (record {
          self = refl;
          later = omega arith;
          own = λ i o. refl;
          still = λ k lt l. l;
          kept = λ k lt l. IsKept-refl k s;
        })
  | inr (entity, there) ↦
      let bound = h.back id entity there in
      let away : (k : EntityId) → IsLocal k p → k ≢ entity =
        λ k l e. other (l id (ground (arith, e, bound))) in
      rw (there, forget)
        (record {
          self = refl;
          later = omega arith;
          own = λ i o. ground (arith, o, find-erase i id p.entities);
          still = λ k lt l i e. l i (ground (arith, e, find-erase k entity p.net_ids));
          kept = λ k lt l. record {
            transform = ground (arith, away k l, find-erase k entity s.transforms);
            body = ground (arith, away k l, find-erase k entity s.rigid_bodies);
            collider = ground (arith, away k l, find-erase k entity s.colliders);
            shape = ground (arith, away k l, find-erase k entity s.shapes);
            other = λ type.
                ap (find_key k) (store_of-erase type entity s.others)
                ∙ ground (arith, away k l, find-erase k entity (store_of type s.others));
          };
        })
]
