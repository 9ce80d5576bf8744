-- ===== src/Scene/Steps.antt =====
-- src/entity.cpp: every operation on the scene keeps its invariant.
use gef_engine.Prelude.{
  ◌+◌, ◌^◌, ◌<◌, ◌≤◌, ap, refl, sym, subst, inl, inr, find_key, put_key, erase_key, arith,
  Option-cases,
}
use gef_engine.Prelude.MapLaws.{find_over, put-Under, erase-Under}
use gef_engine.Scene.{
  Scene, empty_scene, create_entity, destroy_entity, set_transform, add_rigid_body, add_collider,
  add_shape, store_of, add_other, remove_rigid_body, remove_collider, remove_shape, remove_other,
}
use gef_engine.Scene.Sound.{
  put-Follows, erase-Follows, moved-Follows, both-Follows, create, destroy, move, body, collide,
  shape, other, no_body, no_collider, no_shape, no_other, start, next, Step, Reach, Follows,
  IsSound, store_of-erase, store-Follows, did_add, has_key-lt, create-IsSound, create_entity_lem,
}

Step-IsSound : {s t : Scene} → Step s t → IsSound s → IsSound t
unfolding destroy_entity set_transform add_rigid_body add_collider add_shape add_other
    remove_rigid_body remove_collider remove_shape remove_other
Step-IsSound (create s h) v = create-IsSound s h v
Step-IsSound (destroy s id) v = record {
  below = erase-Under s.next_id id s.transforms v.below;
  bodies = both-Follows s.rigid_bodies s.transforms v.bodies id;
  colliders = both-Follows s.colliders s.transforms v.colliders id;
  shapes = both-Follows s.shapes s.transforms v.shapes id;
  others = λ type.
      subst (λ m. Follows m (erase_key id s.transforms)) (sym (store_of-erase type id s.others))
        (both-Follows (store_of type s.others) s.transforms (v.others type) id);
}
Step-IsSound (move s t id x e) v =
    let did = did_add s _ t id e in
    subst IsSound did.1 (record {
      below = put-Under s.next_id id x s.transforms v.below (has_key-lt id s v did.0);
      bodies = moved-Follows s.rigid_bodies s.transforms v.bodies id x;
      colliders = moved-Follows s.colliders s.transforms v.colliders id x;
      shapes = moved-Follows s.shapes s.transforms v.shapes id x;
      others = λ type. moved-Follows (store_of type s.others) s.transforms (v.others type) id x;
    })
Step-IsSound (body s t id x e) v =
    let did = did_add s _ t id e in
    subst IsSound did.1 (record {
      below = v.below;
      bodies = put-Follows s.rigid_bodies s.transforms v.bodies id x did.0;
      colliders = v.colliders;
      shapes = v.shapes;
      others = v.others;
    })
Step-IsSound (collide s t id x e) v =
    let did = did_add s _ t id e in
    subst IsSound did.1 (record {
      below = v.below;
      bodies = v.bodies;
      colliders = put-Follows s.colliders s.transforms v.colliders id x did.0;
      shapes = v.shapes;
      others = v.others;
    })
Step-IsSound (shape s t id x e) v =
    let did = did_add s _ t id e in
    subst IsSound did.1 (record {
      below = v.below;
      bodies = v.bodies;
      colliders = v.colliders;
      shapes = put-Follows s.shapes s.transforms v.shapes id x did.0;
      others = v.others;
    })
Step-IsSound (other s t kind id x e) v =
    let did = did_add s _ t id e in
    let store = store_of kind s.others in
    subst IsSound did.1 (record {
      below = v.below;
      bodies = v.bodies;
      colliders = v.colliders;
      shapes = v.shapes;
      others = λ type.
          store-Follows type kind (put_key id x store) s.others s.transforms
            (put-Follows store s.transforms (v.others kind) id x did.0) (v.others type);
    })
Step-IsSound (no_body s id) v = record {
  below = v.below;
  bodies = erase-Follows s.rigid_bodies s.transforms v.bodies id;
  colliders = v.colliders;
  shapes = v.shapes;
  others = v.others;
}
Step-IsSound (no_collider s id) v = record {
  below = v.below;
  bodies = v.bodies;
  colliders = erase-Follows s.colliders s.transforms v.colliders id;
  shapes = v.shapes;
  others = v.others;
}
Step-IsSound (no_shape s id) v = record {
  below = v.below;
  bodies = v.bodies;
  colliders = v.colliders;
  shapes = erase-Follows s.shapes s.transforms v.shapes id;
  others = v.others;
}
Step-IsSound (no_other s kind id) v = elim (Option-cases (find_key kind s.others)) [
  | inl e ↦ rw (e, remove_other) v
  | inr (store, e) ↦
      let f : Follows store s.transforms = λ k gone. ground (arith, e, v.others kind k gone) in
      rw (e, remove_other)
        (record {
          below = v.below;
          bodies = v.bodies;
          colliders = v.colliders;
          shapes = v.shapes;
          others = λ type.
              store-Follows type kind (erase_key id store) s.others s.transforms
                (erase-Follows store s.transforms f id) (v.others type);
        })
]

pub Reach-IsSound : (s : Scene) → Reach empty_scene s → IsSound s
unfolding empty_scene find_key
Reach-IsSound s start = record {
  below = tt;
  bodies = λ k e. refl;
  colliders = λ k e. refl;
  shapes = λ k e. refl;
  others = λ type k e. refl;
}
Reach-IsSound s (next {t} r step) = Step-IsSound step (Reach-IsSound t r)

Step-next_id : {s t : Scene} → Step s t → IsSound s → s.next_id ≤ t.next_id
unfolding destroy_entity set_transform add_rigid_body add_collider add_shape add_other
    remove_rigid_body remove_collider remove_shape remove_other
Step-next_id (create s room) v =
    let born =
      create_entity_lem s (find_over s.next_id s.next_id s.transforms v.below (omega arith)) room in
    omega (arith, ap (λ (p : Scene). p.next_id) born)
Step-next_id (destroy s id) v = omega arith
Step-next_id (move s t id x e) v = ground (arith, e)
Step-next_id (body s t id x e) v = ground (arith, e)
Step-next_id (collide s t id x e) v = ground (arith, e)
Step-next_id (shape s t id x e) v = ground (arith, e)
Step-next_id (other s t type id x e) v = ground (arith, e)
Step-next_id (no_body s id) v = omega arith
Step-next_id (no_collider s id) v = omega arith
Step-next_id (no_shape s id) v = omega arith
Step-next_id (no_other s type id) v = ground arith

later_lem : {s t : Scene} → IsSound s → Reach s t → IsSound t × (s.next_id ≤ t.next_id)
later_lem v start = (v, omega arith)
later_lem v (next r step) =
    let before = later_lem v r in
    (Step-IsSound step before.0, omega (arith, before.1, Step-next_id step before.0))

-- Two entities that calls on a scene create, the scene being empty at first and its ids not running
-- out: the later one has a greater id, whatever was destroyed in between, so that no id is ever given
-- out again. And of the scene in which it is created the entities have ids below the next one, and
-- only entities that are there have components, of whatever type: nothing of a destroyed one is left.
pub Reach-fresh :
    (s t : Scene)
    → Reach empty_scene s
    → s.next_id + 1 < 2 ^ 32
    → Reach (create_entity s).1 t
    → IsSound t × ((create_entity s).0 < (create_entity t).0)
unfolding create_entity
Reach-fresh s t r room after =
    let v = Reach-IsSound s r in
    let up = Step-next_id (create s room) v in
    let born =
      create_entity_lem s (find_over s.next_id s.next_id s.transforms v.below (omega arith)) room in
    let w = later_lem (Step-IsSound (create s room) v) after in
    (w.0, omega (arith, w.1, ap (λ (p : Scene). p.next_id) born))
