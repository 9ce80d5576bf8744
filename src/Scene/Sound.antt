-- ===== src/Scene/Sound.antt =====
-- entity.hpp and entity.cpp: what holds of every scene.
use gef_engine.Prelude.{
  ℕ, ◌+◌, ◌<◌, ◌≤◌, ◌≡◌, ◌^◌, sym, subst, inl, inr, true, none, some, Map, find_key, put_key,
  erase_key, has_key, Under, arith, Option-cases, ◌==◌, if◌then◌else◌,
}
use gef_engine.Prelude.MapLaws.{
  find-put, find-erase, find_over, put-Under, Under-mono, find-map_values, map_values,
}
use gef_engine.Scene.{
  EntityId, Transform, RigidBody, Collider, Shape, Scene, default_transform, has_entity,
  create_entity, destroy_entity, set_transform, add_rigid_body, add_collider, add_shape, store_of,
  add_other, remove_rigid_body, remove_collider, remove_shape, remove_other, make_net_id, owner_of,
  local_of,
}

-- The owner and the local part of a made NetId are those that it was made of, different parts make
-- different ids, and every id is made of its parts.
pub net_id_parts :
    (owner local : ℕ)
    → owner ≤ 255
    → local < 2 ^ 24
    → (owner_of (make_net_id owner local) ≡ owner)
      × (local_of (make_net_id owner local) ≡ local)
      × (make_net_id owner local < 2 ^ 32)
unfolding owner_of local_of make_net_id
net_id_parts owner local h k = (omega arith, omega arith, omega arith)

-- One call of a scene's methods that change it; a call that throws is no step.
pub data Step : Scene → Scene → Type 0 where
  create : (s : Scene) → s.next_id + 1 < 2 ^ 32 → Step s (create_entity s).1
  destroy : (s : Scene) (id : EntityId) → Step s (destroy_entity id s)
  move : (s t : Scene) (id : EntityId) (x : Transform) → set_transform id x s ≡ some t → Step s t
  body : (s t : Scene) (id : EntityId) (x : RigidBody) → add_rigid_body id x s ≡ some t → Step s t
  collide : (s t : Scene) (id : EntityId) (x : Collider) → add_collider id x s ≡ some t → Step s t
  shape : (s t : Scene) (id : EntityId) (x : Shape) → add_shape id x s ≡ some t → Step s t
  other : (s t : Scene) (type id x : ℕ) → add_other type id x s ≡ some t → Step s t
  no_body : (s : Scene) (id : EntityId) → Step s (remove_rigid_body id s)
  no_collider : (s : Scene) (id : EntityId) → Step s (remove_collider id s)
  no_shape : (s : Scene) (id : EntityId) → Step s (remove_shape id s)
  no_other : (s : Scene) (type id : ℕ) → Step s (remove_other type id s)

pub data Reach (s : Scene) : Scene → Type 0 where
  start : Reach s s
  next : {t u : Scene} → Reach s t → Step t u → Reach s u

-- A store has no component of an entity that has no transform.
abbrev pub Follows : {V : Type 0} → Map V → Map Transform → Type 0
Follows m ts = (k : ℕ) → find_key k ts ≡ none → find_key k m ≡ none

module _ {V : Type 0} (m : Map V) (ts : Map Transform) (f : Follows m ts) where
  pub put-Follows : (id : ℕ) (v : V) → has_key id ts ≡ true → Follows (put_key id v m) ts
  put-Follows id v h = λ k e. ground (arith, e, f k e, find-put k id v m)

  pub erase-Follows : (id : ℕ) → Follows (erase_key id m) ts
  erase-Follows id = λ k e. ground (arith, f k e, find-erase k id m)

  pub both-Follows : (id : ℕ) → Follows (erase_key id m) (erase_key id ts)
  both-Follows id = λ k e. ground (arith, e, f k, find-erase k id m, find-erase k id ts)

  pub moved-Follows : (id : ℕ) (x : Transform) → Follows m (put_key id x ts)
  moved-Follows id x = λ k e. f k (ground (arith, e, find-put k id x ts))

-- Entities lie below the next id, and every store follows the transforms.
pub record IsSound (s : Scene) : Type 0 where
  pub below : Under s.next_id s.transforms
  pub bodies : Follows s.rigid_bodies s.transforms
  pub colliders : Follows s.colliders s.transforms
  pub shapes : Follows s.shapes s.transforms
  pub others : (type : ℕ) → Follows (store_of type s.others) s.transforms

store_of-put :
    (type kind : ℕ) (store : Map ℕ) (others : Map (Map ℕ))
    → store_of type (put_key kind store others)
      ≡ (if type == kind then store else store_of type others)
store_of-put type kind store others = ground (arith, find-put type kind store others)

pub store_of-erase :
    (type id : ℕ) (others : Map (Map ℕ))
    → store_of type (map_values (erase_key id) others) ≡ erase_key id (store_of type others)
unfolding erase_key
store_of-erase type id others = elim (Option-cases (find_key type others)) [
  | inl e ↦ ground (arith, e, find-map_values (erase_key {V = ℕ} id) type others)
  | inr (store, e) ↦ ground (arith, e, find-map_values (erase_key {V = ℕ} id) type others)
]

pub store-Follows :
    (type kind : ℕ) (store : Map ℕ) (others : Map (Map ℕ)) (ts : Map Transform)
    → Follows store ts
    → Follows (store_of type others) ts
    → Follows (store_of type (put_key kind store others)) ts
store-Follows type kind store others ts f g =
    λ k e. ground (arith, f k e, g k e, store_of-put type kind store others)

-- A call that does not throw finds its entity.
pub did_add :
    (s t u : Scene) (id : EntityId)
    → (if has_entity id s then some t else none) ≡ some u
    → (has_key id s.transforms ≡ true) × (t ≡ u)
unfolding has_entity
did_add s t u id e = elim (Option-cases (find_key id s.transforms)) [
  | inl gone ↦ absurd (ground (arith, e))
  | inr (x, there) ↦ (ground arith, ground (arith, e))
]

pub has_key-lt :
    (id : EntityId) (s : Scene) → IsSound s → has_key id s.transforms ≡ true → id < s.next_id
has_key-lt id s v h = ground (arith, h, find_over id s.next_id s.transforms v.below)

pub create_entity_lem :
    (s : Scene)
    → find_key s.next_id s.transforms ≡ none
    → s.next_id + 1 < 2 ^ 32
    → (create_entity s).1 ≡ record s {
      next_id = s.next_id + 1;
      transforms = put_key s.next_id default_transform s.transforms;
    }
unfolding create_entity
create_entity_lem s fresh h = ground (arith, fresh)

pub create-IsSound : (s : Scene) → s.next_id + 1 < 2 ^ 32 → IsSound s → IsSound (create_entity s).1
create-IsSound s h v =
    let id = s.next_id in
    let fresh = find_over id id s.transforms v.below (omega arith) in
    subst IsSound (sym (create_entity_lem s fresh h)) (record {
      below =
          put-Under (id + 1) id default_transform s.transforms
            (Under-mono id (id + 1) s.transforms v.below (omega arith)) (omega arith);
      bodies = moved-Follows s.rigid_bodies s.transforms v.bodies id default_transform;
      colliders = moved-Follows s.colliders s.transforms v.colliders id default_transform;
      shapes = moved-Follows s.shapes s.transforms v.shapes id default_transform;
      others = λ type.
          moved-Follows (store_of type s.others) s.transforms (v.others type) id default_transform;
    })
