-- ===== src/Physics.antt =====
-- src/physics.cpp with include/engine/physics.hpp: PhysicsSystem on a Scene. Arithmetic on floats, on
-- the numbers that their bits stand for, and SDL's rectangles are parameters.
pub mod Moving
pub mod Colliding
pub mod Tests
use gef_engine.Prelude.{
  ℕ, Bool, true, false, List, [], ◌∷◌, Option, none, some, Map, find_key, put_key,
}
use gef_engine.Scene.{EntityId, Vec2, Transform, RigidBody, Collider, Scene}

pub record Floats : Type 0 where
  pub add : ℕ → ℕ → ℕ
  pub mul : ℕ → ℕ → ℕ

-- SDL_FRect, and an engine Rect: a position and a size.
pub record Rect : Type 0 where
  pub position : Vec2
  pub size : Vec2

-- SDL_HasRectIntersectionFloat, and SDL_GetRectIntersectionFloat with its result if it is true.
pub record Rects : Type 0 where
  pub intersects : Rect → Rect → Bool
  pub intersection : Rect → Rect → Option Rect

pub record PhysicsSystem : Type 0 where
  pub gravity : ℕ

unfoldable pub physics_system : ℕ → PhysicsSystem
physics_system gravity = record { gravity = gravity }

unfoldable pub set_gravity : ℕ → PhysicsSystem → PhysicsSystem
set_gravity gravity p = record p { gravity = gravity }

-- A body's velocity after `delta` seconds of gravity, and where a velocity takes a transform.
unfoldable pub fall : Floats → PhysicsSystem → ℕ → RigidBody → RigidBody
fall f p delta body = record {
  velocity = record { x = body.velocity.x; y = f.add body.velocity.y (f.mul p.gravity delta) };
}

unfoldable pub drift : Floats → ℕ → RigidBody → Transform → Transform
drift f delta body t = record t {
  position = record {
    x = f.add t.position.x (f.mul body.velocity.x delta);
    y = f.add t.position.y (f.mul body.velocity.y delta);
  };
}

-- The body of the loop; `none` where `transform` throws.
unfoldable pub step_body : Floats → PhysicsSystem → ℕ → EntityId → RigidBody → Scene → Option Scene
unfolding fall drift
step_body f p delta id body s = elim (find_key id s.transforms) [
  | none ↦ none
  | some t ↦ some (record s {
    rigid_bodies = put_key id (fall f p delta body) s.rigid_bodies;
    transforms = put_key id (drift f delta (fall f p delta body) t) s.transforms;
  })
]

unfoldable pub step_bodies : Floats → PhysicsSystem → ℕ → Map RigidBody → Scene → Option Scene
unfolding step_body
step_bodies f p delta [] s = some s
step_bodies f p delta ((id, body) ∷ bodies) s = elim (step_body f p delta id body s) [
  | none ↦ none
  | some s' ↦ step_bodies f p delta bodies s'
]

-- step
unfoldable pub step : Floats → PhysicsSystem → ℕ → Scene → Option Scene
unfolding step_bodies
step f p delta s = step_bodies f p delta s.rigid_bodies s

-- The rectangle of a collider where its entity stands.
unfoldable pub bounds : Floats → Transform → Collider → Rect
bounds f t c = record {
  position = t.position;
  size = record { x = f.mul c.size.x t.scale.x; y = f.mul c.size.y t.scale.y };
}

-- The two rectangles; the outer `none` where `transform` throws, the inner where an entity has no
-- collider.
unfoldable pub rects_of :
    Floats
    → Option Transform
    → Option Transform
    → Option Collider
    → Option Collider
    → Option (Option (Rect × Rect))
unfolding bounds
rects_of f none u c d = none
rects_of f (some t) none c d = none
rects_of f (some t) (some u) none d = some none
rects_of f (some t) (some u) (some c) none = some none
rects_of f (some t) (some u) (some c) (some d) = some (some (bounds f t c, bounds f u d))

unfoldable pub both_bounds : Floats → Scene → EntityId → EntityId → Option (Option (Rect × Rect))
unfolding rects_of
both_bounds f s a b =
    rects_of f (find_key a s.transforms) (find_key b s.transforms) (find_key a s.colliders)
      (find_key b s.colliders)

abbrev pub for_rects :
    {A : Type 0} → (Option (Rect × Rect) → A) → Option (Option (Rect × Rect)) → Option A
for_rects f none = none
for_rects f (some rs) = some (f rs)

abbrev pub hit : Rects → Option (Rect × Rect) → Bool
hit g none = false
hit g (some (r, q)) = g.intersects r q

-- isCollision
unfoldable pub is_collision : Floats → Rects → Scene → EntityId → EntityId → Option Bool
unfolding both_bounds
is_collision f g s a b = for_rects (hit g) (both_bounds f s a b)

abbrev pub no_rect : Rect
no_rect = record { position = record { x = 0; y = 0 }; size = record { x = 0; y = 0 } }

abbrev pub overlap : Rects → Option (Rect × Rect) → Rect
overlap g none = no_rect
overlap g (some (r, q)) = elim (g.intersection r q) [ none ↦ no_rect | some o ↦ o ]

-- GetCollisionOverlap
unfoldable pub collision_overlap : Floats → Rects → Scene → EntityId → EntityId → Option Rect
unfolding both_bounds
collision_overlap f g s a b = for_rects (overlap g) (both_bounds f s a b)
