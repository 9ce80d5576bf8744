-- ===== src/Physics/Tests.antt =====
-- A falling body over whole numbers, and rectangles on a line.
use gef_engine.Prelude.{
  ◌+◌, ◌*◌, ◌≡◌, ◌≢◌, ◌⊎◌, refl, false, [], ◌∷◌, none, some, arith, if◌then◌else◌, find_key,
  put_key, ◌==◌,
}
use gef_engine.Scene.{
  Scene, RigidBody, empty_scene, create_entity, add_rigid_body, default_transform, has_entity,
}
use gef_engine.Scene.Sound.{IsSound, start, next, create, body}
use gef_engine.Scene.Steps.{Reach-IsSound}
use gef_engine.Physics.{
  Floats, PhysicsSystem, Rect, Rects, step, is_collision, collision_overlap, no_rect,
}
use gef_engine.Physics.Moving.{Stepped, step_moves}
use gef_engine.Physics.Colliding.{RectLaws, is_collision_lem}

abbrev whole : Floats
whole = record { add = λ a b. a + b; mul = λ a b. a * b }

abbrev earth : PhysicsSystem
earth = record { gravity = 10 }

abbrev one_body : RigidBody
one_body = record { velocity = record { x = 3; y = 0 } }

-- The scene of one entity with a body.
abbrev falling : Scene
falling = record {
  next_id = 2;
  transforms = (1, default_transform) ∷ [];
  rigid_bodies = (1, one_body) ∷ [];
  colliders = [];
  shapes = [];
  others = [];
}

made : add_rigid_body 1 one_body (create_entity empty_scene).1 ≡ some falling
unfolding add_rigid_body create_entity empty_scene has_entity find_key put_key
made = refl

falling-IsSound : IsSound falling
unfolding empty_scene
falling-IsSound = Reach-IsSound falling (
    next (next start (create empty_scene (omega arith)))
      (body (create_entity empty_scene).1 falling 1 one_body made))

step_moves_example :
    (t : Scene) × (step whole earth 2 falling ≡ some t)
    × Stepped whole earth 2 falling.rigid_bodies falling t
    × IsSound t
step_moves_example = step_moves whole earth 2 falling falling-IsSound (omega arith, tt)

-- A body that falls for two seconds.
abbrev fallen_body : RigidBody
fallen_body = record { velocity = record { x = 3; y = 20 } }

fallen :
    step whole earth 2 falling
    ≡ some (record falling {
      rigid_bodies = (1, fallen_body) ∷ [];
      transforms = (1, record default_transform { position = record { x = 6; y = 40 } }) ∷ [];
    })
unfolding step find_key put_key
fallen = refl

-- Rectangles that meet if the first coordinates of their corners are the same.
abbrev on_line : Rects
on_line = record {
  intersects = λ r q. r.position.x == q.position.x;
  intersection = λ r q. if r.position.x == q.position.x then some r else none;
}

on_line_symmetric : (r q : Rect) → (r.position.x == q.position.x) ≡ (q.position.x == r.position.x)
on_line_symmetric r q = ground arith

on_line_disjoint :
    (r q : Rect)
    → (r.position.x == q.position.x) ≡ false
    → (if r.position.x == q.position.x then some r else none) ≡ none
on_line_disjoint r q e = rw e

abbrev on_line_laws : RectLaws on_line
on_line_laws = record { symmetric = on_line_symmetric; disjoint = on_line_disjoint }

is_collision_lem_example :
    (is_collision whole on_line falling 1 2 ≡ is_collision whole on_line falling 2 1)
    × ((is_collision whole on_line falling 1 2 ≢ some false)
        ⊎ (collision_overlap whole on_line falling 1 2 ≡ some no_rect))
is_collision_lem_example = is_collision_lem whole on_line on_line_laws falling 1 2
