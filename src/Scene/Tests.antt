-- ===== src/Scene/Tests.antt =====
-- Runs of a scene.
use gef_engine.Prelude.{◌<◌, ◌≡◌, refl, find_key, arith, some, put_key}
use gef_engine.Scene.{
  Scene, empty_scene, create_entity, destroy_entity, add_rigid_body, zero_vec, has_entity,
}
use gef_engine.Scene.Sound.{IsSound, create, destroy, body, start, next}
use gef_engine.Scene.Steps.{Reach-fresh}

-- Two entities, the first with a body, and then the first destroyed.
abbrev two : Scene
two = (create_entity (create_entity empty_scene).1).1

abbrev moving : Scene
moving = record two { rigid_bodies = put_key 1 (record { velocity = zero_vec }) two.rigid_bodies }

two_make_moving : add_rigid_body 1 (record { velocity = zero_vec }) two ≡ some moving
unfolding add_rigid_body create_entity empty_scene has_entity find_key put_key
two_make_moving = refl

Reach-fresh_example :
    IsSound (destroy_entity 1 moving)
    × ((create_entity empty_scene).0 < (create_entity (destroy_entity 1 moving)).0)
Reach-fresh_example =
    Reach-fresh empty_scene (destroy_entity 1 moving) start (unfold empty_scene in omega arith) (
      next
        (next
          (next start (
            create (create_entity empty_scene).1
              (unfold create_entity in unfold empty_scene in omega arith)))
          (body two moving 1 (record { velocity = zero_vec }) two_make_moving))
        (destroy moving 1))
